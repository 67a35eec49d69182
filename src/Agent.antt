-- ===== src/Agent.antt =====
-- internal/agent: the data of requests, plans and runs (types.go, tools.go, run_store.go,
-- followup.go). Times are left out.
pub mod Effects
pub mod Trace
pub mod Tools
pub mod Policy
pub mod Executor
pub mod Runner
pub mod Store
pub mod FollowUpStore
pub mod TraceStore
pub mod Web
pub mod Context
mod Tests
use gigi_dc.Prelude.{ℕ, String, Bool, Option, List}
use gigi_dc.Audit.{Metadata, Status}
use gigi_dc.ContextBroker.{Pack, Seen}

pub data Surface : Type 0 where
  dm guild_mention : Surface
  other_surface : String → Surface

pub data Visibility : Type 0 where
  default_visibility public_visibility private_visibility : Visibility

-- `empty_run_status` is the empty text.
pub data RunStatus : Type 0 where
  running succeeded failed denied dry_run confirmation_required canceled empty_run_status :
      RunStatus

-- `empty_termination` is the empty text.
pub data TerminationReason : Type 0 where
  completed dry_run canceled ignored routing_policy_failed routing_off : TerminationReason
  permission_denied permission_check_failed planner_failed clarify : TerminationReason
  confirmation_required step_budget_exceeded tool_budget_exceeded executor_failed :
      TerminationReason
  llm_budget_exceeded empty_termination : TerminationReason

pub data ToolKind : Type 0 where
  read write : ToolKind
  other_kind : String → ToolKind

pub record ToolSpec : Type 0 where
  pub name : String
  pub description : String
  pub kind : ToolKind
  pub capability : String

pub record ToolCall : Type 0 where
  pub name : String
  pub args : Metadata

pub record ToolResult : Type 0 where
  pub name : String
  pub summary : String
  pub results : Option Metadata

pub record Plan : Type 0 where
  pub intent : String
  pub context_scopes : List String
  pub tool_calls : List ToolCall
  pub clarifying_question : String
  pub requires_confirmation : Bool
  pub trace : Metadata

pub record RunSnapshot : Type 0 where
  pub run_id : String
  pub intent : String
  pub results : List ToolResult
  pub response_text : String
  pub context_state : Seen

pub record Request : Type 0 where
  pub surface : Surface
  pub guild_id : String
  pub channel_id : String
  pub actor_user_id : String
  pub role_ids : List String
  pub has_administrator : Bool
  pub context_scope : String
  pub text : String
  pub raw_text : String
  pub prior_run : Option RunSnapshot
  pub context_pack : Option Pack

pub record Response : Type 0 where
  pub text : String
  pub visibility : Visibility
  pub run_id : String
  pub confirmation_id : String
  pub run_status : RunStatus
  pub termination_reason : TerminationReason
  pub trace : Metadata

pub record RunRecord : Type 0 where
  pub id : String
  pub guild_id : String
  pub channel_id : String
  pub actor_user_id : String
  pub surface : Surface
  pub context_scope : String
  pub status : RunStatus
  pub max_steps : ℕ
  pub max_tool_calls : ℕ
  pub max_llm_calls : ℕ
  pub max_input_tokens : ℕ
  pub max_output_tokens : ℕ

pub record StepRecord : Type 0 where
  pub run_id : String
  pub step_index : ℕ
  pub kind : String
  pub status : Status
  pub reason : String
  pub observation : Metadata

pub data ConfirmationStatus : Type 0 where
  pending confirmed canceled expired : ConfirmationStatus

pub record ConfirmationRecord : Type 0 where
  pub id : String
  pub run_id : String
  pub step_index : ℕ
  pub status : ConfirmationStatus
  pub tool_name : String
  pub payload : Metadata
  pub created_by_user_id : String

pub record TraceEvent : Type 0 where
  pub run_id : String
  pub step_index : ℕ
  pub phase : String
  pub source : String
  pub kind : String
  pub status : Status
  pub reason : String
  pub intent : String
  pub planner : String
  pub tool_name : String
  pub tool_kind : String
  pub capability : String
  pub routing_mode : String
  pub details : Metadata
