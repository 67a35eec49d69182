-- ===== src/Agent/Executor.antt =====
-- internal/agent/executor.go: the loop over a plan's tool calls and the answer. `new_confirmation_id`
-- stands for `storage.NewID`. A call's arguments are listed in the order of their keys.
pub mod Metadata
pub mod FollowUp
pub mod Execute
pub mod Gate
pub mod Bounds
pub mod Authorized
use gigi_dc.Prelude.{
  ℕ, suc, ◌+◌, String, ◌==◌, ◌++◌, Bool, true, false, ◌&&◌, ◌||◌, not, Option, none, some, List, [],
  ◌∷◌, Error, Result, ok, err, trim, is_empty, is_blank, is_nil, push, is_some, length,
  if◌then◌else◌,
}
use gigi_dc.Prelude.Unicode.{Unicode}
use gigi_dc.Audit
use gigi_dc.Audit.{Status}
use gigi_dc.Agent.{
  Request, Response, Plan, ToolSpec, ToolCall, ToolResult, read, write, RunStatus,
  TerminationReason, default_visibility, ConfirmationRecord, pending, empty_run_status,
  empty_termination, ToolKind, other_kind,
}
use gigi_dc.Agent.Effects.{
  Effect, cancel_checked, confirmation_created, tool_run, answered, follow_up_saved, History, Act,
  give, ask, perform, ◌>>=◌, ◌>>◌,
}
use gigi_dc.Agent.Trace.{Trace, RunStore, with_step, record_trace, safe_audit_value}
use gigi_dc.Agent.Tools.{Registry, Tool, lookup_tool}
use gigi_dc.Agent.Policy.{RoutingPolicy, Verdict, check_before_tool}
use gigi_dc.Agent.Executor.Metadata.{
  ErrorView, entry, kind_text, reason_text, call_metadata, merge, tool_call_metadata,
  tool_result_metadata, confirmation_payload,
}
use gigi_dc.Agent.Executor.FollowUp.{snapshot_of, format_tool_results}

pub record Executor : Type 0 where
  pub tools : Registry
  pub answerer : Option (History → Request → Plan → List ToolResult → Result Response)
  pub skip_answer_reason : String
  pub policy : RoutingPolicy
  pub trace : Trace
  pub trace_step_offset : ℕ
  pub has_follow_ups : Bool
  pub errors : ErrorView
  pub new_confirmation_id : History → String

abbrev pub response : String → RunStatus → TerminationReason → Response
response text status reason = record {
  text = text;
  visibility = default_visibility;
  run_id = "";
  confirmation_id = "";
  run_status = status;
  termination_reason = reason;
  trace = [];
}

abbrev pub failed_response : String → Response
failed_response text = response text RunStatus.failed TerminationReason.executor_failed

-- `traceRunCanceled`.
unfoldable pub trace_run_canceled : Trace → Act (Result Bool)
trace_run_canceled t = elim t.store [
  | none ↦ give (ok false)
  | some store ↦
      if is_empty t.run_id
      then give (ok false)
      else ask (cancel_checked t.run_id) (λ h. store.is_run_canceled h t.run_id)
]

-- What happens to a tool call before the tool runs, and after.
pub data Admission : Type 0 where
  halted : Response → Admission
  admitted : Tool → ToolSpec → Admission

pub data CallExit : Type 0 where
  stopped : Response → CallExit
  done : ToolResult → CallExit

pub data LoopExit : Type 0 where
  left : Response → LoopExit
  finished : List ToolResult → LoopExit

abbrev pub is_write : ToolKind → Bool
is_write write = true
is_write _ = false

module _ (u : Unicode) (e : Executor) (request : Request) where
  -- `createPendingConfirmation`.
  unfoldable pub create_pending_confirmation :
      Trace → ℕ → ToolSpec → ToolCall → Act (String × Option Error)
  create_pending_confirmation t step_index spec call = elim t.store [
    | none ↦ give ("", none)
    | some store ↦ if is_empty t.run_id then give ("", none) else λ h.
        let confirmation : ConfirmationRecord = record {
          id = e.new_confirmation_id h;
          run_id = t.run_id;
          step_index = step_index;
          status = pending;
          tool_name = spec.name;
          payload = confirmation_payload u spec call;
          created_by_user_id = request.actor_user_id;
        } in
        (
          (e.new_confirmation_id h, store.create_confirmation h confirmation),
          confirmation_created confirmation ∷ h,
        )
  ]

  -- A write tool is never run: its call waits for a confirmation.
  unfoldable pub propose_write : Trace → ℕ → ToolSpec → ToolCall → Act Response
  propose_write t step_index spec call = do
    record_trace u t request "agent.tool" Audit.denied "confirmation_required" (call_metadata spec)
    created ← create_pending_confirmation t step_index spec call
    if is_some created.1
        then (do
          record_trace u t request "agent.tool" Audit.failed "confirmation_create_failed"
              (entry "tool" spec.name)
          give (failed_response "Agent confirmation failed."))
        else give
            (record (response "I can plan that, but confirmation is required before running it."
              RunStatus.confirmation_required TerminationReason.confirmation_required) {
                confirmation_id = created.0;
              })

  -- The permission check of a read tool.
  unfoldable pub decide : Trace → Tool → ToolSpec → Verdict → Act Admission
  decide t tool spec verdict =
      if is_some verdict.1
      then (do
        record_trace u t request "agent.tool" Audit.failed "permission_check_failed"
            (call_metadata spec)
        give (
            halted (
              response "Permission check failed." RunStatus.failed
                TerminationReason.permission_check_failed)))
      else if not verdict.0.allowed
      then (do
        record_trace u t request "agent.tool" Audit.denied "permission_denied" (
            merge (call_metadata spec) (
              merge (entry "capability" verdict.0.capability)
                (entry "decision_reason" (reason_text verdict.0.reason))))
        give (
            halted (
              response "Permission denied for agent tool." RunStatus.denied
                TerminationReason.permission_denied)))
      else give (admitted tool spec)

  -- The checks of one call, after the tool was found and the run is known not to be cancelled.
  unfoldable pub authorize : Trace → ℕ → Tool → ToolSpec → ToolCall → Act Admission
  authorize t step_index tool spec call =
      if is_write spec.kind
      then (do r ← propose_write t step_index spec call; give (halted r))
      else (do verdict ← check_before_tool e.policy request spec; decide t tool spec verdict)

  unfoldable pub check_canceled : Trace → ToolSpec → Result Bool → Act Admission → Act Admission
  check_canceled t spec (err x) next = do
    record_trace u t request "agent.tool" Audit.failed "cancel_check_failed"
        (entry "tool" spec.name)
    give (halted (failed_response "Agent run failed."))
  check_canceled t spec (ok true) next =
      give
        (halted (response "Agent run was canceled." RunStatus.canceled TerminationReason.canceled))
  check_canceled t spec (ok false) next = next

  -- `index` counts the calls from 0.
  unfoldable pub admit : Trace → ℕ → ToolCall → Result (Tool × ToolSpec) → Act Admission
  admit t index call (err x) = do
    record_trace u t request "agent.tool" Audit.failed "tool_failed" (entry "tool" call.name)
    give (halted (failed_response "Agent tool failed."))
  admit t index call (ok (tool, spec)) = do
    canceled ← trace_run_canceled t
    check_canceled t spec canceled (authorize t (index + 1) tool spec call)
