-- ===== src/Agent/Runner.antt =====
-- internal/agent/runner.go: the runner's settings, its limits and the end of a run. The limits are
-- natural numbers, where the source treats a negative one as 0. `storage_id` stands for
-- `storage.NewID`.
pub mod Planned
pub mod Run
pub mod Paths
pub mod Once
pub mod Invariants
pub mod Safe
use gigi_dc.Prelude.{
  ℕ, ◌+◌, String, ◌==◌, ◌++◌, Bool, true, false, ◌&&◌, ◌||◌, not, Option, none, some, List, [], ◌∷◌,
  Error, Result, trim, is_empty, is_blank, is_nil, is_some, length, ltb, map, if◌then◌else◌,
}
use gigi_dc.Prelude.Unicode.{codes, ascii_to_lower, has_prefix}
use gigi_dc.ContextBroker.{Pack}
use gigi_dc.Agent.{
  Request, Response, Plan, ToolSpec, ToolCall, RunStatus, TerminationReason, empty_run_status,
  empty_termination, Surface, guild_mention,
}
use gigi_dc.Agent.Effects.{run_completed, History, Act, give, perform, ◌>>=◌, ◌>>◌}
use gigi_dc.Agent.Trace.{Trace, RunStore, with_run_id, inherit}
use gigi_dc.Agent.Policy.{RoutingPolicy}
use gigi_dc.Agent.Executor.{Executor, response}

pub record Budget : Type 0 where
  pub max_input_tokens : ℕ
  pub max_output_tokens : ℕ
  pub max_llm_calls : ℕ

pub record Limits : Type 0 where
  pub max_steps : ℕ
  pub max_tool_calls : ℕ
  pub budget : Budget

-- The planner returns a plan and whether it has one; the fetcher a pack and perhaps an error.
pub record Runner : Type 0 where
  pub planner : Option (History → Request → List ToolSpec → Result (Plan × Bool))
  pub context_fetcher : Option (History → Request → Pack × Option Error)
  pub policy : RoutingPolicy
  pub executor : Executor
  pub trace : Trace
  pub limits : Limits
  pub run_store : Option RunStore
  pub new_run_id : Option (History → String)
  pub storage_id : History → String

-- What `Run` returns; its error is always nil, since `Execute` never returns one.
pub record Outcome : Type 0 where
  pub response : Response
  pub handled : Bool

-- The values that `Run` computes before its first guard.
pub record RunState : Type 0 where
  pub run_id : String
  pub trace : Trace
  pub executor : Executor
  pub started : Bool

abbrev pub no_response : Response
no_response = response "" empty_run_status empty_termination

abbrev pub ignored_outcome : Outcome
ignored_outcome = record { response = no_response; handled = false }

unfoldable pub max_tool_calls : Limits → ℕ
max_tool_calls l = if ltb 0 l.max_tool_calls then l.max_tool_calls else 5

unfoldable pub run_id_of : Runner → History → String
run_id_of r h = elim r.new_run_id [ none ↦ r.storage_id h | some make ↦ trim (make h) ]

abbrev pub skip_reason : Executor → ℕ → String
skip_reason e max_llm_calls =
    if is_some e.answerer && ltb 0 max_llm_calls && ltb max_llm_calls 2
    then "llm_budget_exceeded"
    else e.skip_answer_reason

unfoldable pub prepare : Runner → History → RunState
prepare r h =
    let trace = record (with_run_id r.trace (run_id_of r h)) { store = r.run_store } in
    record {
      run_id = run_id_of r h;
      trace = trace;
      executor = record r.executor {
        trace = inherit r.executor.trace trace;
        skip_answer_reason = skip_reason r.executor r.limits.budget.max_llm_calls;
      };
      started = false;
    }

abbrev pub is_guild_mention : Surface → Bool
is_guild_mention guild_mention = true
is_guild_mention _ = false

-- The guards of `Run` that hand the request on unread.
unfoldable pub is_ignored : Runner → Request → Bool
is_ignored r request =
    not (is_some r.planner)
    || not (is_guild_mention request.surface)
    || is_empty request.guild_id
    || request.context_scope == "none"

-- `completeRun`; the error of the store is dropped.
unfoldable pub complete_run :
    RunState → Option RunStore → RunStatus → TerminationReason → Response → Bool → Act Outcome
complete_run s store status reason r handled = do
  if s.started && is_some store then perform (run_completed s.run_id status reason) else give tt
  give (record {
    response = record r { run_id = s.run_id; run_status = status; termination_reason = reason };
    handled = handled;
  })

abbrev pub reason_or_completed : TerminationReason → TerminationReason
reason_or_completed empty_termination = TerminationReason.completed
reason_or_completed reason = reason

-- `executionTermination` where there is no error.
unfoldable pub execution_termination : RunStatus → TerminationReason → RunStatus × TerminationReason
execution_termination empty_run_status reason = (RunStatus.succeeded, TerminationReason.completed)
execution_termination status reason = (status, reason_or_completed reason)

unfoldable pub is_channel_context_scope : String → Bool
is_channel_context_scope scope = trim scope == "channel" || trim scope == "channel-auto"

unfoldable pub is_optional_context_scope : String → Bool
is_optional_context_scope scope = trim scope == "channel-auto"

-- `strings.EqualFold(s, "chat")`: no letter of "chat" folds to one outside ASCII.
abbrev pub is_chat : String → Bool
is_chat s =
    let lower = map ascii_to_lower (codes s) in
    has_prefix lower (codes "chat") && has_prefix (codes "chat") lower

unfoldable pub should_fall_through_no_tool_plan : Request → Plan → Bool
should_fall_through_no_tool_plan request plan =
    not (is_some request.context_pack)
    || (is_optional_context_scope request.context_scope && is_chat (trim plan.intent))

abbrev pub planned_step_count : Plan → ℕ
planned_step_count plan = 2 + length plan.tool_calls

abbrev pub quoted_names : List ToolCall → String
quoted_names [] = ""
quoted_names (call ∷ []) = "`" ++ (trim call.name ++ "`")
quoted_names (call ∷ next ∷ rest) =
    ("`" ++ (trim call.name ++ "`")) ++ (", " ++ quoted_names (next ∷ rest))

unfoldable pub format_dry_run_plan : Plan → String
format_dry_run_plan plan =
    if is_nil plan.tool_calls
    then "Planned agent response. LLM tool routing is in `dry-run` mode."
    else "Planned agent tools: "
      ++ (quoted_names plan.tool_calls ++ ". LLM tool routing is in `dry-run` mode.")
