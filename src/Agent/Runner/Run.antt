-- ===== src/Agent/Runner/Run.antt =====
-- internal/agent/runner.go: `Run` from its guards to the planner's call. The budgets of
-- `RunRecord` are the runner's.
use gigi_dc.Prelude.{
  String, Bool, true, false, ◌&&◌, not, Option, none, some, [], ◌∷◌, Error,
  context_permission_denied, failure, wrap, no_rows, Result, ok, err, is_empty, is_some, itoa,
  length, if◌then◌else◌,
}
use gigi_dc.Prelude.Unicode.{Unicode}
use gigi_dc.Audit
use gigi_dc.Audit.{Metadata, Status}
use gigi_dc.Capability.{Capability}
use gigi_dc.ContextBroker.{Pack}
use gigi_dc.Agent.{Request, RunRecord, RunStatus, TerminationReason}
use gigi_dc.Agent.Effects.{
  run_started, cancel_checked, context_fetched, planned, Act, give, ask, ◌>>=◌, ◌>>◌,
}
use gigi_dc.Agent.Trace.{RunStore, with_step, record_trace}
use gigi_dc.Agent.Tools.{specs}
use gigi_dc.Agent.Policy.{ToolRoutingMode, routing_off, Verdict, check_before_plan, mode}
use gigi_dc.Agent.Executor.Metadata.{merge, reason_text}
use gigi_dc.Agent.Runner.{
  Runner, Outcome, RunState, no_response, ignored_outcome, is_ignored, prepare, max_tool_calls,
  is_channel_context_scope, is_optional_context_scope,
}
use gigi_dc.Agent.Runner.Planned.{plan_metadata, after_plan, record_plan, handled_text, finish_run}

-- `errors.Is(err, ErrContextPermissionDenied)`.
unfoldable pub is_permission_denied : Error → Bool
is_permission_denied (failure text) = false
is_permission_denied (wrap text e) = is_permission_denied e
is_permission_denied no_rows = false
is_permission_denied context_permission_denied = true

abbrev pub context_failure_status : Error → Status
context_failure_status e = if is_permission_denied e then Audit.denied else Audit.failed

abbrev pub context_failure_reason : Error → String
context_failure_reason e =
    if is_permission_denied e then "permission_denied" else "context_fetch_failed"

abbrev bool_text : Bool → String
bool_text true = "true"
bool_text false = "false"

abbrev pub context_metadata : Pack → Metadata
context_metadata pack =
    ("scope", "channel")
    ∷ ("source", "memory.current_channel")
    ∷ ("snippets", itoa (length pack.snippets))
    ∷ ("chars", itoa pack.chars)
    ∷ ("truncated", bool_text pack.truncated)
    ∷ ("capability", "memory.read.guild")
    ∷ []

abbrev pub capability_metadata : Capability → Metadata
capability_metadata required = if is_empty required then [] else ("capability", required) ∷ []

module _ (u : Unicode) (r : Runner) where
  unfoldable pub run_record : RunState → Request → RunRecord
  run_record s request = record {
    id = s.run_id;
    guild_id = request.guild_id;
    channel_id = request.channel_id;
    actor_user_id = request.actor_user_id;
    surface = request.surface;
    context_scope = request.context_scope;
    status = RunStatus.running;
    max_steps = r.limits.max_steps;
    max_tool_calls = max_tool_calls r.limits;
    max_llm_calls = r.limits.budget.max_llm_calls;
    max_input_tokens = r.limits.budget.max_input_tokens;
    max_output_tokens = r.limits.budget.max_output_tokens;
  }

  -- `Plan` is a call of the planner, which `is_ignored` has found.
  unfoldable pub call_planner : RunState → Request → ToolRoutingMode → Act Outcome
  call_planner s request m = elim r.planner [
    | none ↦ give ignored_outcome
    | some plan ↦ (do
      answer ←
          ask (planned request (specs s.executor.tools))
            (λ h. plan h request (specs s.executor.tools))
      after_plan u r s request m answer)
  ]

  abbrev pub offset_state : RunState → RunState
  offset_state s = record s { executor = record s.executor { trace_step_offset = 1 } }

  unfoldable pub after_fetch :
      RunState → Request → ToolRoutingMode → Pack × Option Error → Act Outcome
  after_fetch s request m (pack, none) = do
    record_trace u (with_step s.trace 1) (record request { context_pack = some pack })
        "agent.context" Audit.succeeded "" (context_metadata pack)
    call_planner (offset_state s) (record request { context_pack = some pack }) m
  after_fetch s request m (pack, some e) =
      if is_optional_context_scope request.context_scope
      then (do
        record_trace u (with_step s.trace 1) request "agent.context" (context_failure_status e)
            (context_failure_reason e) (context_metadata pack)
        call_planner (offset_state s) request m)
      else if is_permission_denied e
      then (do
        record_trace u (with_step s.trace 1) request "agent.context" Audit.denied
            "permission_denied" (context_metadata pack)
        handled_text u r s request RunStatus.denied TerminationReason.permission_denied
            "Permission denied for agent context.")
      else (do
        record_trace u (with_step s.trace 1) request "agent.context" Audit.failed
            "context_fetch_failed" (context_metadata pack)
        handled_text u r s request RunStatus.failed TerminationReason.executor_failed
            "Agent context fetch failed.")

  abbrev pub wants_context : Request → Bool
  wants_context request =
      is_channel_context_scope request.context_scope && not (is_some request.context_pack)

  unfoldable pub fetch_context : RunState → Request → ToolRoutingMode → Act Outcome
  fetch_context s request m = elim r.context_fetcher [
    | none ↦ call_planner s request m
    | some fetch ↦
        if wants_context request
        then (do
          fetched ← ask (context_fetched request) (λ h. fetch h request)
          after_fetch s request m fetched)
        else call_planner s request m
  ]

  unfoldable pub after_verdict : RunState → Request → ToolRoutingMode → Verdict → Act Outcome
  after_verdict s request m verdict =
      if is_some verdict.1
      then (do
        record_plan u r s request Audit.failed (reason_text verdict.0.reason)
            (merge (plan_metadata m) (capability_metadata r.policy.required_before_plan))
        handled_text u r s request RunStatus.failed TerminationReason.permission_check_failed
            "Permission check failed.")
      else if not verdict.0.allowed
      then (do
        record_plan u r s request Audit.denied (reason_text verdict.0.reason)
            (merge (plan_metadata m) (capability_metadata r.policy.required_before_plan))
        handled_text u r s request RunStatus.denied TerminationReason.permission_denied
            "Permission denied for agent tools.")
      else fetch_context s request m

  unfoldable pub after_mode : RunState → Request → Result ToolRoutingMode → Act Outcome
  after_mode s request (err x) = do
    record_plan u r s request Audit.failed "routing_policy_failed" []
    handled_text u r s request RunStatus.failed TerminationReason.routing_policy_failed
        "Agent routing failed."
  after_mode s request (ok routing_off) =
      finish_run u r s request RunStatus.succeeded TerminationReason.routing_off no_response false
  after_mode s request (ok m) = do
    verdict ← check_before_plan r.policy request
    after_verdict s request m verdict

  unfoldable pub route : RunState → Request → Act Outcome
  route s request = do m ← mode r.policy request.guild_id; after_mode s request m

  unfoldable pub after_cancel_check : RunState → Request → Result Bool → Act Outcome
  after_cancel_check s request (err x) =
      handled_text u r s request RunStatus.failed TerminationReason.canceled "Agent run failed."
  after_cancel_check s request (ok true) =
      handled_text u r s request RunStatus.canceled TerminationReason.canceled
        "Agent run was canceled."
  after_cancel_check s request (ok false) = route s request

  unfoldable pub after_start : RunStore → RunState → Request → Option Error → Act Outcome
  after_start store s request (some e) =
      give (record { response = record no_response { text = "Agent run failed." }; handled = true })
  after_start store s request none = do
    let begun : RunState = record s { started = true }
    canceled ← ask (cancel_checked s.run_id) (λ h. store.is_run_canceled h s.run_id)
    after_cancel_check begun request canceled

  -- The run is written down, where there is a store, before anything else happens.
  unfoldable pub start : Option RunStore → RunState → Request → Act Outcome
  start none s request = route s request
  start (some store) s request = do
    error ← ask (run_started (run_record s request)) (λ h. store.start_run h (run_record s request))
    after_start store s request error

  -- `Run`.
  unfoldable pub run : Request → Act Outcome
  run request h =
      if is_ignored r request
      then (ignored_outcome, h)
      else start r.run_store (prepare r h) request h
