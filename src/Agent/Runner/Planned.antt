-- ===== src/Agent/Runner/Planned.antt =====
-- internal/agent/runner.go: what `Run` does with the planner's answer.
use gigi_dc.Prelude.{
  ◌+◌, String, Bool, true, false, ◌&&◌, not, ◌∷◌, Result, ok, err, is_blank, is_nil, is_some,
  length, ltb, if◌then◌else◌,
}
use gigi_dc.Prelude.Unicode.{Unicode}
use gigi_dc.Audit
use gigi_dc.Audit.{Metadata, Status}
use gigi_dc.Agent.{Request, Response, Plan, RunStatus, TerminationReason}
use gigi_dc.Agent.Effects.{Act, ◌>>=◌, ◌>>◌}
use gigi_dc.Agent.Trace.{record_trace}
use gigi_dc.Agent.Policy.{
  ToolRoutingMode, routing_off, routing_dry_run, routing_enabled, other_mode,
}
use gigi_dc.Agent.Executor.Metadata.{entry, merge, merge_into}
use gigi_dc.Agent.Executor.Execute.{execute}
use gigi_dc.Agent.Runner.{
  Runner, Outcome, RunState, no_response, complete_run, execution_termination, max_tool_calls,
  planned_step_count, should_fall_through_no_tool_plan, format_dry_run_plan,
}

abbrev pub mode_text : ToolRoutingMode → String
mode_text routing_off = "off"
mode_text routing_dry_run = "dry-run"
mode_text routing_enabled = "enabled"
mode_text (other_mode s) = s

abbrev pub plan_metadata : ToolRoutingMode → Metadata
plan_metadata m = entry "routing_mode" (mode_text m)

abbrev pub is_dry_run : ToolRoutingMode → Bool
is_dry_run routing_dry_run = true
is_dry_run _ = false

module _ (u : Unicode) (r : Runner) (s : RunState) (request : Request) where
  abbrev pub record_plan : Status → String → Metadata → Act (Unit {0})
  record_plan status reason metadata =
      record_trace u s.trace request "agent.plan" status reason metadata

  abbrev pub finish_run : RunStatus → TerminationReason → Response → Bool → Act Outcome
  finish_run status reason answer handled = complete_run s r.run_store status reason answer handled

  abbrev pub handled_text : RunStatus → TerminationReason → String → Act Outcome
  handled_text status reason text =
      finish_run status reason (record no_response { text = text }) true

  abbrev pub plan_entries : ToolRoutingMode → Plan → Metadata → Metadata
  plan_entries m plan last = merge_into (merge (plan_metadata m) plan.trace) last

  -- The plan is run.
  unfoldable pub run_plan : ToolRoutingMode → Plan → Act Outcome
  run_plan m plan = do
    record_plan Audit.succeeded ""
        (plan_entries m plan (("planner", "agent") ∷ entry "intent" plan.intent))
    answer ← execute u s.executor request plan
    let ending = execution_termination answer.run_status answer.termination_reason
    finish_run ending.0 ending.1 answer true

  abbrev pub exceeds_steps : Plan → Bool
  exceeds_steps plan =
      ltb 0 r.limits.max_steps
      && ltb r.limits.max_steps (planned_step_count plan + s.executor.trace_step_offset)

  abbrev pub exceeds_calls : Plan → Bool
  exceeds_calls plan =
      ltb 0 (max_tool_calls r.limits) && ltb (max_tool_calls r.limits) (length plan.tool_calls)

  -- The budgets of the run.
  unfoldable pub check_budgets : ToolRoutingMode → Plan → Act Outcome
  check_budgets m plan =
      if exceeds_steps plan
      then (do
        record_plan Audit.failed "step_budget_exceeded"
            (plan_entries m plan (entry "intent" plan.intent))
        handled_text RunStatus.failed TerminationReason.step_budget_exceeded
            "Agent step budget exceeded.")
      else if exceeds_calls plan
      then (do
        record_plan Audit.failed "tool_budget_exceeded"
            (plan_entries m plan (entry "intent" plan.intent))
        handled_text RunStatus.failed TerminationReason.tool_budget_exceeded
            "Agent tool budget exceeded.")
      else run_plan m plan

  abbrev pub falls_through : Plan → Bool
  falls_through plan =
      is_nil plan.tool_calls
      && not (is_some request.prior_run)
      && should_fall_through_no_tool_plan request plan

  unfoldable pub follow_plan : ToolRoutingMode → Plan → Act Outcome
  follow_plan m plan =
      if not (is_blank plan.clarifying_question)
      then (do
        record_plan Audit.succeeded "clarify" (plan_entries m plan (entry "intent" plan.intent))
        handled_text RunStatus.succeeded TerminationReason.clarify plan.clarifying_question)
      else if plan.requires_confirmation
      then (do
        record_plan Audit.succeeded "confirmation_required"
            (plan_entries m plan (entry "intent" plan.intent))
        handled_text RunStatus.confirmation_required TerminationReason.confirmation_required
            "I can plan that, but confirmation is required before running it.")
      else if falls_through plan
      then (do
        record_plan Audit.succeeded "no_tools"
            (plan_entries m plan (("planner", "agent") ∷ entry "intent" plan.intent))
        finish_run RunStatus.succeeded TerminationReason.ignored no_response false)
      else if is_dry_run m
      then (do
        record_plan Audit.succeeded "dry_run" (plan_entries m plan (entry "intent" plan.intent))
        handled_text RunStatus.dry_run TerminationReason.dry_run (format_dry_run_plan plan))
      else check_budgets m plan

  unfoldable pub after_plan : ToolRoutingMode → Result (Plan × Bool) → Act Outcome
  after_plan m (err x) = do
    record_plan Audit.failed "planner_failed" (plan_metadata m)
    handled_text RunStatus.failed TerminationReason.planner_failed "Agent routing failed."
  after_plan m (ok (plan, false)) = do
    record_plan Audit.succeeded "no_plan"
        (plan_entries m plan (("planner", "agent") ∷ entry "intent" plan.intent))
    finish_run RunStatus.succeeded TerminationReason.ignored no_response false
  after_plan m (ok (plan, true)) = follow_plan m plan
