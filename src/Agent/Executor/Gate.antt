-- ===== src/Agent/Executor/Gate.antt =====
-- internal/agent/executor.go: what the quiet actions of the executor do to an invariant.
use gigi_dc.Prelude.{
  ℕ, String, refl, Bool, true, false, Option, none, some, Result, ok, err, is_empty, Option-cases,
  inl, inr, List, Error,
}
use gigi_dc.Prelude.Unicode.{Unicode}
use gigi_dc.Audit.{Metadata, Status}
use gigi_dc.Capability.{Capability}
use gigi_dc.Agent.{TraceEvent, Request, Response, Plan, ToolSpec, ToolCall, ToolResult}
use gigi_dc.Agent.Effects.{History, Act}
use gigi_dc.Agent.Effects.Keeps.{
  Keeps, IsStable, give-Keeps, ask-Keeps, if-Keeps, perform-Keeps, bind-Keeps,
}
use gigi_dc.Agent.Trace.{Trace, record_trace, record_sink, record_audit}
use gigi_dc.Agent.Tools.{Tool}
use gigi_dc.Agent.Policy.{
  RoutingPolicy, Verdict, check_capability, check_before_tool, check_before_plan, mode,
}
use gigi_dc.Agent.Executor.{
  Executor, Admission, trace_run_canceled, create_pending_confirmation, propose_write, decide,
  authorize, check_canceled, admit, LoopExit, left, finished,
}
use gigi_dc.Agent.Executor.Execute.{
  conclude_call, compose_answer, conclude_answer, skip_answer, answer_unless_canceled, after_calls,
}

ruleset rules = (give-Keeps, ask-Keeps, if-Keeps, perform-Keeps, bind-Keeps, refl)

module _ {P : History → Type 0} (stable : IsStable P) (u : Unicode) where
  record_audit-Keeps :
      (t : Trace) (request : Request) (kind : String) (status : Status) (reason : String)
      (m : Metadata)
      → Keeps P (record_audit u t request kind status reason m)
  unfolding record_audit
  record_audit-Keeps t request kind status reason m = search (rules, stable)

  record_sink-Keeps :
      (t : Trace) (sink : Option (History → TraceEvent → Option Error)) (request : Request)
      (kind : String) (status : Status) (reason : String) (m : Metadata)
      → Keeps P (record_sink u t sink request kind status reason m)
  unfolding record_sink
  record_sink-Keeps t none request kind status reason m =
      record_audit-Keeps t request kind status reason m
  record_sink-Keeps t (some sink) request kind status reason m =
      search (rules, stable, record_audit-Keeps)

  pub record_trace-Keeps :
      (t : Trace) (request : Request) (kind : String) (status : Status) (reason : String)
      (m : Metadata)
      → Keeps P (record_trace u t request kind status reason m)
  unfolding record_trace
  record_trace-Keeps t request kind status reason m = search (rules, stable, record_sink-Keeps)

  pub trace_run_canceled-Keeps : (t : Trace) → Keeps P (trace_run_canceled t)
  unfolding trace_run_canceled
  trace_run_canceled-Keeps t = elim (Option-cases t.store) [
    | inl n ↦ rw n (search rules)
    | inr (s, n) ↦ rw n (search (rules, stable))
  ]

  check_capability-Keeps :
      (p : RoutingPolicy) (request : Request) (c : Capability)
      → Keeps P (check_capability p request c)
  unfolding check_capability
  check_capability-Keeps p request c = elim (Option-cases p.checker) [
    | inl n ↦ rw n (search rules)
    | inr (s, n) ↦ rw n (search (rules, stable))
  ]

  pub check_before_tool-Keeps :
      (p : RoutingPolicy) (request : Request) (spec : ToolSpec)
      → Keeps P (check_before_tool p request spec)
  unfolding check_before_tool
  check_before_tool-Keeps p request spec = search (rules, check_capability-Keeps)

  pub check_before_plan-Keeps :
      (p : RoutingPolicy) (request : Request) → Keeps P (check_before_plan p request)
  unfolding check_before_plan
  check_before_plan-Keeps p request = search (rules, check_capability-Keeps)

  pub mode-Keeps : (p : RoutingPolicy) (guild : String) → Keeps P (mode p guild)
  unfolding mode
  mode-Keeps p guild = elim (Option-cases p.policy) [
    | inl n ↦ rw n (search rules)
    | inr (s, n) ↦ rw n (search (rules, stable))
  ]

  module _ (e : Executor) (request : Request) where
    create_pending_confirmation-Keeps :
        (t : Trace) (i : ℕ) (spec : ToolSpec) (call : ToolCall)
        → Keeps P (create_pending_confirmation u e request t i spec call)
    unfolding create_pending_confirmation
    create_pending_confirmation-Keeps t i spec call = elim (Option-cases t.store) [
      | inl n ↦ rw n (search rules)
      | inr (s, n) ↦ rw n (
          if-Keeps (is_empty t.run_id) _ _ (give-Keeps _)
            (record { at = λ h p. stable _ h refl p }))
    ]

    pub propose_write-Keeps :
        (t : Trace) (i : ℕ) (spec : ToolSpec) (call : ToolCall)
        → Keeps P (propose_write u e request t i spec call)
    unfolding propose_write
    propose_write-Keeps t i spec call =
        search (rules, stable, record_trace-Keeps, create_pending_confirmation-Keeps)

    decide-Keeps :
        (t : Trace) (tool : Tool) (spec : ToolSpec) (v : Verdict)
        → Keeps P (decide u e request t tool spec v)
    unfolding decide
    decide-Keeps t tool spec v = search (rules, stable, record_trace-Keeps)

    authorize-Keeps :
        (t : Trace) (i : ℕ) (tool : Tool) (spec : ToolSpec) (call : ToolCall)
        → Keeps P (authorize u e request t i tool spec call)
    unfolding authorize
    authorize-Keeps t i tool spec call =
        search (rules, propose_write-Keeps, check_before_tool-Keeps, decide-Keeps)

    check_canceled-Keeps :
        (t : Trace) (spec : ToolSpec) (r : Result Bool) (next : Act Admission)
        → Keeps P next
        → Keeps P (check_canceled u e request t spec r next)
    unfolding check_canceled
    check_canceled-Keeps t spec (err x) next k = search (rules, stable, record_trace-Keeps)
    check_canceled-Keeps t spec (ok true) next k = search rules
    check_canceled-Keeps t spec (ok false) next k = k

    pub admit-Keeps :
        (t : Trace) (i : ℕ) (call : ToolCall) (found : Result (Tool × ToolSpec))
        → Keeps P (admit u e request t i call found)
    unfolding admit
    admit-Keeps t i call (err x) = search (rules, stable, record_trace-Keeps)
    admit-Keeps t i call (ok (tool, spec)) =
        search (rules, trace_run_canceled-Keeps, check_canceled-Keeps, authorize-Keeps)

    pub conclude_call-Keeps :
        (t : Trace) (spec : ToolSpec) (call : ToolCall) (r : Result ToolResult)
        → Keeps P (conclude_call u e request t spec call r)
    unfolding conclude_call
    conclude_call-Keeps t spec call (err x) = search (rules, stable, record_trace-Keeps)
    conclude_call-Keeps t spec call (ok r) = search (rules, stable, record_trace-Keeps)

    conclude_answer-Keeps :
        (t : Trace) (plan : Plan) (rs : List ToolResult) (r : Result Response)
        → Keeps P (conclude_answer u e request t plan rs r)
    unfolding conclude_answer
    conclude_answer-Keeps t plan rs (err x) = search (rules, stable, record_trace-Keeps)
    conclude_answer-Keeps t plan rs (ok r) = search (rules, stable, record_trace-Keeps)

    compose_answer-Keeps :
        (a : Option (History → Request → Plan → List ToolResult → Result Response)) (t : Trace)
        (plan : Plan) (rs : List ToolResult)
        → Keeps P (compose_answer u e request a t plan rs)
    unfolding compose_answer skip_answer
    compose_answer-Keeps none t plan rs = search (rules, stable, record_trace-Keeps)
    compose_answer-Keeps (some a) t plan rs =
        search (rules, stable, record_trace-Keeps, conclude_answer-Keeps)

    answer_unless_canceled-Keeps :
        (t : Trace) (plan : Plan) (rs : List ToolResult) (r : Result Bool)
        → Keeps P (answer_unless_canceled u e request t plan rs r)
    unfolding answer_unless_canceled
    answer_unless_canceled-Keeps t plan rs (err x) = search (rules, stable, record_trace-Keeps)
    answer_unless_canceled-Keeps t plan rs (ok true) = search rules
    answer_unless_canceled-Keeps t plan rs (ok false) = compose_answer-Keeps e.answerer t plan rs

    pub after_calls-Keeps :
        (plan : Plan) (exit : LoopExit) → Keeps P (after_calls u e request plan exit)
    unfolding after_calls
    after_calls-Keeps plan (left r) = search rules
    after_calls-Keeps plan (finished rs) =
        search (rules, trace_run_canceled-Keeps, answer_unless_canceled-Keeps)
