-- ===== src/Agent/Executor/Execute.antt =====
-- internal/agent/executor.go: running an admitted call, the loop, and the answer.
use gigi_dc.Prelude.{
  ℕ, suc, ◌+◌, Bool, true, false, not, Option, none, some, List, [], ◌∷◌, Result, ok, err, is_empty,
  push, length, if◌then◌else◌,
}
use gigi_dc.Prelude.Unicode.{Unicode}
use gigi_dc.Audit
use gigi_dc.Audit.{Metadata}
use gigi_dc.Agent.{
  Request, Response, Plan, ToolSpec, ToolCall, ToolResult, RunStatus, TerminationReason,
  empty_run_status, empty_termination,
}
use gigi_dc.Agent.Effects.{
  answered, follow_up_saved, tool_run, History, Act, give, ask, perform, ◌>>=◌, ◌>>◌,
}
use gigi_dc.Agent.Trace.{Trace, with_step, record_trace}
use gigi_dc.Agent.Tools.{lookup_tool}
use gigi_dc.Agent.Executor.{
  Executor, Admission, halted, admitted, CallExit, stopped, done, LoopExit, left, finished, admit,
  response, failed_response, trace_run_canceled,
}
use gigi_dc.Agent.Executor.Metadata.{
  tool_failure_metadata, entry, call_metadata, merge, tool_call_metadata, tool_result_metadata,
}
use gigi_dc.Agent.Executor.FollowUp.{snapshot_of, format_tool_results}

module _ (u : Unicode) (e : Executor) (request : Request) where
  unfoldable pub conclude_call : Trace → ToolSpec → ToolCall → Result ToolResult → Act CallExit
  conclude_call t spec call (err x) = do
    record_trace u t request "agent.tool" Audit.failed "tool_failed" (
        merge (merge (call_metadata spec) (tool_call_metadata call.args))
          (tool_failure_metadata u e.errors spec.name x))
    give (stopped (failed_response "Agent tool failed."))
  conclude_call t spec call (ok result) = do
    record_trace u t request "agent.tool" Audit.succeeded "" (
        merge (merge (call_metadata spec) (tool_call_metadata call.args))
          (tool_result_metadata result))
    give (done result)

  -- The tool runs, under the name of its specification.
  unfoldable pub run_admitted : Trace → ToolCall → Admission → Act CallExit
  run_admitted t call (halted r) = give (stopped r)
  run_admitted t raw (admitted tool spec) = do
    let call : ToolCall = record raw { name = spec.name }
    result ← ask (tool_run spec call) (λ h. tool.execute h request call)
    conclude_call t spec call result

  unfoldable pub execute_call : ℕ → ToolCall → Act CallExit
  execute_call index call = do
    let t = with_step e.trace (e.trace_step_offset + index + 1)
    admission ← admit u e request t index call (lookup_tool e.tools call.name)
    run_admitted t call admission

  abbrev pub go_on : (List ToolResult → Act LoopExit) → List ToolResult → CallExit → Act LoopExit
  go_on next results (stopped r) = give (left r)
  go_on next results (done result) = next (push results result)

  unfoldable pub execute_calls : ℕ → List ToolCall → List ToolResult → Act LoopExit
  execute_calls index [] results = give (finished results)
  execute_calls index (call ∷ calls) results = do
    exit ← execute_call index call
    go_on (execute_calls (suc index) calls) results exit

  abbrev pub save_follow_up : Plan → List ToolResult → Response → Act (Unit {0})
  save_follow_up plan results r =
      if e.has_follow_ups
      then perform (follow_up_saved (snapshot_of e.trace.run_id request plan results r))
      else give tt

  abbrev pub intent_entry : Plan → Metadata
  intent_entry plan = entry "intent" plan.intent

  abbrev pub fallback_response : List ToolResult → Response
  fallback_response results =
      record (response (format_tool_results results) empty_run_status empty_termination) {
        trace = ("answer_mode", "fallback") ∷ ("fallback_reason", "no_answerer") ∷ [];
      }

  unfoldable pub conclude_answer : Trace → Plan → List ToolResult → Result Response → Act Response
  conclude_answer t plan results (err x) = do
    record_trace u t request "agent.answer" Audit.failed "answer_failed" (intent_entry plan)
    give (failed_response "Agent answer failed.")
  conclude_answer t plan results (ok r) = do
    record_trace u t request "agent.answer" Audit.succeeded "" (merge (intent_entry plan) r.trace)
    save_follow_up plan results r
    give r

  unfoldable pub skip_answer : Trace → Plan → List ToolResult → Act Response
  skip_answer t plan results = do
    let r =
        response (format_tool_results results) RunStatus.failed
          TerminationReason.llm_budget_exceeded
    record_trace u t request "agent.answer" Audit.failed e.skip_answer_reason (
        ("answer_mode", "fallback") ∷ ("fallback_reason", e.skip_answer_reason) ∷ intent_entry plan)
    save_follow_up plan results r
    give r

  unfoldable pub compose_answer :
      Option (History → Request → Plan → List ToolResult → Result Response)
      → Trace
      → Plan
      → List ToolResult
      → Act Response
  compose_answer none t plan results = do
    let r = fallback_response results
    record_trace u t request "agent.answer" Audit.succeeded "" (merge (intent_entry plan) r.trace)
    save_follow_up plan results r
    give r
  compose_answer (some answer) t plan results =
      if not (is_empty e.skip_answer_reason) then skip_answer t plan results else (do
        r ← ask (answered plan results) (λ h. answer h request plan results)
        conclude_answer t plan results r)

  unfoldable pub answer_unless_canceled :
      Trace → Plan → List ToolResult → Result Bool → Act Response
  answer_unless_canceled t plan results (err x) = do
    record_trace u t request "agent.answer" Audit.failed "cancel_check_failed" (intent_entry plan)
    give (failed_response "Agent run failed.")
  answer_unless_canceled t plan results (ok true) =
      give (response "Agent run was canceled." RunStatus.canceled TerminationReason.canceled)
  answer_unless_canceled t plan results (ok false) = compose_answer e.answerer t plan results

  unfoldable pub after_calls : Plan → LoopExit → Act Response
  after_calls plan (left r) = give r
  after_calls plan (finished results) = do
    let t = with_step e.trace (e.trace_step_offset + length plan.tool_calls + 1)
    canceled ← trace_run_canceled t
    answer_unless_canceled t plan results canceled

  -- `Executor.Execute`, which never returns an error.
  unfoldable pub execute : Plan → Act Response
  execute plan = do exit ← execute_calls 0 plan.tool_calls []; after_calls plan exit
