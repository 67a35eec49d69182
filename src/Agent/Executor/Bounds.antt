-- ===== src/Agent/Executor/Bounds.antt =====
-- internal/agent/executor.go: what the loop over the calls does to an invariant, and how many
-- tools it runs.
use gigi_dc.Prelude.{ℕ, suc, ◌+◌, push, ◌≤◌, ◌≡◌, List, [], ◌∷◌, length, arith}
use gigi_dc.Prelude.Unicode.{Unicode}
use gigi_dc.Agent.{Request, Plan, ToolSpec, ToolCall, ToolResult}
use gigi_dc.Agent.Effects.{
  run_started, run_completed, step_recorded, cancel_checked, confirmation_created, sink_recorded,
  audit_recorded, policy_read, capability_checked, context_fetched, planned, tool_run, answered,
  follow_up_saved, History, Act, ask, tool_runs, starts, completions,
}
use gigi_dc.Agent.Effects.Keeps.{Keeps, IsStable, Leads, give-Leads, ask-Leads, bind-Leads_through}
use gigi_dc.Agent.Trace.{Trace, with_step}
use gigi_dc.Agent.Tools.{lookup_tool}
use gigi_dc.Agent.Executor.{
  Executor, Admission, halted, admitted, CallExit, stopped, done, LoopExit, left, finished, admit,
}
use gigi_dc.Agent.Executor.Execute.{
  run_admitted, conclude_call, execute_call, execute_calls, after_calls, execute, go_on,
}
use gigi_dc.Agent.Executor.Gate.{admit-Keeps, conclude_call-Keeps, after_calls-Keeps}

-- How many runs of tools, and the starts and ends of agent runs, a history may hold.
abbrev pub IsAtMost : ℕ → History → Type 0
IsAtMost n h = tool_runs h ≤ n

abbrev pub HasCounts : ℕ → ℕ → History → Type 0
HasCounts begun ended h = (starts h ≡ begun) × (completions h ≡ ended)

-- Any predicate of their number.
pub tool_runs-IsStable : (R : ℕ → Type 0) → IsStable (λ h. R (tool_runs h))
tool_runs-IsStable R (run_started x) h q p = p
tool_runs-IsStable R (run_completed a b c) h q p = p
tool_runs-IsStable R (step_recorded x) h q p = p
tool_runs-IsStable R (cancel_checked x) h q p = p
tool_runs-IsStable R (confirmation_created x) h q p = p
tool_runs-IsStable R (sink_recorded x) h q p = p
tool_runs-IsStable R (audit_recorded x) h q p = p
tool_runs-IsStable R (policy_read x) h q p = p
tool_runs-IsStable R (capability_checked a b) h q p = p
tool_runs-IsStable R (context_fetched x) h q p = p
tool_runs-IsStable R (planned a b) h q p = p
tool_runs-IsStable R (tool_run a b) h q p = ground arith
tool_runs-IsStable R (answered a b) h q p = p
tool_runs-IsStable R (follow_up_saved x) h q p = p

pub HasCounts-IsStable : (b e : ℕ) → IsStable (HasCounts b e)
HasCounts-IsStable n k (run_started x) h q p = ground arith
HasCounts-IsStable n k (run_completed a b c) h q p = ground arith
HasCounts-IsStable n k (step_recorded x) h q p = p
HasCounts-IsStable n k (cancel_checked x) h q p = p
HasCounts-IsStable n k (confirmation_created x) h q p = p
HasCounts-IsStable n k (sink_recorded x) h q p = p
HasCounts-IsStable n k (audit_recorded x) h q p = p
HasCounts-IsStable n k (policy_read x) h q p = p
HasCounts-IsStable n k (capability_checked a b) h q p = p
HasCounts-IsStable n k (context_fetched x) h q p = p
HasCounts-IsStable n k (planned a b) h q p = p
HasCounts-IsStable n k (tool_run a b) h q p = p
HasCounts-IsStable n k (answered a b) h q p = p
HasCounts-IsStable n k (follow_up_saved x) h q p = p

-- A family of predicates that no quiet effect and no larger number disturbs, and what one call does
-- to it, give what the loop does.
module _ {F : ℕ → History → Type 0} (stable : (n : ℕ) → IsStable (F n)) (u : Unicode) (e : Executor)
    (request : Request) where
  abbrev IsMonotone : Type 0
  IsMonotone = (n m : ℕ) → n ≤ m → (h : History) → F n h → F m h

  abbrev CallLeads : Type 0
  CallLeads =
      (n i : ℕ) (call : ToolCall)
      → Leads (F n) (λ exit. F (suc n)) (execute_call u e request i call)

  go_on-Leads :
      IsMonotone
      → (n m : ℕ) → n ≤ m
      → (next : List ToolResult → Act LoopExit) (rs : List ToolResult)
      → ((rs : List ToolResult) → Leads (F n) (λ exit. F m) (next rs))
      → (exit : CallExit) → Leads (F n) (λ last. F m) (go_on u e request next rs exit)
  go_on-Leads mono n m le next rs step (stopped r) = give-Leads (left r) (mono n m le)
  go_on-Leads mono n m le next rs step (done r) = step (push rs r)

  execute_calls-Leads :
      IsMonotone
      → CallLeads
      → (n m i : ℕ) (calls : List ToolCall) → n + length calls ≤ m
      → (rs : List ToolResult) → Leads (F n) (λ exit. F m) (execute_calls u e request i calls rs)
  unfolding execute_calls
  execute_calls-Leads mono each n m i [] le rs = give-Leads (finished rs) (mono n m (omega arith))
  execute_calls-Leads mono each n m i (call ∷ calls) le rs =
      bind-Leads_through (execute_call u e request i call) _ (each n i call) (
        go_on-Leads mono (suc n) m (omega arith) (execute_calls u e request (suc i) calls) rs
          (execute_calls-Leads mono each (suc n) m (suc i) calls (omega arith)))

  -- What must hold when a call is halted, and when its tool is about to run.
  abbrev pub Ready : ℕ → ToolCall → Admission → History → Type 0
  Ready n call (halted r) h = F (suc n) h
  Ready n call (admitted tool spec) h =
      F (suc n) (tool_run spec (record call { name = spec.name }) ∷ h)

  abbrev pub AdmitLeads : Type 0
  AdmitLeads =
      (n i : ℕ) (call : ToolCall) (t : Trace)
      → Leads (F n) (Ready n call) (admit u e request t i call (lookup_tool e.tools call.name))

  run_admitted-Leads :
      (n : ℕ) (t : Trace) (call : ToolCall) (a : Admission)
      → Leads (Ready n call a) (λ exit. F (suc n)) (run_admitted u e request t call a)
  unfolding run_admitted
  run_admitted-Leads n t call (halted r) = give-Leads (stopped r) (λ h p. p)
  run_admitted-Leads n t raw (admitted tool spec) =
      let call : ToolCall = record raw { name = spec.name } in
      bind-Leads_through {R = λ result. F (suc n)}
        (ask (tool_run spec call) (λ h. tool.execute h request call))
        (conclude_call u e request t spec call)
        (ask-Leads (tool_run spec call) (λ h. tool.execute h request call) (λ h p. p))
        (λ result. record {
          at = (conclude_call-Keeps (stable (suc n)) u e request t spec call result).at;
        })

  pub execute_call-Leads : AdmitLeads → CallLeads
  unfolding execute_call
  execute_call-Leads admits n i call =
      let t = with_step e.trace (e.trace_step_offset + i + 1) in
      bind-Leads_through (admit u e request t i call (lookup_tool e.tools call.name))
        (run_admitted u e request t call) (admits n i call t) (run_admitted-Leads n t call)

  pub execute-Leads :
      IsMonotone
      → AdmitLeads
      → (n : ℕ) (plan : Plan)
      → Leads (F n) (λ r. F (n + length plan.tool_calls)) (execute u e request plan)
  unfolding execute
  execute-Leads mono each n plan =
      bind-Leads_through (execute_calls u e request 0 plan.tool_calls [])
        (after_calls u e request plan)
        (execute_calls-Leads mono (execute_call-Leads each) n (n + length plan.tool_calls) 0
          plan.tool_calls (omega arith) [])
        (λ exit. record {
          at = (after_calls-Keeps (stable (n + length plan.tool_calls)) u e request plan exit).at;
        })

  -- Where neither a call nor the run of a tool needs more than the number.
  pub always-AdmitLeads :
      IsMonotone
      → ((n : ℕ) (spec : ToolSpec) (call : ToolCall) (h : History)
          → F n h
          → F (suc n) (tool_run spec call ∷ h))
      → AdmitLeads
  always-AdmitLeads mono runs n i call t = record {
    at = λ h p.
        ready ((admit u e request t i call (lookup_tool e.tools call.name) h).0) _
          ((admit-Keeps (stable n) u e request t i call (lookup_tool e.tools call.name)).at h p);
  }
    where
      ready : (a : Admission) (h : History) → F n h → Ready n call a h
      ready (halted r) h p = mono n (suc n) (omega arith) h p
      ready (admitted tool spec) h p = runs n spec _ h p

module _ (u : Unicode) (e : Executor) (request : Request) where
  -- A run of a plan uses at most as many tools as the plan has calls.
  pub tool_runs-execute :
      (n : ℕ) (plan : Plan)
      → Leads (IsAtMost n) (λ r. IsAtMost (n + length plan.tool_calls)) (execute u e request plan)
  tool_runs-execute n plan =
      execute-Leads {F = IsAtMost} (λ n. tool_runs-IsStable (λ k. k ≤ n)) u e request
        (λ n m le h p. omega arith)
        (always-AdmitLeads {F = IsAtMost} (λ n. tool_runs-IsStable (λ k. k ≤ n)) u e request
          (λ n m le h p. omega arith) (λ n spec call h p. omega arith))
        n plan

  -- It neither starts nor ends an agent's run.
  pub execute-HasCounts :
      (begun ended : ℕ) (plan : Plan) → Keeps (HasCounts begun ended) (execute u e request plan)
  execute-HasCounts begun ended plan = record {
    at =
        (execute-Leads {F = λ n. HasCounts begun ended} (λ n. HasCounts-IsStable begun ended) u e
          request (λ n m le h p. p)
          (always-AdmitLeads {F = λ n. HasCounts begun ended} (λ n. HasCounts-IsStable begun ended)
            u e request (λ n m le h p. p) (λ n spec call h p. p))
          0 plan).at;
  }
