-- ===== src/Agent/Runner/Safe.antt =====
-- internal/agent/runner.go: what may run, how often, and in which mode.
use gigi_dc.Prelude.{
  ◌+◌, ◌≤◌, ◌≡◌, refl, subst, Bool, true, false, ◌||◌, Result, ok, err, length, arith,
}
use gigi_dc.Prelude.Unicode.{Unicode}
use gigi_dc.Agent.{Request, Plan}
use gigi_dc.Agent.Effects.{History, tool_runs}
use gigi_dc.Agent.Effects.Keeps.{Keeps, IsStable}
use gigi_dc.Agent.Policy.{ToolRoutingMode, subject_of, mode}
use gigi_dc.Agent.Executor.{Executor}
use gigi_dc.Agent.Executor.Execute.{execute}
use gigi_dc.Agent.Executor.Bounds.{IsAtMost, tool_runs-IsStable, tool_runs-execute}
use gigi_dc.Agent.Executor.Authorized.{IsAuthorized, IsAuthorized-IsStable, execute-IsAuthorized}
use gigi_dc.Agent.Runner.{Runner, RunState, max_tool_calls}
use gigi_dc.Agent.Runner.Planned.{exceeds_calls, is_dry_run}
use gigi_dc.Agent.Runner.Run.{run}
use gigi_dc.Agent.Runner.Paths.{Routed, is_off}
use gigi_dc.Agent.Runner.Invariants.{run-Leads, run_plan-Leads}

-- A mode in which no tool may run.
abbrev pub is_harmless : ToolRoutingMode → Bool
is_harmless m = is_off m || is_dry_run m

abbrev pub IsHarmless : ToolRoutingMode → Type 0
IsHarmless m = is_harmless m ≡ true

unconditional : (m : Result ToolRoutingMode) → Routed (λ m. Unit) m
unconditional (ok m) = tt
unconditional (err x) = tt

module _ (u : Unicode) (r : Runner) (request : Request) where
  within :
      (s : RunState) (asked : Request) (plan : Plan)
      → exceeds_calls u r s asked plan ≡ false
      → length plan.tool_calls ≤ max_tool_calls r.limits
  unfolding max_tool_calls
  within s asked plan x = ground arith

  abbrev Safe : History → Type 0
  Safe = IsAuthorized r.executor.tools r.executor.policy.checker (subject_of request)

  abbrev safe : IsStable Safe
  safe = IsAuthorized-IsStable r.executor.tools r.executor.policy.checker (subject_of request)

  execute-Safe :
      (e : Executor)
      → e.tools ≡ r.executor.tools
      → e.policy ≡ r.executor.policy
      → (asked : Request) → subject_of asked ≡ subject_of request
      → (plan : Plan) → Keeps Safe (execute u e asked plan)
  execute-Safe e a b asked q plan =
      subst
        (λ c.
          Keeps (IsAuthorized r.executor.tools c.checker (subject_of request))
            (execute u e asked plan))
        b
        (subst
          (λ c.
            Keeps (IsAuthorized c e.policy.checker (subject_of request)) (execute u e asked plan))
          a
          (subst (λ c. Keeps (IsAuthorized e.tools e.policy.checker c) (execute u e asked plan)) q
            (execute-IsAuthorized u e asked plan)))

  -- Every tool that `Run` runs is registered, does not write, and, where it names a capability,
  -- runs right after the checker allowed that capability to the subject of the request, if this
  -- held of the history before.
  pub run-IsAuthorized :
      (h : History)
      → IsAuthorized r.executor.tools r.executor.policy.checker (subject_of request) h
      → IsAuthorized r.executor.tools r.executor.policy.checker
          (subject_of request)
          (run u r request h).1
  run-IsAuthorized =
      run-Leads Safe Safe safe (λ h p. p) u r (λ m. Unit) request (λ x h p. p) (λ i a b h p. p)
        (λ s w asked q m v o d plan x.
          run_plan-Leads Safe (λ i a b h p. p) r Safe safe u s asked m plan
            (record { at = (execute-Safe s.executor w.0 w.1 asked q plan).at }))
        (λ h. unconditional (mode r.policy request.guild_id h).0)

  -- `Run` adds at most `maxToolCalls` runs of tools to any history.
  pub run-IsAtMost :
      (h : History) → tool_runs (run u r request h).1 ≤ tool_runs h + max_tool_calls r.limits
  run-IsAtMost h =
      run-Leads (IsAtMost (tool_runs h)) (IsAtMost (tool_runs h + max_tool_calls r.limits))
        (tool_runs-IsStable (λ k. k ≤ tool_runs h)) (λ h p. omega arith) u r (λ m. Unit) request
        (λ x h p. p) (λ i a b h p. p)
        (λ s w asked q m v o d plan x.
          run_plan-Leads (IsAtMost (tool_runs h + max_tool_calls r.limits)) (λ i a b h p. p) r
            (IsAtMost (tool_runs h)) (tool_runs-IsStable (λ k. k ≤ tool_runs h)) u s asked m plan
            (record {
              at = λ g p.
                  at_most g asked s plan (within s asked plan x)
                    ((tool_runs-execute u s.executor asked (tool_runs h) plan).at g p);
            }))
        (λ h. unconditional (mode r.policy request.guild_id h).0) h (omega arith)
    where
      at_most :
          (g : History) (asked : Request) (s : RunState) (plan : Plan)
          → length plan.tool_calls ≤ max_tool_calls r.limits
          → tool_runs (execute u s.executor asked plan g).1 ≤ tool_runs h + length plan.tool_calls
          → tool_runs (execute u s.executor asked plan g).1 ≤ tool_runs h + max_tool_calls r.limits
      at_most g asked s plan a b = omega arith

  -- Where the routing policy answers off or dry run, or fails, at every time, `Run` runs no tool.
  pub run_without_tools :
      ((h : History) → Routed IsHarmless (mode r.policy request.guild_id h).0)
      → (h : History) → tool_runs (run u r request h).1 ≡ tool_runs h
  run_without_tools routed h =
      run-Leads (λ g. tool_runs g ≡ tool_runs h) (λ g. tool_runs g ≡ tool_runs h)
        (tool_runs-IsStable (λ k. k ≡ tool_runs h)) (λ h p. p) u r IsHarmless request (λ x h p. p)
        (λ i a b h p. p) (λ s w asked q m v o d plan x. ground (arith, v, o, d)) routed h refl
