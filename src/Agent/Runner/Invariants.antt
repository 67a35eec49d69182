-- ===== src/Agent/Runner/Invariants.antt =====
-- internal/agent/runner.go: invariants of the history, from a run of a plan to `Run`.
use gigi_dc.Prelude.{
  ◌&&◌, ◌∷◌, Error, String, ◌≡◌, refl, Bool, true, false, Option, none, some, Result, ok, err,
  is_some, inl, inr, Bool-cases, arith,
}
use gigi_dc.Prelude.Unicode.{Unicode}
use gigi_dc.Agent.{RunRecord, Request, Response, Plan, RunStatus, TerminationReason}
use gigi_dc.Agent.Effects.{History, run_started, run_completed, cancel_checked, perform, ◌>>=◌}
use gigi_dc.Agent.Effects.Keeps.{
  IsStable, Leads, ask-Keeps, ask-Leads, give-Leads, bind-Leads, bind-Leads_through, if-Leads_cases,
}
use gigi_dc.Agent.Trace.{RunStore}
use gigi_dc.Agent.Policy.{ToolRoutingMode, subject_of, mode}
use gigi_dc.Agent.Executor.Execute.{execute}
use gigi_dc.Agent.Executor.Gate.{record_trace-Keeps, mode-Keeps}
use gigi_dc.Agent.Runner.{Runner, RunState, complete_run, prepare, is_ignored}
use gigi_dc.Agent.Runner.Planned.{run_plan}
use gigi_dc.Agent.Runner.Run.{run, start, after_start, after_cancel_check, route}
use gigi_dc.Agent.Runner.Paths.{Executes, Routed, after_mode-Leads}

-- What the end of a run does not disturb.
module _ (Q : History → Type 0)
    (ends : (i : String) (a : RunStatus) (b : TerminationReason) (h : History)
      → Q h
      → Q (run_completed i a b ∷ h))
    (r : Runner) where
  pub complete_run-Leads :
      (R : History → Type 0)
      → ((h : History) → R h → Q h)
      → (s : RunState) (status : RunStatus) (reason : TerminationReason) (answer : Response)
        (handled : Bool)
      → Leads R (λ o. Q) (complete_run s r.run_store status reason answer handled)
  unfolding complete_run perform
  complete_run-Leads R k s status reason answer handled =
      bind-Leads_through {R = λ x. Q} _ _
        (if-Leads_cases (s.started && is_some r.run_store) _ _
          (λ b. record { at = λ h p. ends s.run_id status reason h (k h p) })
          (λ b. give-Leads tt k))
        (λ x. give-Leads _ (λ h p. p))

  -- The run of a plan does to the history what its execution does.
  pub run_plan-Leads :
      (P : History → Type 0)
      → IsStable P
      → (u : Unicode) (s : RunState) (request : Request) (m : ToolRoutingMode) (plan : Plan)
      → Leads P (λ x. Q) (execute u s.executor request plan)
      → Leads P (λ o. Q) (run_plan u r s request m plan)
  unfolding run_plan
  run_plan-Leads P stable u s request m plan l =
      bind-Leads _ _ (record_trace-Keeps stable u s.trace request _ _ _ _) (λ x.
        bind-Leads_through {R = λ x. Q} _ _ l
          (λ answer. complete_run-Leads Q (λ h q. q) s _ _ answer true))

-- An invariant that the start of a run does not disturb, nor its end what follows from it.
module _ (P Q : History → Type 0) (stable : IsStable P) (weaken : (h : History) → P h → Q h)
    (u : Unicode) (r : Runner) (V : ToolRoutingMode → Type 0) (request : Request) where
  abbrev pub SameTools : RunState → Type 0
  SameTools s = (s.executor.tools ≡ r.executor.tools) × (s.executor.policy ≡ r.executor.policy)

  abbrev pub Runs : Type 0
  Runs = Executes P (λ o. Q) stable u r SameTools (λ s w. w) V (subject_of request)

  module _ (begins : (x : RunRecord) (h : History) → P h → P (run_started x ∷ h))
      (ends : (i : String) (a : RunStatus) (b : TerminationReason) (h : History)
        → Q h
        → Q (run_completed i a b ∷ h)) where
    module _ (runs : Runs) (plans : is_some r.planner ≡ true)
        (routed : (h : History) → Routed V (mode r.policy request.guild_id h).0) where
      route-Leads : (s : RunState) → SameTools s → Leads P (λ o. Q) (route u r s request)
      unfolding route ◌>>=◌
      route-Leads s w = record {
        at = λ h p.
            (after_mode-Leads P (λ o. Q) stable u r SameTools (λ s w. w) V (subject_of request)
                (λ s w. complete_run-Leads Q ends r P weaken s) runs plans s w request refl
                (mode r.policy request.guild_id h).0 (routed h)).at
              _ ((mode-Keeps stable u r.policy request.guild_id).at h p);
      }

      after_cancel_check-Leads :
          (s : RunState)
          → SameTools s
          → (c : Result Bool) → Leads P (λ o. Q) (after_cancel_check u r s request c)
      unfolding after_cancel_check
      after_cancel_check-Leads s w (err x) = complete_run-Leads Q ends r P weaken s _ _ _ _
      after_cancel_check-Leads s w (ok true) = complete_run-Leads Q ends r P weaken s _ _ _ _
      after_cancel_check-Leads s w (ok false) = route-Leads s w

      after_start-Leads :
          (store : RunStore) (s : RunState)
          → SameTools s
          → (e : Option Error) → Leads P (λ o. Q) (after_start u r store s request e)
      unfolding after_start
      after_start-Leads store s w (some e) = give-Leads _ weaken
      after_start-Leads store s w none =
          bind-Leads _ _ (ask-Keeps stable (cancel_checked s.run_id) _ refl)
            (after_cancel_check-Leads _ w)

      start-Leads :
          (store : Option RunStore) (s : RunState)
          → SameTools s
          → Leads P (λ o. Q) (start u r store s request)
      unfolding start
      start-Leads none s w = route-Leads s w
      start-Leads (some store) s w =
          bind-Leads_through {R = λ x. P} _ _ (ask-Leads (run_started _) _ (λ h p. begins _ h p))
            (after_start-Leads store s w)

module _ (P Q : History → Type 0) (stable : IsStable P) (weaken : (h : History) → P h → Q h)
    (u : Unicode) (r : Runner) (V : ToolRoutingMode → Type 0) (request : Request)
    (begins : (x : RunRecord) (h : History) → P h → P (run_started x ∷ h))
    (ends : (i : String) (a : RunStatus) (b : TerminationReason) (h : History)
      → Q h
      → Q (run_completed i a b ∷ h))
    (runs : Runs P Q stable weaken u r V request)
    (routed : (h : History) → Routed V (mode r.policy request.guild_id h).0) where
  pub run-Leads : (h : History) → P h → Q (run u r request h).1
  unfolding run prepare is_ignored
  run-Leads h p = elim (Bool-cases (is_ignored r request)) [
    | inl b ↦ rw b (weaken h p)
    | inr b ↦ rw b (
        (start-Leads P Q stable weaken u r V request begins ends runs (ground arith) routed
            r.run_store (prepare r h) (refl, refl)).at
          h p)
  ]
