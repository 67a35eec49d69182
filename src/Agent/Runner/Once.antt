-- ===== src/Agent/Runner/Once.antt =====
-- internal/agent/runner.go: the stored start and the stored end of a run.
use gigi_dc.Prelude.{
  ℕ, suc, String, ◌≡◌, refl, sym, ap, subst, Bool, true, false, Option, none, some, ◌∷◌, Error,
  Result, ok, err, is_some, arith,
}
use gigi_dc.Prelude.Unicode.{Unicode}
use gigi_dc.Agent.{Request, Response, Plan, RunStatus, TerminationReason}
use gigi_dc.Agent.Effects.{
  History, run_started, run_completed, cancel_checked, perform, give, ask, ◌>>=◌, starts,
  completions,
}
use gigi_dc.Agent.Effects.Keeps.{IsStable, Leads, ask-Keeps, bind-Leads}
use gigi_dc.Agent.Trace.{RunStore}
use gigi_dc.Agent.Policy.{ToolRoutingMode, subject_of}
use gigi_dc.Agent.Executor.Gate.{record_trace-Keeps, mode-Keeps}
use gigi_dc.Agent.Executor.Bounds.{HasCounts, HasCounts-IsStable, execute-HasCounts}
use gigi_dc.Agent.Runner.{Runner, Outcome, RunState, complete_run, prepare, is_ignored, run_id_of}
use gigi_dc.Agent.Runner.Planned.{run_plan}
use gigi_dc.Agent.Runner.Run.{run, start, after_start, after_cancel_check, route, run_record}
use gigi_dc.Agent.Runner.Paths.{Routed, after_mode-Leads}

-- The last effect ends the run `id` with the status and the reason that the caller is given, after
-- so many starts and ends of runs.
abbrev pub IsEnded : ℕ → ℕ → String → Outcome → History → Type 0
IsEnded begun ended id o (run_completed i status reason ∷ h) =
    HasCounts begun ended h
    × ((i ≡ id)
        × ((o.response.run_id ≡ id)
            × ((o.response.run_status ≡ status) × (o.response.termination_reason ≡ reason))))
IsEnded begun ended id o _ = ⊥

module _ (u : Unicode) (r : Runner) (stored : is_some r.run_store ≡ true)
    (plans : is_some r.planner ≡ true) (begun ended : ℕ) (id : String) where
  abbrev IsBegun : RunState → Type 0
  IsBegun s = (s.started ≡ true) × (s.run_id ≡ id)

  abbrev counts : IsStable (HasCounts begun ended)
  counts = HasCounts-IsStable begun ended

  complete_run-IsEnded :
      (s : RunState)
      → IsBegun s
      → (status : RunStatus) (reason : TerminationReason) (answer : Response) (handled : Bool)
      → Leads
          (HasCounts begun ended)
          (IsEnded begun ended id)
          (complete_run s r.run_store status reason answer handled)
  unfolding complete_run perform give ◌>>=◌
  complete_run-IsEnded s w status reason answer handled =
      rw (stored, w.0) (record { at = λ h p. (p, (w.1, (w.1, (refl, refl)))) })

  run_plan-IsEnded :
      (s : RunState)
      → IsBegun s
      → (request : Request) (m : ToolRoutingMode) (plan : Plan)
      → Leads (HasCounts begun ended) (IsEnded begun ended id) (run_plan u r s request m plan)
  unfolding run_plan
  run_plan-IsEnded s w request m plan =
      bind-Leads _ _ (record_trace-Keeps counts u s.trace request _ _ _ _) (λ x.
        bind-Leads _ _ (execute-HasCounts u s.executor request begun ended plan)
          (λ answer. complete_run-IsEnded s w _ _ answer true))

  route-IsEnded :
      (s : RunState)
      → IsBegun s
      → (request : Request)
      → Leads (HasCounts begun ended) (IsEnded begun ended id) (route u r s request)
  unfolding route
  route-IsEnded s w request = bind-Leads _ _ (mode-Keeps counts u r.policy request.guild_id) (λ m.
      after_mode-Leads (HasCounts begun ended) (IsEnded begun ended id) counts u r IsBegun
        (λ s w. w) (λ m. Unit) (subject_of request) complete_run-IsEnded
        (λ s w asked q m v o d plan x. run_plan-IsEnded s w asked m plan) plans s w request refl m
        (any m))
    where
      any : (m : Result ToolRoutingMode) → Routed (λ m. Unit) m
      any (ok m) = tt
      any (err x) = tt

  pub after_cancel_check-IsEnded :
      (s : RunState)
      → IsBegun s
      → (request : Request) (c : Result Bool)
      → Leads (HasCounts begun ended) (IsEnded begun ended id) (after_cancel_check u r s request c)
  unfolding after_cancel_check
  after_cancel_check-IsEnded s w request (err x) = complete_run-IsEnded s w _ _ _ _
  after_cancel_check-IsEnded s w request (ok true) = complete_run-IsEnded s w _ _ _ _
  after_cancel_check-IsEnded s w request (ok false) = route-IsEnded s w request

after_start-IsEnded :
    (u : Unicode) (r : Runner)
    → is_some r.run_store ≡ true
    → is_some r.planner ≡ true
    → (begun ended : ℕ) (store : RunStore) (s : RunState) (request : Request) (e : Option Error)
    → e ≡ none
    → Leads
        (HasCounts begun ended)
        (IsEnded begun ended s.run_id)
        (after_start u r store s request e)
unfolding after_start
after_start-IsEnded u r stored plans begun ended store s request none q =
    bind-Leads _ _ (ask-Keeps (HasCounts-IsStable begun ended) (cancel_checked s.run_id) _ refl)
      (λ c.
        after_cancel_check-IsEnded u r stored plans begun ended s.run_id
          (record s { started = true }) (refl, refl) request c)
after_start-IsEnded u r stored plans begun ended store s request (some e) q = ground (arith, q)

-- The guards passed, so there is a planner.
not_ignored :
    (r : Runner) (request : Request) → is_ignored r request ≡ false → is_some r.planner ≡ true
unfolding is_ignored
not_ignored r request heard = ground arith

start-IsEnded :
    (u : Unicode) (r : Runner) (store : RunStore) (s : RunState) (request : Request) (h : History)
    → is_some r.run_store ≡ true
    → is_some r.planner ≡ true
    → store.start_run h (run_record u r s request) ≡ none
    → IsEnded
        (suc (starts h))
        (completions h)
        s.run_id
        (start u r (some store) s request h).0
        (start u r (some store) s request h).1
unfolding start ask ◌>>=◌
start-IsEnded u r store s request h stored plans begun =
    (after_start-IsEnded u r stored plans (suc (starts h)) (completions h) store s request _
        begun).at
      (run_started (run_record u r s request) ∷ h) (refl, refl)

-- A request that passes the guards, in a runner with a run store that stores the start, ends with
-- the completion of that run: it is the last effect, its status and reason are the response's, and
-- before it the run has added one start and no completion.
pub run-IsEnded :
    (u : Unicode) (r : Runner) (store : RunStore) (request : Request) (h : History)
    → r.run_store ≡ some store
    → is_ignored r request ≡ false
    → store.start_run h (run_record u r (prepare r h) request) ≡ none
    → IsEnded
        (suc (starts h))
        (completions h)
        (run_id_of r h)
        (run u r request h).0
        (run u r request h).1
unfolding run prepare
run-IsEnded u r store request h stored heard begun = rw heard (
    subst
      (λ o.
        IsEnded (suc (starts h)) (completions h) (run_id_of r h)
          (start u r o (prepare r h) request h).0 (start u r o (prepare r h) request h).1)
      (sym stored)
      (start-IsEnded u r store (prepare r h) request h (ap is_some stored)
        (not_ignored r request heard) begun))
