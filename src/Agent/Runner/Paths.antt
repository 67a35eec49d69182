-- ===== src/Agent/Runner/Paths.antt =====
-- internal/agent/runner.go: the paths of `Run`, from the routing mode to `completeRun` or the run of
-- a plan.
use gigi_dc.Prelude.{
  String, inl, inr, ◌≡◌, refl, Bool, true, false, not, Option, none, some, Error, Result, ok, err,
  is_blank, is_some, Option-cases, arith,
}
use gigi_dc.Prelude.Unicode.{Unicode}
use gigi_dc.Audit.{Metadata, Status}
use gigi_dc.Capability.{Subject}
use gigi_dc.ContextBroker.{Pack}
use gigi_dc.Agent.{Request, Response, Plan, RunStatus, TerminationReason}
use gigi_dc.Agent.Effects.{History, Act, context_fetched, planned, ask, ◌>>=◌}
use gigi_dc.Agent.Effects.Keeps.{IsStable, Leads, ask-Keeps, bind-Leads, if-Leads_cases}
use gigi_dc.Agent.Trace.{Trace, record_trace}
use gigi_dc.Agent.Policy.{
  ToolRoutingMode, routing_off, routing_dry_run, routing_enabled, other_mode, subject_of,
  check_before_plan,
}
use gigi_dc.Agent.Executor.Gate.{record_trace-Keeps, check_before_plan-Keeps}
use gigi_dc.Agent.Runner.{Runner, Outcome, RunState, complete_run, is_optional_context_scope}
use gigi_dc.Agent.Runner.Planned.{
  is_dry_run, exceeds_calls, exceeds_steps, falls_through, run_plan, check_budgets, follow_plan,
  after_plan,
}
use gigi_dc.Agent.Runner.Run.{
  offset_state, wants_context, is_permission_denied, call_planner, after_fetch, fetch_context,
  after_verdict, after_mode,
}

abbrev pub is_off : ToolRoutingMode → Bool
is_off routing_off = true
is_off _ = false

-- What is known of the answer of the routing policy, where `V` is known of a mode.
abbrev pub Routed : (ToolRoutingMode → Type 0) → Result ToolRoutingMode → Type 0
Routed V (err x) = Unit
Routed V (ok m) = V m

-- `W` is what is known of the run's values, `V` of the routing mode.
module _ (P : History → Type 0) (Q : Outcome → History → Type 0) (stable : IsStable P) (u : Unicode)
    (r : Runner) (W : RunState → Type 0) (offset : (s : RunState) → W s → W (offset_state u r s))
    (V : ToolRoutingMode → Type 0) (subject : Subject) where
  abbrev pub Completes : Type 0
  Completes =
      (s : RunState)
      → W s
      → (status : RunStatus) (reason : TerminationReason) (answer : Response) (handled : Bool)
      → Leads P Q (complete_run s r.run_store status reason answer handled)

  abbrev pub Executes : Type 0
  Executes =
      (s : RunState)
      → W s
      → (request : Request) → subject_of request ≡ subject
      → (m : ToolRoutingMode) → V m
      → is_off m ≡ false
      → is_dry_run m ≡ false
      → (plan : Plan) → exceeds_calls u r s request plan ≡ false
      → Leads P Q (run_plan u r s request m plan)

  noted :
      (t : Trace) (request : Request) (kind : String) (status : Status) (reason : String)
      (m : Metadata) {k : Act Outcome}
      → Leads P Q k
      → Leads P Q (record_trace u t request kind status reason m >>= λ _. k)
  noted t request kind status reason m l =
      bind-Leads _ _ (record_trace-Keeps stable u t request kind status reason m) (λ x. l)

  module _ (finish : Completes) (executes : Executes) where
    check_budgets-Leads :
        (s : RunState)
        → W s
        → (request : Request) → subject_of request ≡ subject
        → (m : ToolRoutingMode) → V m
        → is_off m ≡ false
        → is_dry_run m ≡ false
        → (plan : Plan) → Leads P Q (check_budgets u r s request m plan)
    unfolding check_budgets
    check_budgets-Leads s w request q m v o d plan =
        if-Leads_cases (exceeds_steps u r s request plan) _ _
          (λ b. noted _ _ _ _ _ _ (finish s w _ _ _ _))
          (λ b.
            if-Leads_cases (exceeds_calls u r s request plan) _ _
              (λ c. noted _ _ _ _ _ _ (finish s w _ _ _ _)) (executes s w request q m v o d plan))

    follow_plan-Leads :
        (s : RunState)
        → W s
        → (request : Request) → subject_of request ≡ subject
        → (m : ToolRoutingMode) → V m
        → is_off m ≡ false
        → (plan : Plan) → Leads P Q (follow_plan u r s request m plan)
    unfolding follow_plan
    follow_plan-Leads s w request q m v o plan =
        if-Leads_cases (not (is_blank plan.clarifying_question)) _ _
          (λ b. noted _ _ _ _ _ _ (finish s w _ _ _ _))
          (λ b.
            if-Leads_cases plan.requires_confirmation _ _
              (λ c. noted _ _ _ _ _ _ (finish s w _ _ _ _))
              (λ c.
                if-Leads_cases (falls_through u r s request plan) _ _
                  (λ f. noted _ _ _ _ _ _ (finish s w _ _ _ _))
                  (λ f.
                    if-Leads_cases (is_dry_run m) _ _ (λ d. noted _ _ _ _ _ _ (finish s w _ _ _ _))
                      (λ d. check_budgets-Leads s w request q m v o d plan))))

    after_plan-Leads :
        (s : RunState)
        → W s
        → (request : Request) → subject_of request ≡ subject
        → (m : ToolRoutingMode) → V m
        → is_off m ≡ false
        → (answer : Result (Plan × Bool)) → Leads P Q (after_plan u r s request m answer)
    unfolding after_plan
    after_plan-Leads s w request q m v o (err x) = noted _ _ _ _ _ _ (finish s w _ _ _ _)
    after_plan-Leads s w request q m v o (ok (plan, false)) = noted _ _ _ _ _ _ (finish s w _ _ _ _)
    after_plan-Leads s w request q m v o (ok (plan, true)) =
        follow_plan-Leads s w request q m v o plan

    module _ (plans : is_some r.planner ≡ true) where
      call_planner-Leads :
          (s : RunState)
          → W s
          → (request : Request) → subject_of request ≡ subject
          → (m : ToolRoutingMode) → V m
          → is_off m ≡ false
          → Leads P Q (call_planner u r s request m)
      unfolding call_planner after_plan follow_plan check_budgets run_plan
      call_planner-Leads s w request q m v o = elim (Option-cases r.planner) [
        | inl n ↦ ground (arith, n, plans)
        | inr (plan, n) ↦ rw n (
            bind-Leads (ask _ _) _ (ask-Keeps stable (planned request _) _ refl)
              (after_plan-Leads s w request q m v o))
      ]

      after_fetch-Leads :
          (s : RunState)
          → W s
          → (request : Request) → subject_of request ≡ subject
          → (m : ToolRoutingMode) → V m
          → is_off m ≡ false
          → (fetched : Pack × Option Error) → Leads P Q (after_fetch u r s request m fetched)
      unfolding after_fetch
      after_fetch-Leads s w request q m v o (pack, none) = noted _ _ _ _ _ _ (
          call_planner-Leads (offset_state u r s) (offset s w)
            (record request { context_pack = some pack }) q m v o)
      after_fetch-Leads s w request q m v o (pack, some e) =
          if-Leads_cases (is_optional_context_scope request.context_scope) _ _
            (λ b.
              noted _ _ _ _ _ _
                (call_planner-Leads (offset_state u r s) (offset s w) request q m v o))
            (λ b.
              if-Leads_cases (is_permission_denied e) _ _
                (λ d. noted _ _ _ _ _ _ (finish s w _ _ _ _))
                (λ d. noted _ _ _ _ _ _ (finish s w _ _ _ _)))

      fetch_context-Leads :
          (s : RunState)
          → W s
          → (request : Request) → subject_of request ≡ subject
          → (m : ToolRoutingMode) → V m
          → is_off m ≡ false
          → Leads P Q (fetch_context u r s request m)
      unfolding fetch_context call_planner after_plan follow_plan check_budgets run_plan after_fetch
      fetch_context-Leads s w request q m v o = elim (Option-cases r.context_fetcher) [
        | inl n ↦ rw n (call_planner-Leads s w request q m v o)
        | inr (fetch, n) ↦ rw n (
            if-Leads_cases (wants_context u r request) _ _
              (λ b.
                bind-Leads (ask _ _) _ (ask-Keeps stable (context_fetched request) _ refl)
                  (after_fetch-Leads s w request q m v o))
              (λ b. call_planner-Leads s w request q m v o))
      ]

      checked-Leads :
          (s : RunState)
          → W s
          → (request : Request) → subject_of request ≡ subject
          → (m : ToolRoutingMode) → V m
          → is_off m ≡ false
          → Leads P Q (do
            verdict ← check_before_plan r.policy request
            after_verdict u r s request m verdict)
      unfolding after_verdict
      checked-Leads s w request q m v o =
          bind-Leads (check_before_plan r.policy request) _
            (check_before_plan-Keeps stable u r.policy request)
            (λ verdict.
              if-Leads_cases (is_some verdict.1) _ _ (λ b. noted _ _ _ _ _ _ (finish s w _ _ _ _))
                (λ b.
                  if-Leads_cases (not verdict.0.allowed) _ _
                    (λ a. noted _ _ _ _ _ _ (finish s w _ _ _ _))
                    (λ a. fetch_context-Leads s w request q m v o)))

      pub after_mode-Leads :
          (s : RunState)
          → W s
          → (request : Request) → subject_of request ≡ subject
          → (m : Result ToolRoutingMode) → Routed V m
          → Leads P Q (after_mode u r s request m)
      unfolding after_mode
      after_mode-Leads s w request q (err x) v = noted _ _ _ _ _ _ (finish s w _ _ _ _)
      after_mode-Leads s w request q (ok routing_off) v = finish s w _ _ _ _
      after_mode-Leads s w request q (ok routing_dry_run) v =
          checked-Leads s w request q routing_dry_run v refl
      after_mode-Leads s w request q (ok routing_enabled) v =
          checked-Leads s w request q routing_enabled v refl
      after_mode-Leads s w request q (ok (other_mode t)) v =
          checked-Leads s w request q (other_mode t) v refl
