-- ===== src/Agent/Executor/Authorized.antt =====
-- internal/agent/executor.go and policy.go: what is known of a tool when it runs.
use gigi_dc.Prelude.{
  ℕ, ◌+◌, String, ◌≡◌, refl, Bool, true, false, ◌&&◌, not, ◌⊎◌, inl, inr, Option, none, some, [],
  ◌∷◌, Result, ok, err, is_empty, is_some, Bool-cases, Option-cases, arith,
}
use gigi_dc.Prelude.Unicode.{Unicode}
use gigi_dc.Capability.{Capability, Subject}
use gigi_dc.Agent.{Request, Plan, ToolSpec, ToolCall}
use gigi_dc.Agent.Effects.{
  run_started, run_completed, step_recorded, cancel_checked, confirmation_created, sink_recorded,
  audit_recorded, policy_read, capability_checked, context_fetched, planned, tool_run, answered,
  follow_up_saved, History, Act, ◌>>=◌, give,
}
use gigi_dc.Agent.Effects.Keeps.{
  Keeps, IsStable, Leads, ask-Leads, give-Leads, bind-Leads, bind-Leads_through, if-Leads_cases,
}
use gigi_dc.Agent.Trace.{Trace}
use gigi_dc.Agent.Tools.{Registry, Tool, lookup_tool, normalize_tool_spec}
use gigi_dc.Agent.Policy.{
  Checker, Verdict, subject_of, check_capability, check_before_tool, no_checker, allow_public,
}
use gigi_dc.Agent.Executor.{
  Executor, Admission, halted, admitted, admit, authorize, decide, propose_write, check_canceled,
  is_write, trace_run_canceled,
}
use gigi_dc.Agent.Executor.Execute.{execute}
use gigi_dc.Agent.Executor.Gate.{record_trace-Keeps, propose_write-Keeps, trace_run_canceled-Keeps}
use gigi_dc.Agent.Executor.Bounds.{Ready, execute-Leads}

-- The checker's answer, given the history, is to allow, and it reports no error.
abbrev pub allows : Option Checker → History → Subject → Capability → Bool
allows none h subject c = false
allows (some check) h subject c =
    (check h subject c).0.allowed && not (is_some (check h subject c).1)

module _ (tools : Registry) (checker : Option Checker) (subject : Subject) where
  -- The last thing that happened is that the checker allowed the capability to the subject.
  abbrev pub WasAllowed : Capability → History → Type 0
  WasAllowed c (capability_checked s d ∷ h) =
      (s ≡ subject) × ((d ≡ c) × (allows checker h s d ≡ true))
  WasAllowed c _ = ⊥

  abbrev pub IsRegistered : ToolSpec → Type 0
  IsRegistered spec = (name : String) × ((tool : Tool) × (lookup_tool tools name ≡ ok (tool, spec)))

  -- A tool that runs is registered and does not write, and its capability, if it names one, has
  -- just been allowed.
  abbrev pub IsPermitted : ToolSpec → History → Type 0
  IsPermitted spec h =
      IsRegistered spec
      × ((is_write spec.kind ≡ false)
          × ((is_empty (normalize_tool_spec spec).capability ≡ true)
              ⊎ WasAllowed (normalize_tool_spec spec).capability h))

  -- This holds of every run of a tool in the history.
  abbrev pub IsAuthorized : History → Type 0
  IsAuthorized [] = Unit
  IsAuthorized (tool_run spec call ∷ h) =
      (call.name ≡ spec.name) × (IsPermitted spec h × IsAuthorized h)
  IsAuthorized (_ ∷ h) = IsAuthorized h

  pub IsAuthorized-IsStable : IsStable IsAuthorized
  IsAuthorized-IsStable (run_started x) h q p = p
  IsAuthorized-IsStable (run_completed a b c) h q p = p
  IsAuthorized-IsStable (step_recorded x) h q p = p
  IsAuthorized-IsStable (cancel_checked x) h q p = p
  IsAuthorized-IsStable (confirmation_created x) h q p = p
  IsAuthorized-IsStable (sink_recorded x) h q p = p
  IsAuthorized-IsStable (audit_recorded x) h q p = p
  IsAuthorized-IsStable (policy_read x) h q p = p
  IsAuthorized-IsStable (capability_checked a b) h q p = p
  IsAuthorized-IsStable (context_fetched x) h q p = p
  IsAuthorized-IsStable (planned a b) h q p = p
  IsAuthorized-IsStable (tool_run a b) h q p = ground arith
  IsAuthorized-IsStable (answered a b) h q p = p
  IsAuthorized-IsStable (follow_up_saved x) h q p = p

module _ (u : Unicode) (e : Executor) (request : Request) where
  abbrev Authorized : History → Type 0
  Authorized = IsAuthorized e.tools e.policy.checker (subject_of request)

  abbrev stable : IsStable Authorized
  stable = IsAuthorized-IsStable e.tools e.policy.checker (subject_of request)

  abbrev Next : ℕ → ToolCall → Admission → History → Type 0
  Next n call = Ready {F = λ n. Authorized} (λ n. stable) u e request n call

  abbrev Allowed : Capability → History → Type 0
  Allowed = WasAllowed e.tools e.policy.checker (subject_of request)

  -- What a verdict that allows says of the history.
  abbrev Vouched : ToolSpec → Verdict → History → Type 0
  Vouched spec v h =
      Authorized h
      × (v.0.allowed ≡ true
          → is_some v.1 ≡ false
          → (is_empty (normalize_tool_spec spec).capability ≡ true)
            ⊎ Allowed (normalize_tool_spec spec).capability h)

  check_before_tool-Leads :
      (spec : ToolSpec) → Leads Authorized (Vouched spec) (check_before_tool e.policy request spec)
  unfolding check_before_tool check_capability
  check_before_tool-Leads spec =
      elim (Bool-cases (is_empty (normalize_tool_spec spec).capability)) [
        | inl b ↦ rw b (give-Leads allow_public (λ h p. (p, λ a n. inl b)))
        | inr b ↦ rw b (elim (Option-cases e.policy.checker) [
          | inl n ↦ rw n (give-Leads (no_checker _) (λ h p. (p, λ a m. ground arith)))
          | inr (check, n) ↦ rw n (
              ask-Leads
                (capability_checked (subject_of request) (normalize_tool_spec spec).capability) _
                (λ h p. (p, λ a m. inr (refl, (refl, ground arith)))))
        ])
      ]

  propose-Leads :
      (n i : ℕ) (t : Trace) (spec : ToolSpec) (call : ToolCall)
      → Leads Authorized
          (Next n call)
          (do r ← propose_write u e request t i spec call; give (halted r))
  propose-Leads n i t spec call =
      bind-Leads (propose_write u e request t i spec call) _
        (propose_write-Keeps stable u e request t i spec call)
        (λ r. give-Leads (halted r) (λ h p. p))

  decide-Leads :
      (n : ℕ) (t : Trace) (tool : Tool) (spec : ToolSpec) (call : ToolCall) (v : Verdict)
      → IsRegistered e.tools e.policy.checker (subject_of request) spec
      → is_write spec.kind ≡ false
      → Leads (Vouched spec v) (Next n call) (decide u e request t tool spec v)
  unfolding decide
  decide-Leads n t tool spec call v known reads =
      if-Leads_cases (is_some v.1) _ _
        (λ b. drop (
          bind-Leads _ _ (record_trace-Keeps stable u t request _ _ _ _)
            (λ x. give-Leads _ (λ h p. p))))
        (λ b.
          if-Leads_cases (not v.0.allowed) _ _
            (λ a. drop (
              bind-Leads _ _ (record_trace-Keeps stable u t request _ _ _ _)
                (λ x. give-Leads _ (λ h p. p))))
            (λ a.
              give-Leads (admitted tool spec)
                (λ h p. (refl, ((known, (reads, p.1 (ground arith) b)), p.0)))))
    where
      drop :
          {m : Act Admission}
          → Leads Authorized (Next n call) m
          → Leads (Vouched spec v) (Next n call) m
      drop l = record { at = λ h p. l.at h p.0 }

  authorize-Leads :
      (n i : ℕ) (t : Trace) (tool : Tool) (spec : ToolSpec) (call : ToolCall)
      → IsRegistered e.tools e.policy.checker (subject_of request) spec
      → Leads Authorized (Next n call) (authorize u e request t i tool spec call)
  unfolding authorize
  authorize-Leads n i t tool spec call known = elim (Bool-cases (is_write spec.kind)) [
    | inl b ↦ rw b (propose-Leads n i t spec call)
    | inr b ↦ rw b (
        bind-Leads_through (check_before_tool e.policy request spec) _
          (check_before_tool-Leads spec) (λ v. decide-Leads n t tool spec call v known b))
  ]

  check_canceled-Leads :
      (n : ℕ) (t : Trace) (spec : ToolSpec) (call : ToolCall) (r : Result Bool)
      (next : Act Admission)
      → Leads Authorized (Next n call) next
      → Leads Authorized (Next n call) (check_canceled u e request t spec r next)
  unfolding check_canceled
  check_canceled-Leads n t spec call (err x) next k =
      bind-Leads _ _ (record_trace-Keeps stable u t request _ _ _ _) (λ x. give-Leads _ (λ h p. p))
  check_canceled-Leads n t spec call (ok true) next k = give-Leads _ (λ h p. p)
  check_canceled-Leads n t spec call (ok false) next k = k

  admit-Leads :
      (n i : ℕ) (call : ToolCall) (t : Trace) (found : Result (Tool × ToolSpec))
      → lookup_tool e.tools call.name ≡ found
      → Leads Authorized (Next n call) (admit u e request t i call found)
  unfolding admit
  admit-Leads n i call t (err x) q =
      bind-Leads _ _ (record_trace-Keeps stable u t request _ _ _ _) (λ x. give-Leads _ (λ h p. p))
  admit-Leads n i call t (ok (tool, spec)) q =
      bind-Leads (trace_run_canceled t) _ (trace_run_canceled-Keeps stable u t) (λ r.
        check_canceled-Leads n t spec call r _
          (authorize-Leads n (i + 1) t tool spec call (call.name, (tool, q))))

  -- The executor runs only tools that are authorized.
  pub execute-IsAuthorized : (plan : Plan) → Keeps Authorized (execute u e request plan)
  execute-IsAuthorized plan = record {
    at =
        (execute-Leads {F = λ n. Authorized} (λ n. stable) u e request (λ n m le h p. p)
          (λ n i call t. admit-Leads n i call t (lookup_tool e.tools call.name) refl) 0 plan).at;
  }
