-- ===== src/Plugins/Settled.antt =====
-- internal/plugins/manifest.go: what validation leaves of the actions that a manifest offers.
use gigi_dc.Prelude.{
  ℕ, suc, String, ◌≡◌, refl, ap, Bool, true, false, List, [], ◌∷◌, Error, Result, ok, err, ◌>>◌,
  map, check_each, is_nil, All, ◌⊎◌, inl, inr, arith, if◌then◌else◌,
}
use gigi_dc.Prelude.Unicode.{Unicode}
use gigi_dc.Capability.{Capability, normalize}
use gigi_dc.Plugins.{
  Manifest, Action, Trigger, DispatchMode, dry_run, send_message, no_dispatch, other_dispatch,
}
use gigi_dc.Plugins.Validation.{
  Formats, validate_permissions, validate_permission, validate_identity, validate_declarations,
  validate_dispatch_mode, validate_action, validate_manifest, safety_for_permissions,
  normalized_dispatch_mode, is_public,
}
use gigi_dc.Plugins.Normalized.{
  normalized_actions, normalize_actions, normalize_action, legacy_actions, legacy_action, or_safety,
  dispatch_or,
}
use gigi_dc.Plugins.Matcher.{required_capabilities, dispatch_of}

Result-cases : {A : Type 0} (r : Result A) → ((a : A) × (r ≡ ok a)) ⊎ ((e : Error) × (r ≡ err e))
Result-cases (ok a) = inl (a, refl)
Result-cases (err e) = inr (e, refl)

module _ {A : Type 0} where
  then_left : (m : Result (Unit {0})) (k : Result A) {a : A} → (m >> k) ≡ ok a → m ≡ ok tt
  then_left (ok tt) k h = refl
  then_left (err e) k h = cc

  then_right : (m : Result (Unit {0})) (k : Result A) {a : A} → (m >> k) ≡ ok a → k ≡ ok a
  then_right (ok tt) k h = h
  then_right (err e) k h = cc

if_All :
    {A : Type 0} (P : A → Type 0) (b : Bool) (xs ys : List A)
    → All P xs
    → All P ys
    → All P (if b then xs else ys)
if_All P true xs ys p q = p
if_All P false xs ys p q = q

module _ (u : Unicode) where
  -- No permission that was validated is dropped.
  normalize-required :
      (permissions : List String)
      → validate_permissions u permissions ≡ ok tt
      → map (normalize u) permissions ≡ map ok (required_capabilities u permissions)
  unfolding validate_permissions required_capabilities
  normalize-required [] v = refl
  normalize-required (p ∷ permissions) v = elim (Result-cases (normalize u p)) [
    | inl (c, n) ↦ rw n (ap (λ cs. ok c ∷ cs) (normalize-required permissions (rest c n)))
    | inr (e, n) ↦ absurd (refused e n)
  ]
    where
      rest :
          (c : Capability)
          → normalize u p ≡ ok c
          → check_each (validate_permission u) permissions ≡ ok tt
      rest c n = ground (arith, v, n)

      refused : (e : Error) → normalize u p ≡ err e → ⊥
      refused e n = ground (arith, v, n)

  -- What validation leaves of an action, whatever manifest it stands in.
  abbrev pub IsSettled : Action → Type 0
  IsSettled a =
      (is_public a.safety ≡ is_nil a.permissions)
      × ((map (normalize u) a.permissions ≡ map ok (required_capabilities u a.permissions))
          × ((m : Manifest) → dispatch_of a.dispatch m ≡ a.dispatch))

  normalized_dispatch_mode-set :
      (d : DispatchMode) (m : Manifest)
      → dispatch_of (normalized_dispatch_mode d) m ≡ normalized_dispatch_mode d
  unfolding normalized_dispatch_mode
  normalized_dispatch_mode-set dry_run m = refl
  normalized_dispatch_mode-set send_message m = refl
  normalized_dispatch_mode-set no_dispatch m = refl
  normalized_dispatch_mode-set (other_dispatch s) m = refl

  dispatch_or-set :
      (own d : DispatchMode) (m : Manifest) → dispatch_of (dispatch_or own d) m ≡ dispatch_or own d
  dispatch_or-set dry_run d m = normalized_dispatch_mode-set dry_run m
  dispatch_or-set send_message d m = normalized_dispatch_mode-set send_message m
  dispatch_or-set no_dispatch d m = normalized_dispatch_mode-set d m
  dispatch_or-set (other_dispatch s) d m = normalized_dispatch_mode-set (other_dispatch s) m

  module _ (f : Formats) (m : Manifest) where
    validate_action-permissions :
        (a : Action)
        → validate_action u f m a ≡ ok tt
        → validate_permissions u a.permissions ≡ ok tt
    unfolding validate_action
    validate_action-permissions a v = ground (arith, v)

    validate_action-safety :
        (a : Action)
        → validate_action u f m a ≡ ok tt
        → is_public (or_safety a.safety (safety_for_permissions a.permissions))
          ≡ is_nil a.permissions
    unfolding validate_action
    validate_action-safety a v = ground (arith, v)

    validate_manifest-parts :
        validate_manifest u f m ≡ ok tt
        → (validate_permissions u m.permissions ≡ ok tt)
          × (check_each (validate_action u f m) m.actions ≡ ok tt)
    unfolding validate_manifest
    validate_manifest-parts v =
        let declared = then_right (validate_identity u f m) _ v in
        let permitted = then_right (validate_declarations u f m) _ declared in
        let dispatched = then_right (validate_permissions u m.permissions) _ permitted in
        let acted = then_right (validate_dispatch_mode m.dispatch) _ dispatched in
        (
          then_left (validate_permissions u m.permissions) _ permitted,
          then_left (check_each (validate_action u f m) m.actions) _ acted,
        )

    normalize_action-IsSettled :
        (a : Action) → validate_action u f m a ≡ ok tt → IsSettled (normalize_action m a "")
    unfolding normalize_action
    normalize_action-IsSettled a v = (
      validate_action-safety a v,
      (
        normalize-required a.permissions (validate_action-permissions a v),
        dispatch_or-set a.dispatch m.dispatch,
      ),
    )

    normalize_actions-IsSettled :
        (actions : List Action)
        → check_each (validate_action u f m) actions ≡ ok tt
        → All IsSettled (normalize_actions m actions)
    unfolding normalize_actions
    normalize_actions-IsSettled [] v = tt
    normalize_actions-IsSettled (a ∷ actions) v = (
      normalize_action-IsSettled a (then_left (validate_action u f m a) _ v),
      normalize_actions-IsSettled actions (then_right (validate_action u f m a) _ v),
    )

  legacy_actions-IsSettled :
      (m : Manifest)
      → validate_permissions u m.permissions ≡ ok tt
      → (single : Bool) (i : ℕ) (triggers : List Trigger)
      → All IsSettled (legacy_actions m single i triggers)
  unfolding legacy_actions legacy_action safety_for_permissions
  legacy_actions-IsSettled m v single i [] = tt
  legacy_actions-IsSettled m v single i (t ∷ triggers) = (
    (ground arith, (normalize-required m.permissions v, normalized_dispatch_mode-set m.dispatch)),
    legacy_actions-IsSettled m v single (suc i) triggers,
  )

  pub normalized_actions-IsSettled :
      (f : Formats) (m : Manifest)
      → validate_manifest u f m ≡ ok tt
      → All IsSettled (normalized_actions m)
  unfolding normalized_actions
  normalized_actions-IsSettled f m v =
      let parts = validate_manifest-parts f m v in
      if_All IsSettled (is_nil m.actions) _ _ (legacy_actions-IsSettled m parts.0 _ 0 m.triggers)
        (normalize_actions-IsSettled f m m.actions parts.1)
