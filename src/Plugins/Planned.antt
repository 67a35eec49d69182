-- ===== src/Plugins/Planned.antt =====
-- internal/plugins: the plans that validated manifests give.
use gigi_dc.Prelude.{
  String, ◌≡◌, refl, sym, subst, ◌∙◌, ap, map, All-map, All-pair, Bool, true, ◌&&◌, Option, none,
  some, List, [], ◌∷◌, ok, trim, is_nil, any, All, Bool-cases, inl, inr, arith,
}
use gigi_dc.Prelude.Unicode.{Unicode}
use gigi_dc.Capability.{Capability, normalize}
use gigi_dc.Plugins.{Manifest, Action, Trigger}
use gigi_dc.Plugins.Validation.{Formats, validate_manifest, is_send_message}
use gigi_dc.Plugins.Normalized.{normalized_actions, is_public_send, has_public_send_message_action}
use gigi_dc.Plugins.Matcher.{
  CommandPlan, required_capabilities, supports_action_surface, plan_of, plan_action, plan_command,
  first_action, first_manifest, or_later, dispatch_mode, public_action, match_prefix_trigger,
}
use gigi_dc.Plugins.Settled.{IsSettled, normalized_actions-IsSettled}

-- A plan is public where its action needs no permission, its capabilities are the permissions of its
-- action, each normalised, in their order, its action is for the surface, and where it sends messages
-- in public its manifest asks for consent.
abbrev pub IsChecked : Unicode → String → CommandPlan → Type 0
IsChecked u surface p =
    (public_action p ≡ is_nil p.action.permissions)
    × ((map (normalize u) p.action.permissions ≡ map ok p.required_capabilities)
        × ((supports_action_surface p.action surface ≡ true)
            × ((public_action p && is_send_message (dispatch_mode p)) ≡ true
                → has_public_send_message_action p.manifest ≡ true)))

is_nil-map : {A B : Type 0} (f : A → B) (xs : List A) → is_nil (map f xs) ≡ is_nil xs
is_nil-map f [] = refl
is_nil-map f (x ∷ xs) = refl

-- A result of the loops is a result of their body on some action.
module _ (P : Manifest → Action → Type 0) (Q : CommandPlan → Type 0)
    (body : Manifest → Action → Option CommandPlan) where
  or_later-carries :
      (now later : Option CommandPlan) (p : CommandPlan)
      → (now ≡ some p → Q p)
      → (later ≡ some p → Q p)
      → or_later now later ≡ some p
      → Q p
  or_later-carries (some q) later p first rest e = first e
  or_later-carries none later p first rest e = rest e

  module _
      (carries : (m : Manifest) (a : Action) (p : CommandPlan)
        → P m a
        → body m a ≡ some p
        → Q p) where
    first_action-carries :
        (m : Manifest) (actions : List Action) (p : CommandPlan)
        → All (P m) actions
        → first_action body m actions ≡ some p
        → Q p
    unfolding first_action
    first_action-carries m [] p all e = cc
    first_action-carries m (a ∷ actions) p all e =
        or_later-carries (body m a) _ p (carries m a p all.0)
          (first_action-carries m actions p all.1) e

    first_manifest-carries :
        (manifests : List Manifest) (p : CommandPlan)
        → All (λ m. All (P m) (normalized_actions m)) manifests
        → first_manifest body manifests ≡ some p
        → Q p
    unfolding first_manifest
    first_manifest-carries [] p all e = cc
    first_manifest-carries (m ∷ manifests) p all e =
        or_later-carries (first_action body m (normalized_actions m)) _ p
          (first_action-carries m (normalized_actions m) p all.0)
          (first_manifest-carries manifests p all.1) e

module _ (u : Unicode) where
  -- What a plan takes from the action and the manifest it was made of.
  abbrev IsPlanOf : Manifest → Action → String → CommandPlan → Type 0
  IsPlanOf m a surface p =
      (p.manifest ≡ m)
      × ((p.action ≡ a)
          × ((p.required_capabilities ≡ required_capabilities u a.permissions)
              × (supports_action_surface a surface ≡ true)))

  plan_of-IsPlanOf :
      (surface : String) (m : Manifest) (a : Action)
      → supports_action_surface a surface ≡ true
      → (found : Option (String × String)) (p : CommandPlan)
      → elim found [ some found ↦ some (plan_of u m a found) | none ↦ none ] ≡ some p
      → IsPlanOf m a surface p
  plan_of-IsPlanOf surface m a s none p e = cc
  plan_of-IsPlanOf surface m a s (some found) p e = (cc, (cc, (cc, s)))

  plan_action-IsPlanOf :
      (surface text : String) (m : Manifest) (a : Action) (p : CommandPlan)
      → plan_action u surface text m a ≡ some p
      → IsPlanOf m a surface p
  unfolding plan_action
  plan_action-IsPlanOf surface text m a p e =
      elim (Bool-cases (supports_action_surface a surface)) [
        | inl s ↦
            plan_of-IsPlanOf surface m a s (match_prefix_trigger u a.trigger text) p
              (ground (arith, e, s))
        | inr s ↦ absurd (ground (arith, e, s))
      ]

  -- An action that validation settled, among the actions of its manifest.
  abbrev IsOffered : Manifest → Action → Type 0
  IsOffered m a =
      IsSettled u a × (is_public_send a ≡ true → has_public_send_message_action m ≡ true)

  plan-IsChecked :
      (surface : String) (m : Manifest) (a : Action) (r : List Capability) (t : Trigger)
      (command args : String)
      → r ≡ required_capabilities u a.permissions
      → supports_action_surface a surface ≡ true
      → IsOffered m a
      → IsChecked u surface record {
        manifest = m;
        action = a;
        trigger = t;
        command = command;
        arguments = args;
        required_capabilities = r;
      }
  unfolding public_action dispatch_mode
  plan-IsChecked surface m a r t command args e s (settled, offered) =
      let counted : map (normalize u) a.permissions ≡ map ok r = rw e settled.1.0 in
      let empty : is_nil r ≡ is_nil a.permissions =
        sym (is_nil-map ok r) ∙ ap is_nil (sym counted) ∙ is_nil-map (normalize u) a.permissions in
      (
        ground (arith, empty, settled.0),
        (counted, (s, λ sent. offered (ground (arith, sent, empty, settled.0, settled.1.1 m)))),
      )

  as_plan :
      (surface : String) (m : Manifest) (a : Action) (p : CommandPlan)
      → IsPlanOf m a surface p
      → IsOffered m a
      → IsChecked u surface p
  as_plan surface m a p made offered =
      let here =
        subst (λ n. IsOffered n p.action) (sym made.0)
          (subst (IsOffered m) (sym made.1.0) offered) in
      plan-IsChecked surface p.manifest p.action p.required_capabilities p.trigger p.command
        p.arguments (made.1.1.0 ∙ ap (λ b. required_capabilities u b.permissions) (sym made.1.0))
        (subst (λ b. supports_action_surface b surface ≡ true) (sym made.1.0) made.1.1.1) here

  any-All : (A : Type 0) (q : A → Bool) (xs : List A) → All (λ x. q x ≡ true → any q xs ≡ true) xs
  any-All A q [] = tt
  any-All A q (x ∷ xs) = (
    λ h. ground (arith, h),
    All-map _ _ (λ y later h. ground (arith, later h)) xs (any-All A q xs),
  )

  normalized_actions-IsOffered :
      (f : Formats) (m : Manifest)
      → validate_manifest u f m ≡ ok tt
      → All (IsOffered m) (normalized_actions m)
  unfolding has_public_send_message_action
  normalized_actions-IsOffered f m v =
      All-pair _ _ (normalized_actions m) (normalized_actions-IsSettled u f m v)
        (any-All _ is_public_send (normalized_actions m))

  All-IsOffered :
      (f : Formats) (manifests : List Manifest)
      → All (λ m. validate_manifest u f m ≡ ok tt) manifests
      → All (λ m. All (IsOffered m) (normalized_actions m)) manifests
  All-IsOffered f manifests v = All-map _ _ (normalized_actions-IsOffered f) manifests v

  -- A plan that is made of valid manifests is public exactly where its action needs no permission, requires exactly the permissions of its action, each normalised, in their order, is of an action for the given surface, and where it is public and sends messages its manifest is one that asks for consent to public messages.
  pub plan_command-IsChecked :
      (f : Formats) (manifests : List Manifest) (surface text : String) (p : CommandPlan)
      → All (λ m. validate_manifest u f m ≡ ok tt) manifests
      → plan_command u manifests surface text ≡ some p
      → IsChecked u (trim surface) p
  unfolding plan_command
  plan_command-IsChecked f manifests surface text p v e =
      first_manifest-carries IsOffered (IsChecked u (trim surface))
        (plan_action u (trim surface) (trim text))
        (λ m a p offered e.
          as_plan (trim surface) m a p (plan_action-IsPlanOf (trim surface) (trim text) m a p e)
            offered)
        manifests p (All-IsOffered f manifests v) (ground (arith, e))
