-- ===== src/Plugins/Matcher.antt =====
-- internal/plugins/matcher.go: which action of which manifest a text asks for. Positions in texts
-- are in bytes, and a cut inside a character matches nothing.
use Prim.Native.Char.{code}
use Prim.Native.String.{len, slice}
use gigi_dc.Prelude.{
  String, ◌++◌, ◌==◌, Bool, false, ◌&&◌, ◌||◌, not, Option, none, some, List, [], ◌∷◌, Result, ok,
  err, trim, is_empty, is_blank, is_nil, any, ltb, eqb, is_space, if◌then◌else◌,
}
use gigi_dc.Prelude.Unicode.{Unicode}
use gigi_dc.Capability.{Capability, normalize}
use gigi_dc.Plugins.{Manifest, Action, Trigger, DispatchMode, no_dispatch}
use gigi_dc.Plugins.Validation.{normalized_dispatch_mode, is_public}
use gigi_dc.Plugins.Normalized.{normalized_actions}

pub record CommandPlan : Type 0 where
  pub manifest : Manifest
  pub action : Action
  pub trigger : Trigger
  pub command : String
  pub arguments : String
  pub required_capabilities : List Capability

unfoldable pub supports_action_surface : Action → String → Bool
supports_action_surface a surface = any (λ candidate. trim candidate == surface) a.surfaces

unfoldable pub build_command : String → String → String
build_command trigger args =
    if is_blank args then trim trigger else trim trigger ++ (" " ++ trim args)

abbrev pub or_later : Option CommandPlan → Option CommandPlan → Option CommandPlan
or_later (some p) later = some p
or_later none later = later

-- The loops over the manifests and over the actions of each, for any body.
unfoldable pub first_action :
    (Manifest → Action → Option CommandPlan) → Manifest → List Action → Option CommandPlan
first_action body m [] = none
first_action body m (a ∷ actions) = or_later (body m a) (first_action body m actions)

unfoldable pub first_manifest :
    (Manifest → Action → Option CommandPlan) → List Manifest → Option CommandPlan
first_manifest body [] = none
first_manifest body (m ∷ manifests) =
    or_later (first_action body m (normalized_actions m)) (first_manifest body manifests)

abbrev pub starts_with_space : String → Bool
starts_with_space String.[] = false
starts_with_space (String.◌∷◌ c s) = is_space (code c)

module _ (u : Unicode) where
  -- `strings.EqualFold(text[:n], command)` for a text of at least `n` bytes.
  abbrev pub prefix_folds : String → String → Bool
  prefix_folds text command =
      let head = slice text 0 (len command) in
      eqb (len head) (len command) && u.equal_fold head command

  unfoldable pub match_command : String → String → Option String
  match_command raw_text raw_command =
      let text = trim raw_text in
      let command = trim raw_command in
      if ltb (len text) (len command)
      then none
      else if not (prefix_folds text command)
      then none
      else if eqb (len text) (len command)
      then some ""
      else if not (starts_with_space (slice text (len command) (len text)))
      then none
      else some (trim (slice text (len command) (len text)))

  -- `strings.TrimLeftFunc` of what is neither a letter nor a digit.
  unfoldable pub trim_signs : String → String
  trim_signs String.[] = ""
  trim_signs (String.◌∷◌ c s) =
      let rest = trim_signs s in
      if u.is_letter (code c) || u.is_digit (code c) then String.◌∷◌ c s else rest

  unfoldable pub bare_command : String → String
  bare_command command = trim_signs (trim command)

  unfoldable pub other_aliases : String → List String → List String
  other_aliases value [] = []
  other_aliases value (raw ∷ aliases) =
      let rest = other_aliases value aliases in
      if is_blank raw || u.equal_fold (trim raw) value then rest else trim raw ∷ rest

  unfoldable pub trigger_aliases : Trigger → List String
  trigger_aliases t =
      let value = trim t.value in
      let bare = bare_command value in
      let others = other_aliases value t.aliases in
      if not (is_empty bare) && not (u.equal_fold bare value) then bare ∷ others else others

  unfoldable pub match_aliases : String → String → List String → Option (String × String)
  match_aliases value text [] = none
  match_aliases value text (alias ∷ aliases) =
      let later = match_aliases value text aliases in
      elim (match_command text alias) [
        | some args ↦ some (build_command value args, args)
        | none ↦ later
      ]

  unfoldable pub match_prefix_trigger : Trigger → String → Option (String × String)
  match_prefix_trigger t text =
      let value = trim t.value in
      if is_empty value then none else elim (match_command text value) [
        | some args ↦ some (build_command value args, args)
        | none ↦ match_aliases value text (trigger_aliases t)
      ]

  -- A permission that does not normalise is skipped.
  abbrev pub keep_capability : Result Capability → List Capability → List Capability
  keep_capability (ok c) rest = c ∷ rest
  keep_capability (err e) rest = rest

  unfoldable pub required_capabilities : List String → List Capability
  required_capabilities [] = []
  required_capabilities (permission ∷ permissions) =
      keep_capability (normalize u permission) (required_capabilities permissions)

  abbrev pub plan_of : Manifest → Action → String × String → CommandPlan
  plan_of m a found = record {
    manifest = m;
    action = a;
    trigger = a.trigger;
    command = found.0;
    arguments = found.1;
    required_capabilities = required_capabilities a.permissions;
  }

  -- The body of the inner loop: a plan, or on to the next action.
  unfoldable pub plan_action : String → String → Manifest → Action → Option CommandPlan
  plan_action surface text m a =
      if not (supports_action_surface a surface) || not (trim a.trigger.kind == "prefix")
      then none
      else elim (match_prefix_trigger a.trigger text) [
        | some found ↦ some (plan_of m a found)
        | none ↦ none
      ]

  unfoldable pub plan_command : List Manifest → String → String → Option CommandPlan
  plan_command manifests raw_surface raw_text =
      if is_blank raw_surface || is_blank raw_text
      then none
      else first_manifest (plan_action (trim raw_surface) (trim raw_text)) manifests

  unfoldable pub plan_trigger :
      String → String → String → String → Manifest → Action → Option CommandPlan
  plan_trigger surface plugin_id value arguments m a =
      if not (trim m.id == plugin_id)
        || not (supports_action_surface a surface)
        || not (trim a.trigger.kind == "prefix")
        || not (trim a.trigger.value == value)
      then none
      else some (plan_of m a (build_command a.trigger.value (trim arguments), trim arguments))

  unfoldable pub plan_command_from_trigger :
      List Manifest → String → String → String → String → Option CommandPlan
  plan_command_from_trigger manifests surface plugin_id value arguments =
      if is_blank surface || is_blank plugin_id || is_blank value
      then none
      else first_manifest (plan_trigger (trim surface) (trim plugin_id) (trim value) arguments)
          manifests

abbrev pub dispatch_of : DispatchMode → Manifest → DispatchMode
dispatch_of no_dispatch m = normalized_dispatch_mode m.dispatch
dispatch_of d m = d

-- `CommandPlan.DispatchMode` and `CommandPlan.PublicAction`.
unfoldable pub dispatch_mode : CommandPlan → DispatchMode
dispatch_mode p = dispatch_of p.action.dispatch p.manifest

unfoldable pub public_action : CommandPlan → Bool
public_action p = is_public p.action.safety && is_nil p.required_capabilities
