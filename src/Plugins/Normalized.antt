-- ===== src/Plugins/Normalized.antt =====
-- internal/plugins/manifest.go: the actions that a manifest offers, those of its old form included.
use gigi_dc.Prelude.{
  ℕ, suc, ◌+◌, String, ◌++◌, Bool, ◌&&◌, not, List, [], ◌∷◌, trim, is_blank, is_nil, any, ltb, itoa,
  length, if◌then◌else◌,
}
use gigi_dc.Plugins.{
  Manifest, DispatchMode, no_dispatch, SafetyClass, no_safety, DispatchAdapter, prefix_command,
  no_adapter, Trigger, Action,
}
use gigi_dc.Plugins.Validation.{
  safety_for_permissions, normalized_dispatch_mode, is_public, is_send_message,
}

abbrev pub or_safety : SafetyClass → SafetyClass → SafetyClass
or_safety no_safety d = d
or_safety s d = s

abbrev pub dispatch_or : DispatchMode → DispatchMode → DispatchMode
dispatch_or no_dispatch d = normalized_dispatch_mode d
dispatch_or own d = normalized_dispatch_mode own

abbrev pub or_adapter : DispatchAdapter → DispatchAdapter
or_adapter no_adapter = prefix_command
or_adapter a = a

unfoldable pub normalize_action : Manifest → Action → String → Action
normalize_action m a default_id = record a {
  id = if is_blank a.id then default_id else trim a.id;
  surfaces = if is_nil a.surfaces then m.surfaces else a.surfaces;
  safety = or_safety a.safety (safety_for_permissions a.permissions);
  dispatch = dispatch_or a.dispatch m.dispatch;
  adapter = or_adapter a.adapter;
}

unfoldable pub normalize_actions : Manifest → List Action → List Action
normalize_actions m [] = []
normalize_actions m (a ∷ actions) = normalize_action m a "" ∷ normalize_actions m actions

unfoldable pub legacy_action : Manifest → String → Trigger → Action
legacy_action m id t = record {
  id = id;
  name = "";
  description = "";
  trigger = t;
  surfaces = m.surfaces;
  permissions = m.permissions;
  safety = safety_for_permissions m.permissions;
  dispatch = normalized_dispatch_mode m.dispatch;
  adapter = prefix_command;
  arg_schema = "";
}

-- The name of a trigger's action: `legacy`, or with its number where there are several.
abbrev pub legacy_id : Bool → ℕ → String
legacy_id single index = if single then "legacy" else "legacy-" ++ itoa (index + 1)

unfoldable pub legacy_actions : Manifest → Bool → ℕ → List Trigger → List Action
legacy_actions m single index [] = []
legacy_actions m single index (t ∷ triggers) =
    legacy_action m (legacy_id single index) t ∷ legacy_actions m single (suc index) triggers

unfoldable pub normalized_actions : Manifest → List Action
normalized_actions m =
    if is_nil m.actions
    then legacy_actions m (not (ltb 1 (length m.triggers))) 0 m.triggers
    else normalize_actions m m.actions

abbrev pub is_public_send : Action → Bool
is_public_send a = is_send_message a.dispatch && is_public a.safety && is_nil a.permissions

-- `HasPublicSendMessageAction`, which is also `PublicDispatchConsentRequired`.
unfoldable pub has_public_send_message_action : Manifest → Bool
has_public_send_message_action m = any is_public_send (normalized_actions m)
