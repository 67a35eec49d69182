-- ===== src/Plugins/Tests.antt =====
-- The statements about internal/plugins, on two manifests of ASCII text.
use gigi_dc.Prelude.{String, ◌==◌, ◌≡◌, trim, refl, false, List, [], ◌∷◌, some, ok, err, failure}
use gigi_dc.Prelude.Unicode.{ascii}
use gigi_dc.Plugins.{
  Manifest, Action, known, send_message, SafetyClass, public, restricted, prefix_command,
}
use gigi_dc.Plugins.Validation.{
  Formats, validate_manifest, validate_surfaces, validate_permissions, validate_action,
  validate_dispatch_mode, validate_json_object, validate_trigger, valid_identifier,
  valid_discord_id, normalized_dispatch_mode,
}
use gigi_dc.Plugins.Normalized.{normalized_actions, normalize_actions, normalize_action}
use gigi_dc.Plugins.Matcher.{
  CommandPlan, match_command, build_command, plan_command, plan_action, first_action,
  first_manifest, supports_action_surface, match_prefix_trigger, trigger_aliases, match_aliases,
  other_aliases, bare_command, trim_signs, required_capabilities,
}
use gigi_dc.Capability.{normalize}
use gigi_dc.Plugins.Planned.{IsChecked, plan_command-IsChecked}
use gigi_dc.Plugins.RoundTrip.{match_command-build_command}

abbrev formats : Formats
formats = record {
  parse_url = λ text.
      some
        record { scheme = "https"; host = text; has_user = false; raw_query = ""; fragment = "" };
  is_json_object = λ text. text == "{}";
  read_manifest = λ text. err (failure text);
}

abbrev action : String → List String → SafetyClass → Action
action value permissions safety = record {
  id = "play";
  name = "Play";
  description = "";
  trigger = record { kind = "prefix"; value = value; aliases = "!p" ∷ [] };
  surfaces = "guild" ∷ [];
  permissions = permissions;
  safety = safety;
  dispatch = send_message;
  adapter = prefix_command;
  arg_schema = "{}";
}

abbrev manifest : String → Action → Manifest
manifest id a = record {
  id = id;
  name = "Music";
  version = "1";
  source = "known";
  source_kind = known;
  discord_application_id = "123456";
  discord_bot_user_id = "";
  manifest_url = "";
  capabilities = record { name = "music.play"; description = "plays" } ∷ [];
  triggers = [];
  actions = a ∷ [];
  surfaces = [];
  permissions = [];
  dispatch = send_message;
  public_dispatch_allowed = false;
  config_schema = "";
  audit_events = "played" ∷ [];
  attribution = record { name = "n"; purpose = "u"; source = "s" } ∷ [];
}

-- One action that needs a permission, one that does not.
abbrev stopping : Manifest
stopping = manifest "dj" (action "!stop" ("web.fetch" ∷ []) restricted)

abbrev playing : Manifest
playing = manifest "music" (action "!play" [] public)

abbrev manifests : List Manifest
manifests = playing ∷ stopping ∷ []

abbrev plan : CommandPlan
plan = record {
  manifest = stopping;
  action = action "!stop" ("web.fetch" ∷ []) restricted;
  trigger = (action "!stop" ("web.fetch" ∷ []) restricted).trigger;
  command = "!stop a song";
  arguments = "a song";
  required_capabilities = "web.fetch" ∷ [];
}

all_valid :
    (validate_manifest ascii formats stopping ≡ ok tt)
    × (validate_manifest ascii formats playing ≡ ok tt)
unfolding validate_manifest validate_surfaces validate_permissions validate_action
    validate_dispatch_mode validate_json_object validate_trigger valid_identifier valid_discord_id
    trim normalize
all_valid = (refl, refl)

plan_command-IsChecked_example : IsChecked ascii (trim " guild") plan
unfolding plan_command plan_action first_action first_manifest supports_action_surface
    match_prefix_trigger match_command build_command trigger_aliases match_aliases other_aliases
    bare_command trim_signs required_capabilities normalized_actions normalize_actions
    normalize_action normalized_dispatch_mode trim normalize
plan_command-IsChecked_example =
    plan_command-IsChecked ascii formats manifests " guild" "!STOP  a song " plan
      (all_valid.1, (all_valid.0, tt)) refl

match_command-build_command_example :
    match_command ascii (build_command " !Play" " a song ") " !Play" ≡ some "a song"
unfolding trim
match_command-build_command_example = match_command-build_command ascii " !Play" " a song " refl
