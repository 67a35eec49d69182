-- ===== src/Plugins/Validation.antt =====
-- internal/plugins/manifest.go: decoding, validation and normalisation of a manifest. `Formats` is
-- what Go's `encoding/json` and `net/url` make of a text.
use Prim.Native.String.{len, slice}
use gigi_dc.Prelude.{
  ℕ, String, ◌==◌, Bool, true, false, ◌&&◌, ◌||◌, not, Option, none, some, List, failure, Result,
  ok, err, refuse_if, labelled_error, check_each, ◌>>=◌, ◌>>◌, trim, is_empty, is_blank, is_nil,
  all, ltb, eqb, if◌then◌else◌,
}
use gigi_dc.Prelude.Unicode.{Unicode, codes}
use gigi_dc.Capability.{normalize}
use gigi_dc.Plugins.{
  Manifest, SourceKind, manifest_url, uploaded_file, no_source_kind, other_source_kind,
  DispatchMode, dry_run, send_message, no_dispatch, other_dispatch, SafetyClass, public, restricted,
  DispatchAdapter, other_adapter, DeclaredCapability, Trigger, Resource, Action,
}

-- What `url.Parse` tells of a text.
pub record ParsedUrl : Type 0 where
  pub scheme : String
  pub host : String
  pub has_user : Bool
  pub raw_query : String
  pub fragment : String

pub record Formats : Type 0 where
  pub parse_url : String → Option ParsedUrl
  pub is_json_object : String → Bool
  pub read_manifest : String → Result Manifest

abbrev pub max_manifest_bytes : ℕ
max_manifest_bytes = 1048576

unfoldable pub valid_discord_id : Unicode → String → Bool
valid_discord_id u raw =
    let value = trim raw in
    not (ltb (len value) 5 || ltb 30 (len value)) && all u.is_digit (codes value)

abbrev pub identifier_rune : Unicode → ℕ → Bool
identifier_rune u r = (u.is_lower r || u.is_digit r) || (eqb r b'.' || eqb r b'_' || eqb r b'-')

unfoldable pub valid_identifier : Unicode → String → Bool
valid_identifier u raw =
    let value = trim raw in
    not (is_empty value || ltb 128 (len value)) && all (identifier_rune u) (codes value)

unfoldable pub validate_trigger : Trigger → Result (Unit {0})
validate_trigger t = do
  refuse_if (is_blank t.kind || is_blank t.value) "trigger kind and value are required"
  check_each (λ alias. refuse_if (is_blank alias) "trigger alias is required") t.aliases

unfoldable pub validate_surfaces : List String → Result (Unit {0})
validate_surfaces surfaces =
    check_each (λ surface. refuse_if (is_blank surface) "surface is required") surfaces

abbrev pub refuse_dispatch : DispatchMode → Bool
refuse_dispatch (other_dispatch s) = true
refuse_dispatch _ = false

unfoldable pub validate_dispatch_mode : DispatchMode → Result (Unit {0})
validate_dispatch_mode d = refuse_if (refuse_dispatch d) "unsupported dispatch mode"

unfoldable pub safety_for_permissions : List String → SafetyClass
safety_for_permissions permissions = if is_nil permissions then public else restricted

unfoldable pub normalized_dispatch_mode : DispatchMode → DispatchMode
normalized_dispatch_mode no_dispatch = dry_run
normalized_dispatch_mode d = d

abbrev pub is_known_kind : SourceKind → Bool
is_known_kind (other_source_kind s) = false
is_known_kind _ = true

abbrev pub is_no_kind : SourceKind → Bool
is_no_kind no_source_kind = true
is_no_kind _ = false

abbrev pub is_manifest_url : SourceKind → Bool
is_manifest_url manifest_url = true
is_manifest_url _ = false

abbrev pub is_public : SafetyClass → Bool
is_public public = true
is_public _ = false

abbrev pub is_restricted : SafetyClass → Bool
is_restricted restricted = true
is_restricted _ = false

abbrev pub is_send_message : DispatchMode → Bool
is_send_message send_message = true
is_send_message _ = false

abbrev pub is_unknown_adapter : DispatchAdapter → Bool
is_unknown_adapter (other_adapter s) = true
is_unknown_adapter _ = false

abbrev pub has_bad_url : Option ParsedUrl → Bool
has_bad_url none = true
has_bad_url (some p) = not (p.scheme == "https") || is_empty p.host

abbrev pub has_extras : Option ParsedUrl → Bool
has_extras none = false
has_extras (some p) = p.has_user || not (is_empty p.raw_query) || not (is_empty p.fragment)

unfoldable pub validate_manifest_url : Formats → String → Result (Unit {0})
validate_manifest_url f raw = do
  refuse_if (is_blank raw) "manifest URL is required"
  refuse_if (has_bad_url (f.parse_url (trim raw))) "manifest URL must be an HTTPS URL"
  refuse_if (has_extras (f.parse_url (trim raw)))
      "manifest URL must not include user info, query, or fragment"

-- A text that is not an object, or that does not parse, is refused with a message of the same kind.
unfoldable pub validate_json_object : Formats → String → Result (Unit {0})
validate_json_object f raw =
    refuse_if (not (is_blank raw) && not (f.is_json_object (trim raw))) "must be a JSON object"

module _ (u : Unicode) where
  abbrev pub validate_permission : String → Result (Unit {0})
  validate_permission permission = labelled_error "permission" (do normalize u permission; ok tt)

  unfoldable pub validate_permissions : List String → Result (Unit {0})
  validate_permissions permissions = check_each validate_permission permissions

  abbrev pub validate_capability : DeclaredCapability → Result (Unit {0})
  validate_capability c = do
    labelled_error "capability" (normalize u c.name)
    refuse_if (is_blank c.description) "capability description is required"

  module _ (f : Formats) where
    abbrev pub action_surfaces : Manifest → Action → List String
    action_surfaces m a = if is_nil a.surfaces then m.surfaces else a.surfaces

    unfoldable pub validate_action : Manifest → Action → Result (Unit {0})
    validate_action m a = do
      refuse_if (is_blank a.id) "action id is required"
      refuse_if (not (valid_identifier u (trim a.id))) "action id contains unsupported characters"
      labelled_error "action" (validate_trigger a.trigger)
      refuse_if (is_nil (action_surfaces m a)) "action surfaces are required"
      validate_surfaces (action_surfaces m a)
      validate_permissions a.permissions
      refuse_if (not (is_public a.safety) && not (is_restricted a.safety))
          "action has unsupported safety class"
      refuse_if (is_public a.safety && not (is_nil a.permissions))
          "action public safety cannot require permissions"
      refuse_if (is_restricted a.safety && is_nil a.permissions)
          "action restricted safety requires permissions"
      labelled_error "action" (validate_dispatch_mode a.dispatch)
      refuse_if (is_unknown_adapter a.adapter) "action has unsupported dispatch adapter"
      validate_json_object f a.arg_schema

    abbrev pub validate_identity : Manifest → Result (Unit {0})
    validate_identity m = do
      refuse_if (is_blank m.id) "plugin id is required"
      refuse_if (not (valid_identifier u m.id)) "plugin id contains unsupported characters"
      refuse_if (is_blank m.name) "name is required"
      refuse_if (is_blank m.version) "version is required"
      refuse_if (is_blank m.source) "source is required"
      refuse_if (is_no_kind m.source_kind) "source kind is required"
      refuse_if (not (is_known_kind m.source_kind)) "unsupported source kind"
      refuse_if (is_blank m.discord_application_id && is_blank m.discord_bot_user_id)
          "Discord application ID or bot user ID is required"
      refuse_if
          (not (is_blank m.discord_application_id)
            && not (valid_discord_id u m.discord_application_id))
          "Discord application ID must be a snowflake ID"
      refuse_if
          (not (is_blank m.discord_bot_user_id) && not (valid_discord_id u m.discord_bot_user_id))
          "Discord bot user ID must be a snowflake ID"
      if is_manifest_url m.source_kind then validate_manifest_url f m.manifest_url else ok tt

    abbrev pub validate_declarations : Manifest → Result (Unit {0})
    validate_declarations m = do
      refuse_if (is_nil m.capabilities) "capabilities are required"
      check_each validate_capability m.capabilities
      refuse_if (is_nil m.triggers && is_nil m.actions) "triggers are required"
      check_each validate_trigger m.triggers
      refuse_if (is_nil m.surfaces && is_nil m.actions) "surfaces are required"
      validate_surfaces m.surfaces

    abbrev pub is_incomplete : Resource → Bool
    is_incomplete r = is_blank r.name || is_blank r.purpose || is_blank r.source

    abbrev pub validate_records : Manifest → Result (Unit {0})
    validate_records m = do
      validate_json_object f m.config_schema
      refuse_if (is_nil m.audit_events) "audit events are required"
      check_each (λ event. refuse_if (is_blank event) "audit event is required") m.audit_events
      refuse_if (is_nil m.attribution) "attribution is required"
      check_each (λ r. refuse_if (is_incomplete r) "attribution name, use, and source are required")
          m.attribution

    -- `Manifest.Validate`.
    unfoldable pub validate_manifest : Manifest → Result (Unit {0})
    validate_manifest m = do
      validate_identity m
      validate_declarations m
      validate_permissions m.permissions
      validate_dispatch_mode m.dispatch
      check_each (validate_action m) m.actions
      validate_records m

    -- A nil reader is `none`.
    unfoldable pub read : Option String → Result Manifest
    read none = err (failure "manifest reader is required")
    read (some body) =
        labelled_error "decode manifest" (f.read_manifest (slice body 0 max_manifest_bytes))

    unfoldable pub decode_manifest : Option String → Result Manifest
    decode_manifest reader = do m ← read reader; validate_manifest m; ok m

    unfoldable pub decode_manifest_from_url : String → String → Result Manifest
    decode_manifest_from_url body url = do
      m ← read (some body)
      let fetched : Manifest = record m { source_kind = manifest_url; manifest_url = trim url }
      validate_manifest fetched
      ok fetched

    unfoldable pub decode_manifest_from_attachment : String → Result Manifest
    decode_manifest_from_attachment body = do
      m ← read (some body)
      let uploaded : Manifest = record m { source_kind = uploaded_file; manifest_url = "" }
      validate_manifest uploaded
      ok uploaded
