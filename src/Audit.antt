-- ===== src/Audit.antt =====
-- internal/audit/event.go: audit events, their validation and the redaction of metadata.
-- A nil map is `none`; the entries of a map are listed in any order.
pub mod Redaction
mod Tests
use gigi_dc.Prelude.{
  String, ◌≡◌, Bool, true, false, ◌&&◌, ◌||◌, Option, none, some, List, [], ◌∷◌, map, ℕ, Result, ok,
  err, failure, refuse_if, ◌>>=◌, ◌>>◌, is_empty, is_blank, trim, any, not, if◌then◌else◌,
}
use gigi_dc.Prelude.Unicode.{Unicode, codes, has_prefix, contains_text}

pub data Status : Type 0 where
  allowed denied failed succeeded : Status
  -- any other value of the string type, the empty one included
  other_status : String → Status

abbrev pub Metadata : Type 0
Metadata = List (String × String)

pub record Event : Type 0 where
  pub kind : String
  pub guild_id : String
  pub actor_id : String
  pub status : Status
  pub reason : String
  pub metadata : Option Metadata
  pub request_id : String

abbrev pub redacted_metadata_value : String
redacted_metadata_value = "[REDACTED]"

abbrev pub valid_status : Status → Bool
valid_status (other_status s) = false
valid_status _ = true

-- A text contains one of the markers.
has_marker : List ℕ → List String → Bool
unfolding contains_text
has_marker value markers = any (λ marker. contains_text value (codes marker)) markers

has_secret_key_prefix : List ℕ → Bool
unfolding has_marker
has_secret_key_prefix value =
    has_prefix value (codes "sk-")
    || has_marker value (" sk-" ∷ "\tsk-" ∷ "\nsk-" ∷ "\"sk-" ∷ "'sk-" ∷ "=sk-" ∷ ":sk-" ∷ [])

abbrev pub sensitive_markers : List String
sensitive_markers =
    "api_key" ∷ "apikey" ∷ "authorization" ∷ "bearer " ∷ "client_secret" ∷ "provider_secret"
    ∷ "private_key" ∷ "refresh_token" ∷ "secret" ∷ "token" ∷ "x-api-key" ∷ []

-- The tests on a text that is trimmed and in lower case, and not empty.
unfoldable pub sensitive_lower : List ℕ → Bool
unfolding has_secret_key_prefix has_marker
sensitive_lower lower = has_secret_key_prefix lower || has_marker lower sensitive_markers

module _ (u : Unicode) where
  unfoldable pub is_sensitive_metadata : String → Bool
  is_sensitive_metadata value =
      if is_blank value then false else sensitive_lower (map u.to_lower (codes (trim value)))

  unfoldable pub sanitize_entries : Metadata → Metadata
  unfolding is_sensitive_metadata
  sanitize_entries [] = []
  sanitize_entries ((key, value) ∷ rest) =
      let cleaned = sanitize_entries rest in
      if is_sensitive_metadata key
      then cleaned
      else if is_sensitive_metadata value
      then (key, redacted_metadata_value) ∷ cleaned
      else (key, value) ∷ cleaned

  unfoldable pub sanitize_metadata : Option Metadata → Option Metadata
  unfolding sanitize_entries
  sanitize_metadata none = none
  sanitize_metadata (some metadata) = some (sanitize_entries metadata)

  -- The loop of `Validate` over the metadata.
  pub any_sensitive : Option Metadata → Bool
  unfolding is_sensitive_metadata
  any_sensitive none = false
  any_sensitive (some metadata) =
      any (λ (e : String × String). is_sensitive_metadata e.0 || is_sensitive_metadata e.1) metadata

  unfoldable pub validate : Event → Result (Unit {0})
  unfolding any_sensitive
  validate e = do
    refuse_if (is_blank e.kind) "audit kind is required"
    refuse_if (is_blank e.actor_id) "audit actor ID is required"
    refuse_if (not (valid_status e.status)) "audit status is required"
    refuse_if (any_sensitive e.metadata) "sensitive metadata is not allowed"
