-- ===== src/Provider.antt =====
-- internal/llm/provider: the registry of providers and models (registry.go). The string types of the
-- source are texts here.
pub mod Models
pub mod Policy
pub mod Secret
pub mod Usage
mod Tests
use Prim.Native.String.{len}
use gigi_dc.Prelude.{
  String, ◌==◌, Bool, false, ◌&&◌, ◌||◌, not, Option, none, some, List, [], ◌∷◌, any, is_some, ltb,
  Error, failure, Result, ok, err, refuse_if, is_ok, ◌>>=◌, ◌>>◌, trim, is_blank, if◌then◌else◌,
}
use gigi_dc.Prelude.Maps.{lookup}
use gigi_dc.Prelude.Unicode.{Unicode, codes}

abbrev pub ProviderId : Type 0
ProviderId = String

abbrev pub Purpose : Type 0
Purpose = String

pub record ProviderSpec : Type 0 where
  pub id : ProviderId
  pub display_name : String
  pub supported_purposes : List Purpose

pub record Registry : Type 0 where
  pub specs : List (ProviderId × ProviderSpec)

abbrev pub all_purposes : List Purpose
all_purposes = "chat" ∷ "reasoning" ∷ "embedding" ∷ "routing" ∷ []

abbrev pub default_models : List (ProviderId × List (Purpose × String))
default_models =
    (
      "openai",
      ("chat", "gpt-5.4-mini")
          ∷ ("reasoning", "gpt-5.5")
          ∷ ("embedding", "text-embedding-3-small")
          ∷ ("routing", "gpt-5.4-mini")
          ∷ [],
    )
    ∷ (
      "anthropic",
      ("chat", "claude-sonnet-4-6")
          ∷ ("reasoning", "claude-sonnet-4-6")
          ∷ ("routing", "claude-haiku-4-5-20251001")
          ∷ [],
    )
    ∷ (
      "gemini",
      ("chat", "gemini-3.5-flash")
          ∷ ("reasoning", "gemini-3.1-pro-preview")
          ∷ ("embedding", "gemini-embedding-2")
          ∷ ("routing", "gemini-3.5-flash")
          ∷ [],
    )
    ∷ []

abbrev pub default_registry : Registry
default_registry = record {
  specs =
      (
        "openai",
        record { id = "openai"; display_name = "OpenAI"; supported_purposes = all_purposes },
      )
      ∷ (
        "anthropic",
        record {
          id = "anthropic";
          display_name = "Anthropic";
          supported_purposes = "chat" ∷ "reasoning" ∷ "routing" ∷ [];
        },
      )
      ∷ (
        "gemini",
        record { id = "gemini"; display_name = "Gemini"; supported_purposes = all_purposes },
      )
      ∷ (
        "custom",
        record { id = "custom"; display_name = "Custom"; supported_purposes = all_purposes },
      )
      ∷ [];
}

unfoldable pub spec : Registry → ProviderId → Option ProviderSpec
spec r id = lookup id r.specs

unfoldable pub validate_provider : Registry → ProviderId → Result (Unit {0})
validate_provider r id = refuse_if (not (is_some (lookup id r.specs))) "unknown provider"

unfoldable pub validate_purpose : Purpose → Result (Unit {0})
validate_purpose purpose = refuse_if (not (any (λ p. purpose == p) all_purposes)) "unknown purpose"

unfoldable pub validate_owner_type : String → Result (Unit {0})
validate_owner_type owner =
    refuse_if (not (owner == "guild") && not (owner == "user") && not (owner == "tenant"))
      "unknown owner type"

abbrev pub spec_supports : Purpose → Option ProviderSpec → Bool
spec_supports purpose none = false
spec_supports purpose (some s) =
    is_ok (validate_purpose purpose) && any (λ p. p == purpose) s.supported_purposes

unfoldable pub supports_purpose : Registry → ProviderId → Purpose → Bool
supports_purpose r id purpose = spec_supports purpose (lookup id r.specs)

abbrev pub model_for : Purpose → Option (List (Purpose × String)) → Option String
model_for purpose none = none
model_for purpose (some models) = lookup purpose models

unfoldable pub default_model : ProviderId → Purpose → Option String
default_model id purpose = model_for purpose (lookup id default_models)

unfoldable pub validate_model_id : Unicode → String → Result String
validate_model_id u raw = do
  refuse_if (is_blank raw) "model id is empty"
  refuse_if (ltb 160 (len (trim raw))) "model id is too long"
  refuse_if (any u.is_control (codes (trim raw))) "model id contains control characters"
  ok (trim raw)
