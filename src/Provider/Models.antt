-- ===== src/Provider/Models.antt =====
-- internal/llm/provider/registry.go: the default models and the purposes that the registry lists.
use gigi_dc.Prelude.{
  String, ◌==◌, ◌≡◌, refl, eq_iff, ◌&&◌, not, is_some, arith, inl, inr, Bool-cases, subst, sym,
}
use gigi_dc.Prelude.Maps.{lookup}
use gigi_dc.Provider.{default_registry, default_model, supports_purpose, validate_purpose}

eq_flip : (a b : String) → (a == b) ≡ (b == a)
eq_flip a b = ground (arith, eq_iff a b, eq_iff b a)

-- One provider: its models and its purposes.
agree_openai :
    (purpose : String)
    → is_some (default_model "openai" purpose) ≡ supports_purpose default_registry "openai" purpose
unfolding default_model supports_purpose validate_purpose lookup
agree_openai purpose = ground (
  arith,
  eq_flip purpose "chat",
  eq_flip purpose "reasoning",
  eq_flip purpose "embedding",
  eq_flip purpose "routing",
)

agree_anthropic :
    (purpose : String)
    → is_some (default_model "anthropic" purpose)
      ≡ supports_purpose default_registry "anthropic" purpose
unfolding default_model supports_purpose validate_purpose lookup
agree_anthropic purpose = ground (
  arith,
  eq_flip purpose "chat",
  eq_flip purpose "reasoning",
  eq_flip purpose "embedding",
  eq_flip purpose "routing",
)

agree_gemini :
    (purpose : String)
    → is_some (default_model "gemini" purpose) ≡ supports_purpose default_registry "gemini" purpose
unfolding default_model supports_purpose validate_purpose lookup
agree_gemini purpose = ground (
  arith,
  eq_flip purpose "chat",
  eq_flip purpose "reasoning",
  eq_flip purpose "embedding",
  eq_flip purpose "routing",
)

abbrev Agrees : String → String → Type 0
Agrees purpose id =
    is_some (default_model id purpose)
    ≡ (supports_purpose default_registry id purpose && not (id == "custom"))

-- A provider of the registry that is not the custom one has a default model for exactly the purposes that it supports, and no other provider has any.
default_model-supports_purpose :
    (id purpose : String)
    → is_some (default_model id purpose)
      ≡ (supports_purpose default_registry id purpose && not (id == "custom"))
unfolding default_model supports_purpose validate_purpose lookup
default_model-supports_purpose id purpose = elim (Bool-cases (id == "openai")) [
  | inl b ↦
      subst (Agrees purpose) (sym ((eq_iff id "openai").0 b)) (ground (arith, agree_openai purpose))
  | inr o ↦ elim (Bool-cases (id == "anthropic")) [
    | inl b ↦
        subst (Agrees purpose) (sym ((eq_iff id "anthropic").0 b))
          (ground (arith, agree_anthropic purpose))
    | inr a ↦ elim (Bool-cases (id == "gemini")) [
      | inl b ↦
          subst (Agrees purpose) (sym ((eq_iff id "gemini").0 b))
            (ground (arith, agree_gemini purpose))
      | inr g ↦ elim (Bool-cases (id == "custom")) [
        | inl c ↦ rw (o, a, g, c) (ground arith)
        | inr c ↦ rw (o, a, g, c) refl
      ]
    ]
  ]
]
