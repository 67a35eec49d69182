-- ===== src/Config/Tests.antt =====
-- Configurations that load, and a secret sealed with the key of one.
use gigi_dc.Prelude.{◌>>=◌, String, ◌==◌, ◌≡◌, refl, none, [], ◌∷◌, ok, trim, if◌then◌else◌}
use gigi_dc.Prelude.Unicode.{has_prefix}
use gigi_dc.Config.{
  Config, read_config, check_config, check_search, check_discord, env_or_default, bool_env,
  default_search_provider, decoded_llm_secret_key,
}
use gigi_dc.Config.Usable.{IsUsable, load-IsUsable}
use gigi_dc.Provider.Secret.{Bytes, Aead, new_aesgcm_sealer, seal, open_sealed}
use gigi_dc.Provider.Secret.Opened.{configured_seal_then_open}

abbrev getenv : String → String
getenv name =
    if name == "GIGI_DATABASE_URL"
    then " postgres://db "
    else if name == "GIGI_WEB_SEARCH_PROVIDER"
    then "brave"
    else if name == "GIGI_WEB_SEARCH_FALLBACK"
    then "duckduckgo"
    else if name == "GIGI_LLM_SECRET_KEY_BASE64"
    then "k"
    else ""

abbrev same : String → String
same s = s

abbrev loaded : Config
loaded = read_config getenv same

load-IsUsable_example : IsUsable loaded
unfolding trim read_config check_config check_search check_discord env_or_default bool_env
    default_search_provider has_prefix
load-IsUsable_example = load-IsUsable getenv same loaded refl

abbrev eight : Bytes
eight = 1 ∷ 2 ∷ 3 ∷ 4 ∷ 5 ∷ 6 ∷ 7 ∷ 8 ∷ []

abbrev key : Bytes
key =
    1 ∷ 2 ∷ 3 ∷ 4 ∷ 5 ∷ 6 ∷ 7 ∷ 8 ∷ 1 ∷ 2 ∷ 3 ∷ 4 ∷ 5 ∷ 6 ∷ 7 ∷ 8 ∷ 1 ∷ 2 ∷ 3 ∷ 4 ∷ 5 ∷ 6 ∷ 7 ∷ 8
    ∷ 1 ∷ 2 ∷ 3 ∷ 4 ∷ 5 ∷ 6 ∷ 7 ∷ 8 ∷ []

-- A cipher that changes nothing.
abbrev plain : Aead
plain = record {
  nonce_size = 8;
  seal_bytes = λ nonce plaintext aad. plaintext;
  open_bytes = λ nonce ciphertext aad. ok ciphertext;
}

configured_seal_then_open_example :
    (do
      s ← new_aesgcm_sealer (λ k. ok k) (λ b. ok plain) key loaded.llm_secret_key_id
      sealed ← seal none (λ n. ok eight) s (7 ∷ 9 ∷ []) []
      open_sealed none s sealed [])
    ≡ ok (7 ∷ 9 ∷ [])
unfolding trim read_config check_config check_search check_discord env_or_default bool_env
    default_search_provider has_prefix decoded_llm_secret_key
configured_seal_then_open_example =
    configured_seal_then_open getenv same (λ s. ok key) (λ k. ok k) (λ b. ok plain) (λ n. ok eight)
      loaded key key plain eight (7 ∷ 9 ∷ []) [] refl refl refl refl
      (λ nonce plaintext aad. (refl, λ full. full)) refl refl refl
