-- ===== src/Config/Usable.antt =====
-- internal/config/config.go: what a configuration that loads gives to the rest of the program.
use gigi_dc.Prelude.{
  ℕ, String, ◌==◌, ◌≡◌, refl, Bool, true, false, ◌&&◌, ◌||◌, not, some, List, ok, ok_eq, Result,
  refuse_ok, bind_ok, labelled_error, refuse_if, ◌>>=◌, ◌>>◌, trim, trim-trim, is_empty, is_blank,
  eqb, length, arith, subst, Bool-cases, inl, inr,
}
use gigi_dc.Config.{
  Config, load, check_config, check_search, check_discord, read_config, env_or_default,
  decoded_llm_secret_key,
}

-- A provider of searches that has what it needs.
abbrev pub can_search : Config → String → Bool
can_search c provider =
    provider == "duckduckgo"
    || (provider == "brave" && not (is_empty c.brave_search_api_key))
    || (provider == "searxng" && not (is_empty c.searxng_base_url))

abbrev pub IsUsable : Config → Type 0
IsUsable c =
    (is_empty c.database_url ≡ false)
    × (((can_search c c.web_search_provider || can_search c c.web_search_fallback_provider) ≡ true)
        × (((is_empty c.web_search_fallback_provider || can_search c c.web_search_fallback_provider)
              ≡ true)
            × ((not c.discord_enabled
                  || not (is_empty c.discord_token || is_empty c.discord_client_id))
                ≡ true)))

some_eq : {A : Type 0} (a b : A) → some a ≡ some b → a ≡ b
some_eq a b h = cc

check_search-CanSearch :
    (c : Config)
    → check_search c ≡ ok tt
    → ((can_search c c.web_search_provider || can_search c c.web_search_fallback_provider) ≡ true)
      × ((is_empty c.web_search_fallback_provider || can_search c c.web_search_fallback_provider)
          ≡ true)
unfolding check_search
check_search-CanSearch c h = ground (arith, h)

check_discord-CanConnect :
    (c : Config)
    → check_discord c ≡ ok tt
    → (not c.discord_enabled || not (is_empty c.discord_token || is_empty c.discord_client_id))
      ≡ true
unfolding check_discord
check_discord-CanConnect c h = ground (arith, h)

check_config-IsUsable : (x c : Config) → check_config x ≡ ok c → (x ≡ c) × IsUsable x
unfolding check_config
check_config-IsUsable x c h =
    let named = refuse_ok (is_empty x.database_url) "GIGI_DATABASE_URL is required" _ c h in
    let search = bind_ok (check_search x) _ c named.1 in
    let port = refuse_ok _ "GIGI_HTTP_ADDR must include a port" _ c search.1.1 in
    let discord = bind_ok (check_discord x) _ c port.1 in
    let found = check_search-CanSearch x search.1.0 in
    (ok_eq x c discord.1.1, (named.0, (found.0, (found.1, check_discord-CanConnect x discord.1.0))))

-- A configuration that loads names a database, has a provider of searches or a fallback with what it needs, has no fallback without it, and where Discord is enabled has a token and a client.
pub load-IsUsable :
    (getenv to_lower : String → String) (c : Config) → load getenv to_lower ≡ ok c → IsUsable c
load-IsUsable getenv to_lower c h =
    let checked = check_config-IsUsable (read_config getenv to_lower) c h in
    subst IsUsable checked.0 checked.1

decoded_key-length :
    (r : Result (List ℕ)) (key : List ℕ)
    → (do
      raw ← r
      refuse_if
          (not (eqb (length raw) 32))
          "GIGI_LLM_SECRET_KEY_BASE64 must decode to exactly 32 bytes"
      ok (some raw))
      ≡ ok (some key)
    → length key ≡ 32
decoded_key-length r key h =
    let read = bind_ok r _ (some key) h in
    let sized = refuse_ok (not (eqb (length read.0) 32)) _ _ (some key) read.1.1 in
    let n : length read.0 ≡ 32 = ground (arith, sized.0) in
    subst (λ x. length x ≡ 32) (some_eq read.0 key (ok_eq (some read.0) (some key) sized.1)) n

-- A key that decodes has 32 bytes.
pub decoded_llm_secret_key-length :
    (decode : String → Result (List ℕ)) (c : Config) (key : List ℕ)
    → decoded_llm_secret_key decode c ≡ ok (some key)
    → length key ≡ 32
unfolding decoded_llm_secret_key
decoded_llm_secret_key-length decode c key h =
    elim (Bool-cases (is_blank c.llm_secret_key_base64)) [
      | inl b ↦ ground (arith, h, b)
      | inr b ↦
          decoded_key-length
            (labelled_error "GIGI_LLM_SECRET_KEY_BASE64 must be standard base64"
              (decode (trim c.llm_secret_key_base64)))
            key (rw b at h)
    ]

env_or_default-named :
    (getenv to_lower : String → String) (name fallback : String)
    → is_blank fallback ≡ false
    → is_blank (env_or_default getenv to_lower name fallback) ≡ false
unfolding env_or_default
env_or_default-named getenv to_lower name fallback f = elim (Bool-cases (is_blank (getenv name))) [
  | inl b ↦ rw b f
  | inr b ↦ rw (b, trim-trim (getenv name)) b
]

-- The identifier of the key of a configuration that loads is not blank.
pub load-named_key :
    (getenv to_lower : String → String) (c : Config)
    → load getenv to_lower ≡ ok c
    → is_blank c.llm_secret_key_id ≡ false
unfolding trim read_config
load-named_key getenv to_lower c h =
    let checked = check_config-IsUsable (read_config getenv to_lower) c h in
    subst (λ x. is_blank x.llm_secret_key_id ≡ false) checked.0
      (env_or_default-named getenv to_lower "GIGI_LLM_SECRET_KEY_ID" "local-v1" refl)
