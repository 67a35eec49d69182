-- ===== src/Config.antt =====
-- internal/config/config.go: the configuration. What `os.Getenv` gives for a name, `strings.ToLower`
-- and the base64 decoding are arguments. The settings from `env` on are passed on without any test.
pub mod Usable
mod Tests
use gigi_dc.Prelude.{
  ℕ, String, ◌==◌, Bool, true, false, ◌&&◌, ◌||◌, not, Option, none, some, List, Result, ok, err,
  refuse_if, labelled_error, ◌>>=◌, ◌>>◌, trim, is_empty, eqb, length, if◌then◌else◌,
}
use gigi_dc.Prelude.Unicode.{codes, has_prefix, contains_text}

pub record Config : Type 0 where
  pub http_addr : String
  pub database_url : String
  pub discord_enabled : Bool
  pub discord_token : String
  pub discord_client_id : String
  pub llm_secret_key_base64 : String
  pub llm_secret_key_id : String
  pub web_search_provider : String
  pub web_search_fallback_provider : String
  pub brave_search_api_key : String
  pub searxng_base_url : String
  pub env : String
  pub migrations_dir : String
  pub discord_sync_commands : Bool
  pub discord_guild_id : String
  pub open_ai_api_key : String

abbrev or_fallback : String → String → String
or_fallback value fallback = if is_empty value then fallback else value

-- The provider that is chosen where none is named.
unfoldable pub default_search_provider : String → String → String
default_search_provider brave_key searxng_url =
    if not (is_empty brave_key)
    then "brave"
    else if not (is_empty searxng_url)
    then "searxng"
    else "duckduckgo"

module _ (getenv : String → String) (to_lower : String → String) where
  unfoldable pub env_or_default : String → String → String
  env_or_default key fallback = or_fallback (trim (getenv key)) fallback

  unfoldable pub bool_env : String → Bool
  bool_env key =
      let value = to_lower (trim (getenv key)) in
      value == "1" || value == "true" || value == "yes" || value == "on"

  unfoldable pub read_config : Config
  read_config =
      let brave_key = trim (getenv "BRAVE_SEARCH_API_KEY") in
      let searxng_url = trim (getenv "SEARXNG_BASE_URL") in
      record {
        http_addr = env_or_default "GIGI_HTTP_ADDR" ":8080";
        database_url = trim (getenv "GIGI_DATABASE_URL");
        discord_enabled = bool_env "GIGI_DISCORD_ENABLED";
        discord_token = trim (getenv "DISCORD_TOKEN");
        discord_client_id = trim (getenv "DISCORD_CLIENT_ID");
        llm_secret_key_base64 = trim (getenv "GIGI_LLM_SECRET_KEY_BASE64");
        llm_secret_key_id = env_or_default "GIGI_LLM_SECRET_KEY_ID" "local-v1";
        web_search_provider =
            or_fallback (to_lower (trim (getenv "GIGI_WEB_SEARCH_PROVIDER")))
              (default_search_provider brave_key searxng_url);
        web_search_fallback_provider = to_lower (trim (getenv "GIGI_WEB_SEARCH_FALLBACK"));
        brave_search_api_key = brave_key;
        searxng_base_url = searxng_url;
        env = env_or_default "GIGI_ENV" "development";
        migrations_dir = env_or_default "GIGI_MIGRATIONS_DIR" "db/migrations";
        discord_sync_commands = bool_env "GIGI_DISCORD_SYNC_COMMANDS";
        discord_guild_id = trim (getenv "GIGI_DISCORD_GUILD_ID");
        open_ai_api_key = trim (getenv "OPENAI_API_KEY");
      }

unfoldable pub check_search : Config → Result (Unit {0})
check_search c =
    let provider = c.web_search_provider in
    let fallback = c.web_search_fallback_provider in
    (do
      refuse_if
          (not (provider == "duckduckgo")
            && not (provider == "brave")
            && not (provider == "searxng"))
          "GIGI_WEB_SEARCH_PROVIDER must be duckduckgo, brave, or searxng"
      refuse_if
          (not (is_empty fallback) && not (fallback == "duckduckgo") && not (fallback == "searxng"))
          "GIGI_WEB_SEARCH_FALLBACK must be blank, duckduckgo, or searxng"
      refuse_if
          (provider == "brave"
            && is_empty c.brave_search_api_key
            && not (fallback == "duckduckgo")
            && not (fallback == "searxng"))
          "BRAVE_SEARCH_API_KEY is required when GIGI_WEB_SEARCH_PROVIDER is brave without search fallback"
      refuse_if
          (provider == "searxng" && is_empty c.searxng_base_url && not (fallback == "duckduckgo"))
          "SEARXNG_BASE_URL is required when GIGI_WEB_SEARCH_PROVIDER is searxng without duckduckgo fallback"
      refuse_if (fallback == "searxng" && is_empty c.searxng_base_url)
          "SEARXNG_BASE_URL is required when GIGI_WEB_SEARCH_FALLBACK is searxng")

unfoldable pub check_discord : Config → Result (Unit {0})
check_discord c =
    if c.discord_enabled
    then (do
      refuse_if (is_empty c.discord_token)
          "DISCORD_TOKEN is required when GIGI_DISCORD_ENABLED is true"
      refuse_if (is_empty c.discord_client_id)
          "DISCORD_CLIENT_ID is required when GIGI_DISCORD_ENABLED is true")
    else ok tt

unfoldable pub check_config : Config → Result Config
check_config c = do
  refuse_if (is_empty c.database_url) "GIGI_DATABASE_URL is required"
  check_search c
  refuse_if
      (not (has_prefix (codes c.http_addr) (codes ":"))
        && not (contains_text (codes c.http_addr) (codes ":")))
      "GIGI_HTTP_ADDR must include a port"
  check_discord c
  ok c

-- `Load`.
abbrev pub load : (String → String) → (String → String) → Result Config
load getenv to_lower = check_config (read_config getenv to_lower)

unfoldable pub decoded_llm_secret_key :
    (String → Result (List ℕ)) → Config → Result (Option (List ℕ))
decoded_llm_secret_key decode c =
    let value = trim c.llm_secret_key_base64 in
    if is_empty value then ok none else (do
      key ← labelled_error "GIGI_LLM_SECRET_KEY_BASE64 must be standard base64" (decode value)
      refuse_if (not (eqb (length key) 32))
          "GIGI_LLM_SECRET_KEY_BASE64 must decode to exactly 32 bytes"
      ok (some key))
