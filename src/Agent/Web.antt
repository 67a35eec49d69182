-- ===== src/Agent/Web.antt =====
-- internal/agent/web_tools.go: which addresses and redirects the web tools admit. What Go's `net`,
-- `net/url`, `mime`, `strconv` and `strings` make of a text is `NetLibrary`; an address is its bytes,
-- none for nil. A resolver answers each lookup anew: its first argument is the number of the lookup.
pub mod Fetch
pub mod Public
pub mod Fetched
mod Tests
use Prim.Native.Char.{code}
use Prim.Native.String.{len, slice}
use gigi_dc.Prelude.{
  ℕ, suc, ◌+◌, ◌-◌, String, ◌++◌, ◌==◌, Bool, true, false, ◌&&◌, ◌||◌, not, Option, none, some,
  List, [], ◌∷◌, Error, failure, wrap, Result, ok, err, refuse_if, labelled_error, check_each,
  ◌>>=◌, ◌>>◌, trim, is_empty, is_nil, ltb, leb, eqb, if◌then◌else◌,
}

abbrev pub Ip : Type 0
Ip = List ℕ

-- `url.URL`: its scheme, `Hostname()`, whether it has user information, `Path` and `String()`.
pub record Url : Type 0 where
  pub scheme : String
  pub hostname : String
  pub has_user : Bool
  pub path : String
  pub text : String

pub record NetLibrary : Type 0 where
  pub parse_url : String → Result Url
  pub to_lower : String → String
  pub equal_fold : String → String → Bool
  pub parse_ip : String → Ip
  pub split_host_port : String → Result (String × String)
  pub is_loopback : Ip → Bool
  pub is_private : Ip → Bool
  pub is_link_local_unicast : Ip → Bool
  pub is_link_local_multicast : Ip → Bool
  pub is_multicast : Ip → Bool
  pub is_unspecified : Ip → Bool

abbrev pub HostResolver : Type 0
HostResolver = ℕ → String → Result (List Ip)

abbrev pub has_suffix : String → String → Bool
has_suffix value suffix =
    leb (len suffix) (len value) && slice value (len value - len suffix) (len value) == suffix

-- `strings.Trim(value, "[]")`.
abbrev pub is_bracket : ℕ → Bool
is_bracket c = eqb c b'[' || eqb c b']'

unfoldable pub trim_left_brackets : String → String
trim_left_brackets String.[] = ""
trim_left_brackets (String.◌∷◌ c s) =
    let rest = trim_left_brackets s in if is_bracket (code c) then rest else String.◌∷◌ c s

unfoldable pub trim_right_brackets : String → String
trim_right_brackets String.[] = ""
trim_right_brackets (String.◌∷◌ c s) =
    let rest = trim_right_brackets s in
    if is_bracket (code c) && is_empty rest then "" else String.◌∷◌ c rest

abbrev pub blocked_host : String → Error
blocked_host host = wrap host (failure "blocked host")

module _ (lib : NetLibrary) where
  unfoldable pub normalized_host : String → String
  normalized_host host = trim_right_brackets (trim_left_brackets (lib.to_lower host))

  unfoldable pub is_local_name : String → Bool
  is_local_name name =
      name == "localhost" || (has_suffix name ".localhost" || has_suffix name ".local")

  unfoldable pub is_blocked_ip : Ip → Bool
  is_blocked_ip ip =
      is_nil ip
      || lib.is_loopback ip
      || lib.is_private ip
      || lib.is_link_local_unicast ip
      || lib.is_link_local_multicast ip
      || lib.is_multicast ip
      || lib.is_unspecified ip

  abbrev pub refuse_blocked : String → Ip → Result (Unit {0})
  refuse_blocked host ip = if is_blocked_ip ip then err (blocked_host host) else ok tt

  unfoldable pub validate_addresses : String → Result (List Ip) → Result (Unit {0})
  validate_addresses host answer = do
    ips ← labelled_error "resolve host" answer
    refuse_if (is_nil ips) "resolve host: no addresses"
    check_each (refuse_blocked host) ips

  unfoldable pub parse_trusted_search_url : String → Result Url
  parse_trusted_search_url raw = do
    u ← lib.parse_url (trim raw)
    refuse_if (not (u.scheme == "http") && not (u.scheme == "https")) "unsupported scheme"
    refuse_if u.has_user "userinfo is not allowed"
    refuse_if (is_empty u.hostname) "host is required"
    ok u

  -- `CheckRedirect` of the client of the search providers; `via` is the number of requests made.
  unfoldable pub check_trusted_redirect : String → ℕ → Url → Result (Unit {0})
  check_trusted_redirect allowed_host via target = do
    refuse_if (leb 5 via) "too many redirects"
    parse_trusted_search_url target.text
    refuse_if (not (lib.equal_fold target.hostname allowed_host)) "redirect host is not allowed"

  module _ (resolver : HostResolver) where
    unfoldable pub validate_public_host : ℕ → String → Result (Unit {0})
    validate_public_host n host =
        if is_local_name (normalized_host host)
        then err (blocked_host host)
        else if not (is_nil (lib.parse_ip (normalized_host host)))
        then refuse_blocked host (lib.parse_ip (normalized_host host))
        else validate_addresses host (resolver n host)

    unfoldable pub parse_safe_web_url : ℕ → String → Result Url
    parse_safe_web_url n raw = do
      u ← parse_trusted_search_url raw
      validate_public_host n u.hostname
      ok u

    -- `CheckRedirect` of the client of `WebFetchTool`.
    unfoldable pub check_redirect : ℕ → ℕ → Url → Result (Unit {0})
    check_redirect n via target = do
      refuse_if (leb 5 via) "too many redirects"
      parse_safe_web_url n target.text
      ok tt

    unfoldable pub first_public : String → List Ip → Result Ip
    first_public host [] = err (blocked_host host)
    first_public host (ip ∷ ips) =
        let rest = first_public host ips in if is_blocked_ip ip then rest else ok ip

    -- `DialContext`: the address and port that are dialled. The host is looked up again after it was
    -- validated.
    unfoldable pub dial_context : ℕ → String → Result (Ip × String)
    dial_context n address = do
      parts ← lib.split_host_port address
      validate_public_host n (parts.0)
      ips ← resolver (suc n) (parts.0)
      ip ← first_public (parts.0) ips
      ok (ip, parts.1)

-- `strings.TrimRight(path, "/")`.
unfoldable pub trim_slashes : String → String
trim_slashes String.[] = ""
trim_slashes (String.◌∷◌ c s) =
    let rest = trim_slashes s in
    if eqb (code c) b'/' && is_empty rest then "" else String.◌∷◌ c rest

unfoldable pub search_path : String → String
search_path path =
    let clean = trim_slashes path in
    if is_empty clean
    then "/search"
    else if not (has_suffix clean "/search")
    then clean ++ "/search"
    else clean
