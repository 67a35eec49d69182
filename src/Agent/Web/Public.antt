-- ===== src/Agent/Web/Public.antt =====
-- internal/agent/web_tools.go: the addresses that a fetch can reach.
use gigi_dc.Prelude.{
  ℕ, suc, ◌+◌, ◌≤◌, ◌≡◌, refl, String, ◌==◌, true, false, ◌&&◌, ◌||◌, not, List, [], ◌∷◌, All,
  Result, ok, err, refuse_if, check_each, ◌>>◌, bind_ok, refuse_ok, ok_eq, subst, trim, is_empty,
  is_nil, leb, length, arith, inl, inr, ◌⊎◌, Bool-cases,
}
use gigi_dc.Agent.Web.{
  Ip, Url, NetLibrary, HostResolver, normalized_host, is_local_name, is_blocked_ip, refuse_blocked,
  validate_addresses, parse_trusted_search_url, validate_public_host, parse_safe_web_url,
  check_redirect, first_public, dial_context,
}

module _ (lib : NetLibrary) (resolver : HostResolver) where
  abbrev IsOpen : Ip → Type 0
  IsOpen ip = is_blocked_ip lib ip ≡ false

  -- A host that is no local name, and is an open address or one that has open addresses only.
  abbrev pub IsPublicHost : ℕ → String → Type 0
  IsPublicHost n host =
      (is_local_name lib (normalized_host lib host) ≡ false)
      × (((is_nil (lib.parse_ip (normalized_host lib host)) ≡ false)
            × IsOpen (lib.parse_ip (normalized_host lib host)))
          ⊎ ((ips : List Ip) × ((resolver n host ≡ ok ips)
                × ((is_nil ips ≡ false) × All IsOpen ips))))

  check_each-IsOpen :
      (host : String) (ips : List Ip)
      → check_each (refuse_blocked lib host) ips ≡ ok tt
      → All IsOpen ips
  check_each-IsOpen host [] h = tt
  check_each-IsOpen host (ip ∷ ips) h = elim (Bool-cases (is_blocked_ip lib ip)) [
    | inl b ↦ absurd (ground (arith, b, h))
    | inr b ↦ (b, check_each-IsOpen host ips (ground (arith, b, h)))
  ]

  validate_addresses-IsOpen :
      (host : String) (answer : Result (List Ip))
      → validate_addresses lib host answer ≡ ok tt
      → (ips : List Ip) × ((answer ≡ ok ips) × ((is_nil ips ≡ false) × All IsOpen ips))
  unfolding validate_addresses
  validate_addresses-IsOpen host (err e) h = cc
  validate_addresses-IsOpen host (ok []) h = cc
  validate_addresses-IsOpen host (ok (ip ∷ ips)) h =
      (ip ∷ ips, (refl, (refl, check_each-IsOpen host (ip ∷ ips) h)))

  validate_public_host-IsPublicHost :
      (n : ℕ) (host : String)
      → validate_public_host lib resolver n host ≡ ok tt
      → IsPublicHost n host
  unfolding validate_public_host
  validate_public_host-IsPublicHost n host h =
      elim (Bool-cases (is_local_name lib (normalized_host lib host))) [
        | inl b ↦ absurd (ground (arith, b, h))
        | inr b ↦ (
          b,
          elim (Bool-cases (is_nil (lib.parse_ip (normalized_host lib host)))) [
            | inl name ↦
                inr (validate_addresses-IsOpen host (resolver n host) (ground (arith, b, name, h)))
            | inr literal ↦ inl (literal, ground (arith, b, literal, h))
          ],
        )
      ]

  -- The URLs that a fetch admits have a web scheme, no user information and a public host.
  abbrev pub IsSafeUrl : ℕ → Url → Type 0
  IsSafeUrl n u =
      ((u.scheme == "http" || u.scheme == "https") ≡ true)
      × ((u.has_user ≡ false) × ((is_empty u.hostname ≡ false) × IsPublicHost n u.hostname))

  first_public-IsOpen :
      (host : String) (ips : List Ip) (ip : Ip)
      → first_public lib resolver host ips ≡ ok ip
      → IsOpen ip
  unfolding first_public
  first_public-IsOpen host [] ip h = cc
  first_public-IsOpen host (x ∷ ips) ip h = elim (Bool-cases (is_blocked_ip lib x)) [
    | inl b ↦ first_public-IsOpen host ips ip (ground (arith, b, h))
    | inr b ↦ subst IsOpen (ok_eq x ip (ground (arith, b, h))) b
  ]

  url_tests :
      (w v : Url)
      → (refuse_if (not (w.scheme == "http") && not (w.scheme == "https")) "unsupported scheme"
          >> (refuse_if w.has_user "userinfo is not allowed"
              >> (refuse_if (is_empty w.hostname) "host is required" >> ok w)))
        ≡ ok v
      → ((v.scheme == "http" || v.scheme == "https") ≡ true)
        × ((v.has_user ≡ false) × (is_empty v.hostname ≡ false))
  url_tests w v h =
      let scheme =
        refuse_ok (not (w.scheme == "http") && not (w.scheme == "https")) "unsupported scheme" _ v
          h in
      let user = refuse_ok w.has_user "userinfo is not allowed" _ v scheme.1 in
      let host = refuse_ok (is_empty w.hostname) "host is required" _ v user.1 in
      subst
        (λ x.
          ((x.scheme == "http" || x.scheme == "https") ≡ true)
          × ((x.has_user ≡ false) × (is_empty x.hostname ≡ false)))
        (ok_eq w v host.1) (ground (arith, scheme.0), (user.0, host.0))

  -- A URL that a fetch admits has a web scheme, no user information and a public host: its name is not local, and it is an address that is not blocked, or its lookup gave addresses and none of them is blocked.
  pub parse_safe_web_url-IsSafeUrl :
      (n : ℕ) (raw : String) (u : Url)
      → parse_safe_web_url lib resolver n raw ≡ ok u
      → IsSafeUrl n u
  unfolding parse_safe_web_url parse_trusted_search_url
  parse_safe_web_url-IsSafeUrl n raw u h =
      let trusted = bind_ok (parse_trusted_search_url lib raw) _ u h in
      let validated =
        bind_ok (validate_public_host lib resolver n trusted.0.hostname) _ u trusted.1.1 in
      let parsed = bind_ok (lib.parse_url (trim raw)) _ trusted.0 trusted.1.0 in
      let tests = url_tests parsed.0 trusted.0 parsed.1.1 in
      subst (IsSafeUrl n) (ok_eq trusted.0 u validated.1.1) (
        tests.0,
        (
          tests.1.0,
          (tests.1.1, validate_public_host-IsPublicHost n trusted.0.hostname validated.1.0),
        ),
      )

  -- The address that a fetch dials is not blocked, and its host was public when it was validated, whatever the lookups of one host answer one after the other.
  pub dial_context-IsOpen :
      (n : ℕ) (address : String) (ip : Ip) (port : String)
      → dial_context lib resolver n address ≡ ok (ip, port)
      → IsOpen ip
        × ((host : String) × ((lib.split_host_port address ≡ ok (host, port))
              × IsPublicHost n host))
  unfolding dial_context
  dial_context-IsOpen n address ip port h =
      let parts = bind_ok (lib.split_host_port address) _ (ip, port) h in
      let validated =
        bind_ok (validate_public_host lib resolver n (parts.0.0)) _ (ip, port) parts.1.1 in
      let looked = bind_ok (resolver (suc n) (parts.0.0)) _ (ip, port) validated.1.1 in
      let chosen =
        bind_ok (first_public lib resolver (parts.0.0) looked.0) _ (ip, port) looked.1.1 in
      let same = ok_eq (chosen.0, parts.0.1) (ip, port) chosen.1.1 in
      (
        subst (λ x. IsOpen (x.0)) same
            (first_public-IsOpen (parts.0.0) looked.0 chosen.0 chosen.1.0),
        (
          parts.0.0,
          (
            subst (λ x. lib.split_host_port address ≡ ok (parts.0.0, x.1)) same parts.1.0,
            validate_public_host-IsPublicHost n (parts.0.0) validated.1.0,
          ),
        ),
      )

  -- The calls of `CheckRedirect` for a chain of redirects, after some requests.
  abbrev pub check_redirects : ℕ → ℕ → List Url → Result (Unit {0})
  check_redirects n via [] = ok tt
  check_redirects n via (target ∷ targets) =
      check_redirect lib resolver n via target >> check_redirects (suc n) (suc via) targets

  abbrev pub AllSafe : ℕ → List Url → Type 0
  AllSafe n [] = Unit
  AllSafe n (target ∷ targets) =
      ((u : Url) × ((parse_safe_web_url lib resolver n target.text ≡ ok u) × IsSafeUrl n u))
      × AllSafe (suc n) targets

  -- A chain of redirects that is followed after at most 5 requests makes no more than 5 requests with them, and each of its URLs is one that a fetch admits.
  pub check_redirects-AllSafe :
      (n via : ℕ) (targets : List Url)
      → via ≤ 5
      → check_redirects n via targets ≡ ok tt
      → (via + length targets ≤ 5) × AllSafe n targets
  unfolding check_redirect
  check_redirects-AllSafe n via [] l h = (omega (arith, l), tt)
  check_redirects-AllSafe n via (target ∷ targets) l h =
      let here = bind_ok (check_redirect lib resolver n via target) _ tt h in
      let few = refuse_ok (leb 5 via) "too many redirects" _ here.0 here.1.0 in
      let safe = bind_ok (parse_safe_web_url lib resolver n target.text) _ here.0 few.1 in
      let rest =
        check_redirects-AllSafe (suc n) (suc via) targets (ground (arith, few.0)) here.1.1 in
      (
        omega (arith, rest.0),
        ((safe.0, (safe.1.0, parse_safe_web_url-IsSafeUrl n target.text safe.0 safe.1.0)), rest.1),
      )
