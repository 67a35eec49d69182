-- ===== src/Agent/Web/Fetched.antt =====
-- internal/agent/web_tools.go: what a fetch that succeeds has done, and the limit of a search.
use Prim.Native.String.{len, slice}
use gigi_dc.Prelude.{
  refl, ℕ, ◌≤◌, ◌<◌, ◌≡◌, String, Bool, true, not, Option, none, some, [], Result, ok,
  labelled_error, ◌>>=◌, ◌++◌, ◌⊎◌, bind_ok, refuse_ok, labelled_ok, ok_eq, subst, trim, is_blank,
  ltb, eqb, arith, inl, inr, Bool-cases, len-slice-le, or_else, if◌then◌else◌,
}
use gigi_dc.Prelude.Maps.{lookup}
use gigi_dc.Agent.{ToolCall, ToolResult}
use gigi_dc.Agent.Trace.{value_at}
use gigi_dc.Agent.Web.{Url, NetLibrary, HostResolver, parse_safe_web_url}
use gigi_dc.Agent.Web.Public.{IsSafeUrl, parse_safe_web_url-IsSafeUrl}
use gigi_dc.Agent.Web.Fetch.{
  HttpResponse, ContentLibrary, default_web_fetch_chars, cut_text, allowed_web_content_type,
  read_response, with_scheme, web_fetch_execute, positive_or, parse_web_limit,
  max_web_response_bytes,
}

-- The whole of a text of at most 10000 bytes, or what fits into the first 10000 bytes of a longer one, and the
-- mark.
abbrev pub IsExcerpt : String → String → Type 0
IsExcerpt text content =
    ((len text ≤ 10000) × (content ≡ text))
    ⊎ ((10000 < len text)
        × ((len (slice text 0 10000) ≤ 10000)
            × (content ≡ slice text 0 10000 ++ "\n... [TRUNCATED] ...")))

cut_text-IsExcerpt :
    (text : String) (truncated : Bool) → IsExcerpt text ((cut_text text truncated).0)
cut_text-IsExcerpt text truncated = elim (Bool-cases (ltb default_web_fetch_chars (len text))) [
  | inl b ↦ inr (ground (arith, b), (len-slice-le text 10000, rw b refl))
  | inr b ↦ inl (ground (arith, b), rw b refl)
]

-- What a fetch shows of a response: an excerpt of the text that its first MiB gives.
abbrev pub IsShown : ContentLibrary → HttpResponse → String → Type 0
IsShown c r content =
    (text : String) × ((c.html_to_text (slice r.body 0 1048576) ≡ ok text) × IsExcerpt text content)

module _ (c : ContentLibrary) where
  read_response-IsShown :
      (r : HttpResponse) (fetched : String × Bool)
      → read_response c r ≡ ok fetched
      → (eqb r.status_code 200 ≡ true)
        × ((allowed_web_content_type c r.content_type ≡ true) × IsShown c r (fetched.0))
  unfolding read_response
  read_response-IsShown r fetched h =
      let status =
        refuse_ok (not (eqb r.status_code 200)) "fetch returned another status" _ fetched h in
      let kind =
        refuse_ok (not (allowed_web_content_type c r.content_type)) "unsupported content type" _
          fetched status.1 in
      let read =
        bind_ok (c.html_to_text (slice r.body 0 max_web_response_bytes)) _ fetched kind.1 in
      (
        ground (arith, status.0),
        (
          ground (arith, kind.0),
          (
            read.0,
            (
              read.1.0,
              subst (λ x. IsExcerpt read.0 (x.0)) (ok_eq _ fetched read.1.1)
                  (cut_text-IsExcerpt read.0 _),
            ),
          ),
        ),
      )

  -- A fetch that succeeds asked for the URL that the call's address, with a scheme, parses to, which is safe, was answered with status 200 and a content type that is allowed, and shows the text of the first 1048576 bytes of the body: all of it if it has at most 10000 bytes, and else what fits into its first 10000 bytes and the mark of the cut.
  pub web_fetch_execute-IsSafeUrl :
      (lib : NetLibrary) (resolver : HostResolver) (n : ℕ) (request : Url → Result HttpResponse)
      (call : ToolCall) (result : ToolResult)
      → web_fetch_execute c lib resolver n request call ≡ ok result
      → (u : Url) × (((parse_safe_web_url lib resolver n
                (with_scheme (trim (value_at "url" call.args)))
              ≡ ok u)
            × IsSafeUrl lib resolver n u)
          × ((r : HttpResponse) × ((request u ≡ ok r)
                × ((eqb r.status_code 200 ≡ true)
                    × ((allowed_web_content_type c r.content_type ≡ true)
                        × IsShown c r (value_at "content" (or_else result.results [])))))))
  unfolding web_fetch_execute lookup
  web_fetch_execute-IsSafeUrl lib resolver n request call result h =
      let named = refuse_ok (is_blank (value_at "url" call.args)) "url is required" _ result h in
      let target =
        bind_ok
          (labelled_error "web fetch failed"
            (parse_safe_web_url lib resolver n (with_scheme (trim (value_at "url" call.args)))))
          _ result named.1 in
      let parsed = labelled_ok "web fetch failed" _ target.0 target.1.0 in
      let fetched =
        bind_ok (labelled_error "web fetch failed" (request target.0 >>= read_response c)) _ result
          target.1.1 in
      let answered =
        bind_ok (request target.0) (read_response c) fetched.0
          (labelled_ok "web fetch failed" _ fetched.0 fetched.1.0) in
      let read = read_response-IsShown answered.0 fetched.0 answered.1.1 in
      (
        target.0,
        (
          (parsed, parse_safe_web_url-IsSafeUrl lib resolver n _ target.0 parsed),
          (
            answered.0,
            (
              answered.1.0,
              (
                read.0,
                (
                  read.1.0,
                  subst (λ x. IsShown c answered.0 (value_at "content" (or_else x.results [])))
                      (ok_eq _ result fetched.1.1) read.1.1,
                ),
              ),
            ),
          ),
        ),
      )

  -- The limit of a search is at least 1 and at most the given one, where the fallback is.
  parse_web_limit-le :
      (raw : String) (fallback most : ℕ)
      → 0 < fallback
      → fallback ≤ most
      → (0 < parse_web_limit c raw fallback most) × (parse_web_limit c raw fallback most ≤ most)
  unfolding parse_web_limit
  parse_web_limit-le raw fallback most p l = within (c.atoi (trim raw))
    where
      within :
          (o : Option ℕ)
          → (0 < (
              if ltb most (positive_or c fallback o)
              then most
              else if eqb (positive_or c fallback o) 0
              then fallback
              else positive_or c fallback o))
            × ((if ltb most (positive_or c fallback o)
                  then most
                  else if eqb (positive_or c fallback o) 0
                  then fallback
                  else positive_or c fallback o)
                ≤ most)
      within none = ground (arith, p, l)
      within (some v) = ground (arith, p, l)
