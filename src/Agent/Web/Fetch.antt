-- ===== src/Agent/Web/Fetch.antt =====
-- internal/agent/web_tools.go: what the web tools make of a call. The request itself, the parsing of
-- HTML and the providers' own requests are arguments. A text is cut before a character that does not
-- fit.
use Prim.Native.String.{len, slice}
use gigi_dc.Prelude.{
  ℕ, suc, String, ◌++◌, ◌==◌, Bool, true, false, ◌||◌, not, Option, none, some, List, [], ◌∷◌, any,
  length, failure, Result, ok, err, refuse_if, labelled_error, ◌>>=◌, ◌>>◌, trim, is_empty,
  is_blank, ltb, eqb, itoa, if◌then◌else◌,
}
use gigi_dc.Prelude.Maps.{insert}
use gigi_dc.Prelude.Unicode.{codes, contains_text}
use gigi_dc.Audit.{Metadata}
use gigi_dc.Agent.{ToolCall, ToolResult}
use gigi_dc.Agent.Trace.{value_at}
use gigi_dc.Agent.Web.{Url, NetLibrary, HostResolver, parse_safe_web_url}

-- The status, the content type and at most one byte more than the limit of the body.
pub record HttpResponse : Type 0 where
  pub status_code : ℕ
  pub content_type : String
  pub body : String

-- `mime.ParseMediaType` in lower case, the text of an HTML document, and `strconv.Atoi`, with 0 for
-- a number below 1.
pub record ContentLibrary : Type 0 where
  pub parse_media_type : String → Result String
  pub html_to_text : String → Result String
  pub atoi : String → Option ℕ

abbrev pub max_web_response_bytes : ℕ
max_web_response_bytes = 1048576

abbrev pub default_web_fetch_chars : ℕ
default_web_fetch_chars = 10000

abbrev pub max_web_search_results : ℕ
max_web_search_results = 10

abbrev pub cut_mark : String
cut_mark = "\n... [TRUNCATED] ..."

abbrev pub bool_text : Bool → String
bool_text b = if b then "true" else "false"

unfoldable pub with_scheme : String → String
with_scheme url = if contains_text (codes url) (codes "://") then url else "https://" ++ url

abbrev pub text_types : List String
text_types =
    "text/html" ∷ "text/plain" ∷ "application/xhtml+xml" ∷ "application/xml" ∷ "text/xml" ∷ []

abbrev pub is_text_type : Result String → Bool
is_text_type (err e) = false
is_text_type (ok media_type) = any (λ t. t == media_type) text_types

abbrev pub cut_text : String → Bool → String × Bool
cut_text text truncated =
    if ltb default_web_fetch_chars (len text)
    then (slice text 0 default_web_fetch_chars ++ cut_mark, true)
    else (text, truncated)

module _ (c : ContentLibrary) where
  unfoldable pub allowed_web_content_type : String → Bool
  allowed_web_content_type value = is_blank value || is_text_type (c.parse_media_type value)

  -- The part of `fetch` behind the request.
  unfoldable pub read_response : HttpResponse → Result (String × Bool)
  read_response r = do
    refuse_if (not (eqb r.status_code 200)) "fetch returned another status"
    refuse_if (not (allowed_web_content_type r.content_type)) "unsupported content type"
    let truncated = ltb max_web_response_bytes (len r.body)
    text ← c.html_to_text (slice r.body 0 max_web_response_bytes)
    ok (cut_text text truncated)

  unfoldable pub web_fetch_execute :
      NetLibrary → HostResolver → ℕ → (Url → Result HttpResponse) → ToolCall → Result ToolResult
  web_fetch_execute lib resolver n request call = do
    refuse_if (is_blank (value_at "url" call.args)) "url is required"
    target ←
        labelled_error "web fetch failed"
          (parse_safe_web_url lib resolver n (with_scheme (trim (value_at "url" call.args))))
    fetched ←
        labelled_error "web fetch failed" (do response ← request target; read_response response)
    ok record {
      name = "web.fetch";
      summary = "Fetched public content from " ++ target.text;
      results = some (
          ("url", target.text)
          ∷ ("content", fetched.0)
          ∷ ("truncated", bool_text (fetched.1))
          ∷ []);
    }

  abbrev pub positive_or : ℕ → Option ℕ → ℕ
  positive_or fallback none = fallback
  positive_or fallback (some value) = if ltb 0 value then value else fallback

  unfoldable pub parse_web_limit : String → ℕ → ℕ → ℕ
  parse_web_limit raw fallback most =
      let limit = positive_or fallback (c.atoi (trim raw)) in
      if ltb most limit then most else if eqb limit 0 then fallback else limit

pub record SearchResult : Type 0 where
  pub title : String
  pub url : String
  pub body : String

-- The results and the name of the provider, which is told with an error too.
abbrev pub SearchProvider : Type 0
SearchProvider = String → ℕ → Result (List SearchResult) × String

unfoldable pub fallback_search : Option SearchProvider → Option SearchProvider → SearchProvider
fallback_search none none query limit = (err (failure "web search provider is required"), "")
fallback_search none (some fallback) query limit = fallback query limit
fallback_search (some primary) none query limit = primary query limit
fallback_search (some primary) (some fallback) query limit =
    let second = fallback query limit in
    elim (primary query limit).0 [ ok results ↦ primary query limit | err e ↦ second ]

unfoldable pub result_lines : ℕ → List SearchResult → String
result_lines index [] = ""
result_lines index (r ∷ results) =
    let rest = result_lines (suc index) results in
    itoa index
    ++ (". [" ++ (r.title ++ ("](" ++ (r.url ++ (") - " ++ (r.body ++ ("\n" ++ rest)))))))

unfoldable pub result_data : ℕ → List SearchResult → Metadata → Metadata
result_data index [] found = found
result_data index (r ∷ results) found = result_data (suc index) results (
    insert ("snippet_" ++ itoa index) r.body
      (insert ("url_" ++ itoa index) r.url (insert ("title_" ++ itoa index) r.title found)))

-- `quote` is the verb `%q`.
unfoldable pub search_result : (String → String) → String → String → List SearchResult → ToolResult
search_result quote query provider [] = record {
  name = "web.search";
  summary = "No search results found for query: " ++ quote query;
  results = some (("count", "0") ∷ ("provider", provider) ∷ []);
}
search_result quote query provider (r ∷ results) = record {
  name = "web.search";
  summary = "Search results for " ++ (quote query ++ (":\n" ++ result_lines 1 (r ∷ results)));
  results = some (
      result_data 1 (r ∷ results)
        (("count", itoa (suc (length results))) ∷ ("provider", provider) ∷ []));
}

unfoldable pub web_search_execute :
    ContentLibrary → (String → String) → SearchProvider → ToolCall → Result ToolResult
web_search_execute c quote search call =
    let query = trim (value_at "query" call.args) in
    let limit = parse_web_limit c (value_at "limit" call.args) 5 max_web_search_results in
    if is_empty query then err (failure "search query is required") else (do
      results ← labelled_error (search query limit).1 ((search query limit).0)
      ok (search_result quote query ((search query limit).1) results))
