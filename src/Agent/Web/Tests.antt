-- ===== src/Agent/Web/Tests.antt =====
-- The web tools with one public address and one private one.
use gigi_dc.Prelude.{
  ◌+◌, ◌≤◌, ◌≡◌, refl, String, ◌==◌, Bool, true, false, some, [], ◌∷◌, Result, ok, eqb, length,
  trim, if◌then◌else◌, arith,
}
use gigi_dc.Prelude.Unicode.{contains_text}
use gigi_dc.Prelude.Maps.{lookup}
use gigi_dc.Agent.{ToolCall, ToolResult}
use gigi_dc.Agent.Trace.{value_at}
use gigi_dc.Agent.Web.{
  Ip, Url, NetLibrary, HostResolver, is_blocked_ip, dial_context, parse_safe_web_url,
  parse_trusted_search_url, validate_public_host, validate_addresses, first_public, is_local_name,
  normalized_host, trim_left_brackets, trim_right_brackets, check_redirect,
}
use gigi_dc.Agent.Web.Fetch.{
  HttpResponse, ContentLibrary, web_fetch_execute, read_response, allowed_web_content_type,
  with_scheme,
}
use gigi_dc.Agent.Web.Public.{
  IsPublicHost, IsSafeUrl, AllSafe, parse_safe_web_url-IsSafeUrl, dial_context-IsOpen,
  check_redirects-AllSafe,
}
use gigi_dc.Agent.Web.Fetched.{IsShown, web_fetch_execute-IsSafeUrl}

abbrev is_ten : Ip → Bool
is_ten [] = false
is_ten (a ∷ ip) = eqb a 10

abbrev lib : NetLibrary
lib = record {
  parse_url = λ text. ok record {
    scheme = "https";
    hostname = "example.org";
    has_user = false;
    path = "";
    text = text;
  };
  to_lower = λ text. text;
  equal_fold = λ a b. a == b;
  parse_ip = λ text. [];
  split_host_port = λ text. ok ("example.org", "443");
  is_loopback = λ ip. false;
  is_private = is_ten;
  is_link_local_unicast = λ ip. false;
  is_link_local_multicast = λ ip. false;
  is_multicast = λ ip. false;
  is_unspecified = λ ip. false;
}

-- The first lookup gives a public address only, the later ones a private one before it.
abbrev resolver : HostResolver
resolver n host =
    if eqb n 0
    then ok ((93 ∷ 184 ∷ 216 ∷ 34 ∷ []) ∷ [])
    else ok ((10 ∷ 0 ∷ 0 ∷ 1 ∷ []) ∷ (93 ∷ 184 ∷ 216 ∷ 34 ∷ []) ∷ [])

abbrev target : Url
target = record {
  scheme = "https";
  hostname = "example.org";
  has_user = false;
  path = "";
  text = "https://example.org";
}

parse_safe_web_url-IsSafeUrl_example : IsSafeUrl lib resolver 0 target
unfolding parse_safe_web_url parse_trusted_search_url validate_public_host validate_addresses
    is_blocked_ip is_local_name normalized_host trim_left_brackets trim_right_brackets trim
parse_safe_web_url-IsSafeUrl_example =
    parse_safe_web_url-IsSafeUrl lib resolver 0 " https://example.org" target refl

dial_context-IsOpen_example :
    (is_blocked_ip lib (93 ∷ 184 ∷ 216 ∷ 34 ∷ []) ≡ false)
    × ((host : String) × ((lib.split_host_port "example.org:443" ≡ ok (host, "443"))
          × IsPublicHost lib resolver 0 host))
unfolding dial_context validate_public_host validate_addresses is_blocked_ip is_local_name
    normalized_host trim_left_brackets trim_right_brackets first_public
dial_context-IsOpen_example =
    dial_context-IsOpen lib resolver 0 "example.org:443" (93 ∷ 184 ∷ 216 ∷ 34 ∷ []) "443" refl

abbrev one_public : HostResolver
one_public n host = ok ((93 ∷ 184 ∷ 216 ∷ 34 ∷ []) ∷ [])

check_redirects-AllSafe_example :
    (1 + length (target ∷ target ∷ []) ≤ 5) × AllSafe lib one_public 0 (target ∷ target ∷ [])
unfolding check_redirect parse_safe_web_url parse_trusted_search_url validate_public_host
    validate_addresses is_blocked_ip is_local_name normalized_host trim_left_brackets
    trim_right_brackets trim
check_redirects-AllSafe_example =
    check_redirects-AllSafe lib one_public 0 1 (target ∷ target ∷ []) (omega arith) refl

abbrev contents : ContentLibrary
contents = record {
  parse_media_type = λ value. ok value;
  html_to_text = λ body. ok body;
  atoi = λ text. some 50;
}

abbrev request : Url → Result HttpResponse
request u = ok record { status_code = 200; content_type = "text/plain"; body = "hello" }

abbrev call : ToolCall
call = record { name = "web.fetch"; args = ("url", "https://example.org") ∷ [] }

abbrev result : ToolResult
result = record {
  name = "web.fetch";
  summary = "Fetched public content from https://example.org";
  results =
      some (("url", "https://example.org") ∷ ("content", "hello") ∷ ("truncated", "false") ∷ []);
}

web_fetch_execute-IsSafeUrl_example :
    (u : Url) × (((parse_safe_web_url lib resolver 0 (with_scheme (trim (value_at "url" call.args)))
          ≡ ok u)
        × IsSafeUrl lib resolver 0 u)
      × ((r : HttpResponse) × ((request u ≡ ok r)
            × ((eqb r.status_code 200 ≡ true)
                × ((allowed_web_content_type contents r.content_type ≡ true)
                    × IsShown contents r "hello")))))
unfolding web_fetch_execute read_response with_scheme contains_text lookup parse_safe_web_url
    parse_trusted_search_url validate_public_host validate_addresses is_blocked_ip is_local_name
    normalized_host trim_left_brackets trim_right_brackets trim allowed_web_content_type
web_fetch_execute-IsSafeUrl_example =
    web_fetch_execute-IsSafeUrl contents lib resolver 0 request call result refl
