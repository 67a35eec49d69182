-- ===== src/Agent/Executor/Metadata.antt =====
-- internal/agent/executor.go and runner.go: the metadata of trace records.
use gigi_dc.Prelude.{
  String, ◌==◌, Error, map, ◌++◌, Bool, ◌||◌, Option, none, some, [], ◌∷◌, trim, is_empty, is_blank,
  or_else, if◌then◌else◌,
}
use gigi_dc.Prelude.Maps.{lookup, insert}
use gigi_dc.Prelude.Unicode.{Unicode, codes, contains_text}
use gigi_dc.Audit.{Metadata, sanitize_entries}
use gigi_dc.Capability.{
  Reason, admin_override, user_grant, role_grant, public_action, missing_capability, store_error,
  unknown_identity,
}
use gigi_dc.Agent.{ToolKind, read, write, other_kind, ToolSpec, ToolCall, ToolResult}
use gigi_dc.Agent.Trace.{safe_audit_value}

abbrev pub entry : String → String → Metadata
entry key value = (key, safe_audit_value value) ∷ []

abbrev pub kind_text : ToolKind → String
kind_text read = "read"
kind_text write = "write"
kind_text (other_kind s) = s

abbrev pub reason_text : Reason → String
reason_text admin_override = "admin_override"
reason_text user_grant = "user_grant"
reason_text role_grant = "role_grant"
reason_text public_action = "public_action"
reason_text missing_capability = "missing_capability"
reason_text store_error = "store_error"
reason_text unknown_identity = "unknown_identity"

-- `mergeMetadata` of two maps: entries with a blank key or value are dropped, and the later win.
unfoldable pub merge_into : Metadata → Metadata → Metadata
merge_into merged [] = merged
merge_into merged ((key, value) ∷ rest) =
    merge_into (if is_blank key || is_blank value then merged else insert key value merged) rest

unfoldable pub merge : Metadata → Metadata → Metadata
merge a b = merge_into (merge_into [] a) b

abbrev pub call_metadata : ToolSpec → Metadata
call_metadata spec =
    ("tool", safe_audit_value spec.name)
    ∷ ("kind", safe_audit_value (kind_text spec.kind))
    ∷ ("capability", safe_audit_value spec.capability)
    ∷ []

unfoldable pub tool_call_metadata : Metadata → Metadata
tool_call_metadata [] = []
tool_call_metadata ((key, value) ∷ rest) =
    let others = tool_call_metadata rest in
    if is_blank key || is_blank value
    then others
    else insert ("arg_" ++ trim key) (trim value) others

abbrev pub result_entry : String → String → Metadata → Metadata
result_entry key label data_map =
    let value = trim (or_else (lookup key data_map) "") in
    if is_empty value then [] else (label, value) ∷ []

unfoldable pub tool_result_metadata : ToolResult → Metadata
tool_result_metadata r =
    let found = or_else r.results [] in
    merge_into
      (merge_into
        (merge_into (("result_summary", r.summary) ∷ [])
          (result_entry "count" "result_count" found))
        (result_entry "url" "result_url" found))
      (result_entry "truncated" "result_truncated" found)

-- What Go's `errors` package and the method `Error` tell of an error: its text, whether it is one of
-- two sentinels of the web search tool, and the provider of a `WebSearchError` in it.
pub record ErrorView : Type 0 where
  pub message : Error → String
  pub is_provider_challenge : Error → Bool
  pub is_blocked_host : Error → Bool
  pub search_provider : Error → Option String

module _ (u : Unicode) (v : ErrorView) where
  abbrev pub mentions : Error → String → Bool
  mentions e part = contains_text (map u.to_lower (codes (v.message e))) (codes part)

  unfoldable pub web_search_error_kind : Error → String
  web_search_error_kind e =
      if v.is_provider_challenge e
      then "provider_challenge"
      else if v.is_blocked_host e
      then "blocked_host"
      else if mentions e "status "
      then "provider_status"
      else if mentions e "api key"
      then "missing_provider_key"
      else "provider_error"

  abbrev pub provider_entry : Option String → Metadata
  provider_entry none = []
  provider_entry (some provider) =
      if is_blank provider then [] else ("error_provider", trim provider) ∷ []

  unfoldable pub tool_failure_metadata : String → Error → Metadata
  tool_failure_metadata tool_name e =
      if tool_name == "web.search"
      then ("error_kind", web_search_error_kind e)
        ∷ ("error_message", safe_audit_value (v.message e))
        ∷ provider_entry (v.search_provider e)
      else []

unfoldable pub argument_payload : Metadata → Metadata → Metadata
argument_payload payload [] = payload
argument_payload payload ((key, value) ∷ rest) =
    argument_payload (insert ("arg." ++ key) value payload) rest

unfoldable pub confirmation_payload : Unicode → ToolSpec → ToolCall → Metadata
confirmation_payload u spec call =
    sanitize_entries u (argument_payload (("tool", spec.name) ∷ []) call.args)
