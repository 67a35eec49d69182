-- ===== src/Agent/Executor/FollowUp.antt =====
-- internal/agent/executor.go and planning.go: the snapshot that is kept for a follow-up question.
use gigi_dc.Prelude.{
  String, ◌==◌, ◌++◌, Bool, ◌&&◌, ◌||◌, not, Option, none, some, List, [], ◌∷◌, trim, is_empty,
  is_blank, is_nil, is_some, or_else, any, if◌then◌else◌,
}
use gigi_dc.Prelude.Maps.{lookup}
use gigi_dc.Audit.{Metadata}
use gigi_dc.ContextBroker.{Pack, Seen}
use gigi_dc.Agent.{Request, Response, Plan, ToolResult, RunSnapshot}

unfoldable pub copy_tool_result : ToolResult → ToolResult
copy_tool_result r = record r { name = trim r.name; summary = trim r.summary }

unfoldable pub should_redact : String → Bool
should_redact name = name == "memory.search" || name == "memory.recent"

abbrev pub kept_entry : Metadata → String → Metadata → Metadata
kept_entry found key rest =
    let value = or_else (lookup key found) "" in
    if is_empty value then rest else (key, value) ∷ rest

-- The counts of a result, without its texts; a map with none of them is nil.
unfoldable pub redacted_data : Option Metadata → Option Metadata
redacted_data found =
    let all = or_else found [] in
    let kept =
      kept_entry all "count"
        (kept_entry all "matches" (kept_entry all "messages" (kept_entry all "scope" []))) in
    if is_nil kept then none else some kept

unfoldable pub redacted_summary : ToolResult → String
redacted_summary r =
    if r.name == "memory.search"
    then "Memory search results redacted from follow-up snapshot."
    else if r.name == "memory.recent"
    then "Recent memory results redacted from follow-up snapshot."
    else r.summary

abbrev pub is_redacted : ToolResult → Bool
is_redacted r = should_redact r.name && (is_some r.results || not (is_empty r.summary))

unfoldable pub sanitize_result : ToolResult → ToolResult
sanitize_result raw =
    let r = copy_tool_result raw in
    if is_redacted r
    then record r { results = redacted_data r.results; summary = redacted_summary r }
    else r

unfoldable pub sanitize_results : List ToolResult → List ToolResult
sanitize_results [] = []
sanitize_results (r ∷ rs) = sanitize_result r ∷ sanitize_results rs

-- The answer's text is dropped with the data of any memory tool.
unfoldable pub sanitize_text : List ToolResult → String → String
sanitize_text results text =
    if any (λ r. is_redacted (copy_tool_result r)) results then "" else text

abbrev pub context_state_of : Option Pack → Seen
context_state_of none = []
context_state_of (some pack) = pack.next_state

unfoldable pub snapshot_of : String → Request → Plan → List ToolResult → Response → RunSnapshot
snapshot_of run_id request plan results response = record {
  run_id = run_id;
  intent = plan.intent;
  results = sanitize_results results;
  response_text = sanitize_text results response.text;
  context_state = context_state_of request.context_pack;
}

unfoldable pub summary_lines : List ToolResult → List String
summary_lines [] = []
summary_lines (r ∷ rs) =
    let rest = summary_lines rs in if is_blank r.summary then rest else trim r.summary ∷ rest

unfoldable pub join_lines : List String → String
join_lines [] = ""
join_lines (line ∷ []) = line
join_lines (line ∷ next ∷ rest) = line ++ ("\n" ++ join_lines (next ∷ rest))

unfoldable pub format_tool_results : List ToolResult → String
format_tool_results results =
    if is_nil results
    then "No agent tool results."
    else if is_nil (summary_lines results)
    then "Agent tools completed."
    else join_lines (summary_lines results)
