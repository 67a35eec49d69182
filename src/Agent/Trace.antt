-- ===== src/Agent/Trace.antt =====
-- internal/agent/trace.go: one record of a run's trace, sent to the run store, the sink and the
-- audit log. A text is cut at 120 bytes before a character that does not fit.
use Prim.Native.Char.{code}
use Prim.Native.String.{len, slice}
use gigi_dc.Prelude.{
  ℕ, String, ◌==◌, ◌++◌, Bool, ◌&&◌, ◌||◌, not, Option, none, some, [], ◌∷◌, Error, Result, trim,
  is_empty, is_blank, itoa, ltb, eqb, or_else, is_some, if◌then◌else◌,
}
use gigi_dc.Prelude.Maps.{lookup, insert}
use gigi_dc.Prelude.Unicode.{Unicode}
use gigi_dc.Audit.{Metadata, Status, sanitize_entries}
use gigi_dc.Agent.{Request, RunRecord, StepRecord, ConfirmationRecord, TraceEvent}
use gigi_dc.Agent.Effects.{
  step_recorded, sink_recorded, audit_recorded, History, Act, give, ask, perform, ◌>>=◌, ◌>>◌,
}

-- The calls of the interface `RunStore` whose results the runtime reads.
pub record RunStore : Type 0 where
  pub start_run : History → RunRecord → Option Error
  pub is_run_canceled : History → String → Result Bool
  pub create_confirmation : History → ConfirmationRecord → Option Error

pub record Trace : Type 0 where
  pub has_recorder : Bool
  pub store : Option RunStore
  pub sink : Option (History → TraceEvent → Option Error)
  pub source : String
  pub run_id : String
  pub step : ℕ

unfoldable pub with_run_id : Trace → String → Trace
with_run_id t run_id = record t { run_id = trim run_id }

abbrev pub with_step : Trace → ℕ → Trace
with_step t step = record t { step = step }

abbrev pub first_set : {A : Type 0} → Option A → Option A → Option A
first_set none b = b
first_set (some a) b = some a

unfoldable pub inherit : Trace → Trace → Trace
inherit t parent = record {
  has_recorder = t.has_recorder || parent.has_recorder;
  store = first_set t.store parent.store;
  sink = first_set t.sink parent.sink;
  source = if is_blank t.source then parent.source else t.source;
  run_id = if is_blank t.run_id then parent.run_id else t.run_id;
  step = t.step;
}

-- The replacer of line ends and back quotes.
unfoldable pub replace_quotes : String → String
replace_quotes String.[] = ""
replace_quotes (String.◌∷◌ c s) =
    let rest = replace_quotes s in
    if eqb (code c) 10 || eqb (code c) 13
    then " " ++ rest
    else if eqb (code c) 96
    then "'" ++ rest
    else String.◌∷◌ c rest

unfoldable pub safe_audit_value : String → String
safe_audit_value raw =
    let value = replace_quotes (trim raw) in
    if ltb 120 (len value) then slice value 0 120 else value

unfoldable pub safe_entries : Metadata → Metadata
safe_entries [] = []
safe_entries ((key, value) ∷ rest) =
    let cleaned = safe_entries rest in
    if is_empty (safe_audit_value key)
    then cleaned
    else insert (safe_audit_value key) (safe_audit_value value) cleaned

unfoldable pub sanitize_trace_metadata : Unicode → Metadata → Metadata
sanitize_trace_metadata u metadata = safe_entries (sanitize_entries u metadata)

unfoldable pub trace_phase : String → String
trace_phase raw =
    let kind = trim raw in
    if kind == "agent.context"
    then "context"
    else if kind == "agent.plan"
    then "plan"
    else if kind == "agent.tool"
    then "tool"
    else if kind == "agent.answer"
    then "answer"
    else "fallback"

unfoldable pub trace_event_details : Metadata → Metadata
trace_event_details [] = []
trace_event_details ((key, value) ∷ rest) =
    let details = trace_event_details rest in
    if key == "source" || key == "run_id" || key == "step_index" || is_empty key || is_empty value
    then details
    else (key, value) ∷ details

abbrev pub value_at : String → Metadata → String
value_at key metadata = or_else (lookup key metadata) ""

module _ (u : Unicode) (t : Trace) where
  unfoldable pub clean_metadata : Metadata → Metadata
  clean_metadata metadata =
      let source = trim t.source in
      let named =
        insert "source" (if is_empty source then "agent" else source)
          (sanitize_trace_metadata u metadata) in
      let run =
        if is_blank t.run_id then named else insert "run_id" (safe_audit_value t.run_id) named in
      if ltb 0 t.step then insert "step_index" (itoa t.step) run else run

  unfoldable pub step_record : String → Status → String → Metadata → StepRecord
  step_record kind status reason clean = record {
    run_id = t.run_id;
    step_index = t.step;
    kind = trim kind;
    status = status;
    reason = trim reason;
    observation = clean;
  }

  unfoldable pub trace_event : String → Status → String → Metadata → TraceEvent
  trace_event kind status reason clean = record {
    run_id = value_at "run_id" clean;
    step_index = t.step;
    phase = trace_phase kind;
    source = value_at "source" clean;
    kind = safe_audit_value kind;
    status = status;
    reason = safe_audit_value reason;
    intent = value_at "intent" clean;
    planner = value_at "planner" clean;
    tool_name = value_at "tool" clean;
    tool_kind = value_at "kind" clean;
    capability = value_at "capability" clean;
    routing_mode = value_at "routing_mode" clean;
    details = trace_event_details clean;
  }

  unfoldable pub record_audit : Request → String → Status → String → Metadata → Act (Unit {0})
  record_audit request kind status reason clean =
      if t.has_recorder
      then perform (
          audit_recorded (record {
            kind = safe_audit_value kind;
            guild_id = request.guild_id;
            actor_id = request.actor_user_id;
            status = status;
            reason = safe_audit_value reason;
            metadata = some clean;
            request_id = "";
          }))
      else give tt

  -- The sink comes before the audit log, and its error ends the record.
  unfoldable pub record_sink :
      Option (History → TraceEvent → Option Error)
      → Request
      → String
      → Status
      → String
      → Metadata
      → Act (Unit {0})
  record_sink none request kind status reason clean = record_audit request kind status reason clean
  record_sink (some sink) request kind status reason clean = do
    let event = trace_event kind status reason clean
    error ← ask (sink_recorded event) (λ h. sink h event)
    if is_some error then give tt else record_audit request kind status reason clean

  -- `Trace.Record`; every caller drops its error.
  unfoldable pub record_trace : Request → String → Status → String → Metadata → Act (Unit {0})
  record_trace request kind status reason metadata =
      let clean = clean_metadata metadata in
      if is_blank request.actor_user_id then give tt else (do
        if is_some t.store && not (is_blank t.run_id)
            then perform (step_recorded (step_record kind status reason clean))
            else give tt
        record_sink t.sink request kind status reason clean)
