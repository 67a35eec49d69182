-- ===== src/Agent/TraceStore.antt =====
-- internal/agent/trace.go: the store of traces in memory, and the sinks that a trace goes to. Times
-- are numbers; a copy of a run is the run itself.
pub mod Kept
pub mod Sound
mod Tests
use gigi_dc.Prelude.{
  ℕ, suc, String, ◌++◌, ◌==◌, Bool, ◌||◌, ◌&&◌, not, Option, none, some, List, [], ◌∷◌, push,
  or_else, is_some, trim, is_empty, is_blank, ltb, eqb, length, Error, if◌then◌else◌,
}
use gigi_dc.Prelude.Maps.{lookup, insert, delete}
use gigi_dc.Audit.{Status}
use gigi_dc.Agent.{Request, TraceEvent, Surface, dm, guild_mention, other_surface}
use gigi_dc.Agent.Trace.{safe_audit_value}

-- The events of a run stand with the times at which they were recorded (`CreatedAt`).
pub record TraceRun : Type 0 where
  pub run_id : String
  pub guild_id : String
  pub channel_id : String
  pub actor_user_id : String
  pub surface : String
  pub status : Status
  pub updated_at : ℕ
  pub events : List (ℕ × TraceEvent)

pub record TraceQuery : Type 0 where
  pub guild_id : String
  pub channel_id : String
  pub actor_user_id : String

-- The runs, the key of the last run of each scope, and the keys of the runs from old to new. A limit
-- of 0 stands for none.
pub record MemoryTraceStore : Type 0 where
  pub max_runs : ℕ
  pub runs : List (String × TraceRun)
  pub keys : List (String × String)
  pub order : List String

unfoldable pub new_memory_trace_store : ℕ → MemoryTraceStore
new_memory_trace_store max_runs = record {
  max_runs = if eqb max_runs 0 then 256 else max_runs;
  runs = [];
  keys = [];
  order = [];
}

unfoldable pub trace_key : TraceQuery → String
trace_key q =
    if is_blank q.guild_id || is_blank q.channel_id || is_blank q.actor_user_id
    then ""
    else trim q.guild_id ++ (":" ++ (trim q.channel_id ++ (":" ++ trim q.actor_user_id)))

unfoldable pub trace_run_key : String → String → String
trace_run_key scope run_id = trim scope ++ (":" ++ trim run_id)

abbrev pub surface_name : Surface → String
surface_name dm = "dm"
surface_name guild_mention = "guild_mention"
surface_name (other_surface s) = s

-- The deletion of the scopes whose last run is the given one.
unfoldable pub delete_values : String → List (String × String) → List (String × String)
delete_values run_key [] = []
delete_values run_key (scope ∷ scopes) =
    let rest = delete_values run_key scopes in if scope.1 == run_key then rest else scope ∷ rest

-- The loop of `trimLocked`: one run less in each round, from the oldest.
unfoldable pub trim_order :
    ℕ → List String → List (String × TraceRun) → List (String × String) → MemoryTraceStore
trim_order limit [] runs keys = record { max_runs = limit; runs = runs; keys = keys; order = [] }
trim_order limit (run_key ∷ order) runs keys =
    let rest = trim_order limit order (delete run_key runs) (delete_values run_key keys) in
    if not (eqb limit 0) && ltb limit (suc (length order))
    then rest
    else record { max_runs = limit; runs = runs; keys = keys; order = run_key ∷ order }

abbrev pub query_of : Request → TraceQuery
query_of r = record {
  guild_id = r.guild_id;
  channel_id = r.channel_id;
  actor_user_id = r.actor_user_id;
}

abbrev pub new_run : Request → TraceEvent → TraceRun
new_run r event = record {
  run_id = event.run_id;
  guild_id = trim r.guild_id;
  channel_id = trim r.channel_id;
  actor_user_id = trim r.actor_user_id;
  surface = safe_audit_value (surface_name r.surface);
  status = event.status;
  updated_at = 0;
  events = [];
}

abbrev pub add_event : ℕ → TraceEvent → TraceRun → TraceRun
add_event now event run = record run {
  status = event.status;
  updated_at = now;
  events = push run.events (now, event);
}

-- The part of `RecordTraceEvent` under the lock, for a scope and a run.
unfoldable pub record_event :
    ℕ → Request → TraceEvent → String → String → MemoryTraceStore → MemoryTraceStore
record_event now r event scope run_key s =
    let found = lookup run_key s.runs in
    let run = add_event now event (or_else found (new_run r event)) in
    trim_order s.max_runs (if is_some found then s.order else push s.order run_key)
      (insert run_key run s.runs) (insert scope run_key s.keys)

unfoldable pub record_trace_event : ℕ → Request → TraceEvent → MemoryTraceStore → MemoryTraceStore
record_trace_event now r event s =
    let scope = trace_key (query_of r) in
    if is_empty scope || is_blank event.run_id
    then s
    else record_event now r event scope (trace_run_key scope event.run_id) s

abbrev pub run_at : List (String × TraceRun) → Option String → Option TraceRun
run_at runs none = none
run_at runs (some run_key) = lookup run_key runs

unfoldable pub last_trace : TraceQuery → MemoryTraceStore → Option TraceRun
last_trace q s =
    let scope = trace_key q in if is_empty scope then none else run_at s.runs (lookup scope s.keys)

-- `MultiTraceSink.RecordTraceEvent`: what each sink answers to the event, nil sinks included.
unfoldable pub multi_trace_sink :
    List (Option (Request → TraceEvent → Option Error)) → Request → TraceEvent → Option Error
multi_trace_sink [] r event = none
multi_trace_sink (none ∷ sinks) r event = multi_trace_sink sinks r event
multi_trace_sink (some sink ∷ sinks) r event =
    let later = multi_trace_sink sinks r event in
    elim (sink r event) [ some e ↦ some e | none ↦ later ]
