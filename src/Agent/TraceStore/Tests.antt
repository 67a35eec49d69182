-- ===== src/Agent/TraceStore/Tests.antt =====
-- The store of traces, with one event recorded and read.
use gigi_dc.Prelude.{ℕ, ◌≤◌, ◌≡◌, refl, false, none, some, List, [], ◌∷◌, inr, length, push, ◌⊎◌}
use gigi_dc.Prelude.Maps.{lookup}
use gigi_dc.Audit.{succeeded}
use gigi_dc.Agent.{Request, TraceEvent, guild_mention}
use gigi_dc.Agent.TraceStore.{
  MemoryTraceStore, TraceRun, new_memory_trace_store, record_trace_event, last_trace, query_of,
  trace_key, trace_run_key,
}
use gigi_dc.Agent.TraceStore.Kept.{IsSound}
use gigi_dc.Agent.TraceStore.Sound.{after_events, after_events-le, record_then_last}

abbrev request : Request
request = record {
  surface = guild_mention;
  guild_id = "g1";
  channel_id = "c1";
  actor_user_id = "u1";
  role_ids = [];
  has_administrator = false;
  context_scope = "";
  text = "";
  raw_text = "";
  prior_run = none;
  context_pack = none;
}

abbrev event : TraceEvent
event = record {
  run_id = "r1";
  step_index = 1;
  phase = "plan";
  source = "agent";
  kind = "agent.plan";
  status = succeeded;
  reason = "";
  intent = "recent";
  planner = "";
  tool_name = "";
  tool_kind = "";
  capability = "";
  routing_mode = "";
  details = [];
}

abbrev events : List (ℕ × (Request × TraceEvent))
events = (5, (request, event)) ∷ []

after_events-le_example :
    IsSound (after_events events (new_memory_trace_store 2))
    × (length (after_events events (new_memory_trace_store 2)).runs ≤ 2)
after_events-le_example = after_events-le 2 events

abbrev store : MemoryTraceStore
store = record { max_runs = 1; runs = []; keys = []; order = [] }

record_then_last_example :
    (run : TraceRun) × ((last_trace (query_of request) (record_trace_event 5 request event store)
        ≡ some (record run {
          status = succeeded;
          updated_at = 5;
          events = push run.events (5, event);
        }))
      × ((lookup (trace_run_key (trace_key (query_of request)) "r1") [] ≡ some run)
          ⊎ (run.events ≡ [])))
unfolding trace_key gigi_dc.Prelude.trim
record_then_last_example =
    record_then_last store ((tt, (tt, (tt, refl))), refl) 5 request event refl refl
