-- ===== src/Agent/TraceStore/Sound.antt =====
-- internal/agent/trace.go: the store of traces over time, and an event that is recorded and read.
use gigi_dc.Prelude.{
  ℕ, suc, ◌≤◌, ◌≡◌, refl, ◌∙◌, String, false, ◌&&◌, ◌||◌, not, some, List, [], ◌∷◌, push, or_else,
  is_empty, is_blank, ltb, eqb, length, Bool-cases, Option-cases, inl, inr, arith, ◌⊎◌,
  if◌then◌else◌,
}
use gigi_dc.Prelude.Maps.{lookup, delete}
use gigi_dc.Agent.{Request, TraceEvent}
use gigi_dc.Agent.TraceStore.{
  TraceRun, MemoryTraceStore, trim_order, delete_values, record_event, record_trace_event,
  last_trace, new_run, query_of, trace_key, trace_run_key, new_memory_trace_store,
}
use gigi_dc.Agent.TraceStore.Kept.{Runs, IsSound, record_event-IsKept}

-- One event, at a time of the clock.
abbrev pub after_events : List (ℕ × (Request × TraceEvent)) → MemoryTraceStore → MemoryTraceStore
after_events [] s = s
after_events (e ∷ events) s = after_events events (record_trace_event e.0 e.1.0 e.1.1 s)

record_trace_event-IsSound :
    (now : ℕ) (r : Request) (event : TraceEvent) (s : MemoryTraceStore)
    → IsSound s
    → IsSound (record_trace_event now r event s)
unfolding record_trace_event
record_trace_event-IsSound now r event s sound =
    elim (Bool-cases (is_empty (trace_key (query_of r)) || is_blank event.run_id)) [
      | inl b ↦ rw b sound
      | inr b ↦ rw b (record_event-IsKept now r event (trace_key (query_of r)) _ s sound).0
    ]

after_events-IsSound :
    (events : List (ℕ × (Request × TraceEvent))) (s : MemoryTraceStore)
    → IsSound s
    → IsSound (after_events events s)
after_events-IsSound [] s sound = sound
after_events-IsSound (e ∷ events) s sound =
    after_events-IsSound events _ (record_trace_event-IsSound e.0 e.1.0 e.1.1 s sound)

trim_order-max_runs :
    (limit : ℕ) (order : List String) (runs : Runs) (keys : List (String × String))
    → (trim_order limit order runs keys).max_runs ≡ limit
unfolding trim_order
trim_order-max_runs limit [] runs keys = refl
trim_order-max_runs limit (k ∷ order) runs keys =
    elim (Bool-cases (not (eqb limit 0) && ltb limit (suc (length order)))) [
      | inl b ↦ rw b (trim_order-max_runs limit order (delete k runs) (delete_values k keys))
      | inr b ↦ rw b refl
    ]

record_trace_event-max_runs :
    (now : ℕ) (r : Request) (event : TraceEvent) (s : MemoryTraceStore)
    → (record_trace_event now r event s).max_runs ≡ s.max_runs
unfolding record_trace_event record_event
record_trace_event-max_runs now r event s =
    elim (Bool-cases (is_empty (trace_key (query_of r)) || is_blank event.run_id)) [
      | inl b ↦ rw b refl
      | inr b ↦ rw b (trim_order-max_runs s.max_runs _ _ _)
    ]

after_events-max_runs :
    (events : List (ℕ × (Request × TraceEvent))) (s : MemoryTraceStore)
    → (after_events events s).max_runs ≡ s.max_runs
after_events-max_runs [] s = refl
after_events-max_runs (e ∷ events) s =
    after_events-max_runs events _ ∙ record_trace_event-max_runs e.0 e.1.0 e.1.1 s

-- After any events on a new store, each run has one key and is listed once, and there are no more runs than the limit the store was made with, or 256 where that is 0.
pub after_events-le :
    (limit : ℕ) (events : List (ℕ × (Request × TraceEvent)))
    → IsSound (after_events events (new_memory_trace_store limit))
      × (length (after_events events (new_memory_trace_store limit)).runs
          ≤ (if eqb limit 0 then 256 else limit))
unfolding new_memory_trace_store
after_events-le limit events =
    let new : MemoryTraceStore = record {
      max_runs = if eqb limit 0 then 256 else limit;
      runs = [];
      keys = [];
      order = [];
    } in
    let sound = after_events-IsSound events new ((tt, (tt, (tt, refl))), ground arith) in
    (sound, ground (arith, sound, after_events-max_runs events new))

-- In a sound store, an event that is recorded for a request that names its guild, channel and user, and for a run that is named, is the last event of the run that is shown last for them, and the run has the event's status.
pub record_then_last :
    (s : MemoryTraceStore)
    → IsSound s
    → (now : ℕ) (r : Request) (event : TraceEvent) → is_empty (trace_key (query_of r)) ≡ false
    → is_blank event.run_id ≡ false
    → (run : TraceRun) × ((last_trace (query_of r) (record_trace_event now r event s)
          ≡ some (record run {
            status = event.status;
            updated_at = now;
            events = push run.events (now, event);
          }))
        × ((lookup (trace_run_key (trace_key (query_of r)) event.run_id) s.runs ≡ some run)
            ⊎ (run.events ≡ [])))
unfolding last_trace record_trace_event
record_then_last s sound now r event named running =
    let run_key = trace_run_key (trace_key (query_of r)) event.run_id in
    let kept = record_event-IsKept now r event (trace_key (query_of r)) run_key s sound in
    (
      or_else (lookup run_key s.runs) (new_run r event),
      (
        rw (named, running, kept.1.1) kept.1.0,
        elim (Option-cases (lookup run_key s.runs)) [
          | inl e ↦ inr (rw e refl)
          | inr (old, e) ↦ inl (rw e refl)
        ],
      ),
    )
