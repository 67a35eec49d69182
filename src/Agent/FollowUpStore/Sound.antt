-- ===== src/Agent/FollowUpStore/Sound.antt =====
-- internal/agent/followup.go: the store over time, and a run that is saved and loaded.
use gigi_dc.Prelude.{
  ℕ, ◌+◌, ◌-◌, ◌≤◌, ◌<◌, ◌≡◌, refl, ◌∙◌, String, false, ◌&&◌, ◌||◌, not, Option, none, some, List,
  [], ◌∷◌, is_empty, ltb, eqb, length, Bool-cases, inl, inr, arith, if◌then◌else◌,
}
use gigi_dc.Prelude.Maps.{lookup, delete-IsMap, All-delete, length-delete-le}
use gigi_dc.Agent.{Request, RunSnapshot}
use gigi_dc.Agent.FollowUpStore.{
  FollowUpEntry, MemoryFollowUpStore, new_memory_follow_up_store, follow_up_key, copy_snapshot,
  is_void, is_expired, uint64, save_entry, save, load_entry, load,
}
use gigi_dc.Agent.FollowUpStore.Saved.{save_entry-IsSound, lookup-save_entry, IsSound}

-- One call of the store, at a time of the clock.
pub data FollowUpCall : Type 0 where
  save_call : ℕ → Request → RunSnapshot → FollowUpCall
  load_call : ℕ → Request → FollowUpCall

abbrev pub after_call : FollowUpCall → MemoryFollowUpStore → MemoryFollowUpStore
after_call (save_call now request snapshot) s = save now request snapshot s
after_call (load_call now request) s = (load now request s).1

abbrev pub after_store_calls : List FollowUpCall → MemoryFollowUpStore → MemoryFollowUpStore
after_store_calls [] s = s
after_store_calls (call ∷ calls) s = after_store_calls calls (after_call call s)

-- Soundness, and how far the numbers have come.
abbrev IsSoundAt : ℕ → MemoryFollowUpStore → Type 0
IsSoundAt top s = IsSound s × (s.sequence ≤ top)

module _ (top : ℕ) (room : top + 1 < uint64) where
  save-IsSound :
      (now : ℕ) (request : Request) (snapshot : RunSnapshot) (s : MemoryFollowUpStore)
      → IsSoundAt top s
      → IsSoundAt (top + 1) (save now request snapshot s)
  unfolding save save_entry
  save-IsSound now request snapshot s (sound, at) =
      elim (Bool-cases (is_empty (follow_up_key request) || is_void (copy_snapshot snapshot))) [
        | inl b ↦ rw b (sound, omega (arith, at))
        | inr b ↦
            let free : s.sequence + 1 < uint64 = omega (arith, at, room) in
            rw b (
              save_entry-IsSound s free sound now (follow_up_key request) (copy_snapshot snapshot)
                  (ground (arith, b)),
              omega (arith, at, free),
            )
      ]

  load_entry-IsSound :
      (now : ℕ) (key : String) (s : MemoryFollowUpStore) (found : Option FollowUpEntry)
      → IsSoundAt top s
      → IsSoundAt (top + 1) (load_entry now key s found).1
  load_entry-IsSound now key s none (sound, at) = (sound, omega (arith, at))
  load_entry-IsSound now key s (some entry) (sound, at) =
      elim (Bool-cases (is_expired s.ttl now entry)) [
        | inl b ↦ rw b (
          (
            delete-IsMap key s.items sound.0,
            (
              All-delete _ key s.items sound.1.0,
              (
                All-delete _ key s.items sound.1.1.0,
                elim sound.1.1.1 [
                  | inl unlimited ↦ inl unlimited
                  | inr l ↦ inr (omega (arith, l, length-delete-le key s.items))
                ],
              ),
            ),
          ),
          omega (arith, at),
        )
        | inr b ↦ rw b (sound, omega (arith, at))
      ]

  load-IsSound :
      (now : ℕ) (request : Request) (s : MemoryFollowUpStore)
      → IsSoundAt top s
      → IsSoundAt (top + 1) (load now request s).1
  unfolding load
  load-IsSound now request s (sound, at) = elim (Bool-cases (is_empty (follow_up_key request))) [
    | inl b ↦ rw b (sound, omega (arith, at))
    | inr b ↦ rw b (
        load_entry-IsSound now (follow_up_key request) s (lookup (follow_up_key request) s.items)
          (sound, at))
  ]

after_store_calls-IsSoundAt :
    (calls : List FollowUpCall) (top : ℕ) (s : MemoryFollowUpStore)
    → top + length calls < uint64
    → IsSoundAt top s
    → IsSound (after_store_calls calls s)
after_store_calls-IsSoundAt [] top s room at = at.0
after_store_calls-IsSoundAt (save_call now request snapshot ∷ calls) top s room at =
    after_store_calls-IsSoundAt calls (top + 1) _ (omega (arith, room))
      (save-IsSound top (omega (arith, room)) now request snapshot s at)
after_store_calls-IsSoundAt (load_call now request ∷ calls) top s room at =
    after_store_calls-IsSoundAt calls (top + 1) _ (omega (arith, room))
      (load-IsSound top (omega (arith, room)) now request s at)

save-max_entries :
    (now : ℕ) (request : Request) (snapshot : RunSnapshot) (s : MemoryFollowUpStore)
    → (save now request snapshot s).max_entries ≡ s.max_entries
unfolding save save_entry
save-max_entries now request snapshot s =
    elim (Bool-cases (is_empty (follow_up_key request) || is_void (copy_snapshot snapshot))) [
      | inl b ↦ rw b refl
      | inr b ↦ rw b refl
    ]

load_entry-max_entries :
    (now : ℕ) (key : String) (s : MemoryFollowUpStore) (found : Option FollowUpEntry)
    → (load_entry now key s found).1.max_entries ≡ s.max_entries
load_entry-max_entries now key s none = refl
load_entry-max_entries now key s (some entry) = elim (Bool-cases (is_expired s.ttl now entry)) [
  | inl b ↦ rw b refl
  | inr b ↦ rw b refl
]

load-max_entries :
    (now : ℕ) (request : Request) (s : MemoryFollowUpStore)
    → (load now request s).1.max_entries ≡ s.max_entries
unfolding load
load-max_entries now request s = elim (Bool-cases (is_empty (follow_up_key request))) [
  | inl b ↦ rw b refl
  | inr b ↦ rw b (load_entry-max_entries now (follow_up_key request) s _)
]

after_store_calls-max_entries :
    (calls : List FollowUpCall) (s : MemoryFollowUpStore)
    → (after_store_calls calls s).max_entries ≡ s.max_entries
after_store_calls-max_entries [] s = refl
after_store_calls-max_entries (save_call now request snapshot ∷ calls) s =
    after_store_calls-max_entries calls _ ∙ save-max_entries now request snapshot s
after_store_calls-max_entries (load_call now request ∷ calls) s =
    after_store_calls-max_entries calls _ ∙ load-max_entries now request s

-- After fewer than 2^64 saves and loads of a new store, at any times, each key has one entry and the store holds no more than 1000 entries.
pub after_store_calls-le :
    (calls : List FollowUpCall)
    → length calls < uint64
    → IsSound (after_store_calls calls new_memory_follow_up_store)
      × (length (after_store_calls calls new_memory_follow_up_store).items ≤ 1000)
after_store_calls-le calls room =
    let sound =
      after_store_calls-IsSoundAt calls 0 new_memory_follow_up_store (omega (arith, room))
        ((tt, (tt, (tt, inr (omega arith)))), omega arith) in
    (
      sound,
      ground (arith, sound.1.1.1, after_store_calls-max_entries calls new_memory_follow_up_store),
    )

-- In a sound store, what is saved for a request is what a later load for it gives, copied and then copied again, until the time to live has passed: then the load gives nothing. A store without a limit on times never forgets, nor does one whose clock read zero when it saved.
pub save_then_load :
    (s : MemoryFollowUpStore)
    → s.sequence + 1 < uint64
    → IsSound s
    → (now later : ℕ) (request : Request) (snapshot : RunSnapshot)
    → is_empty (follow_up_key request) ≡ false
    → is_void (copy_snapshot snapshot) ≡ false
    → (load later request (save now request snapshot s)).0 ≡ (
        if not (eqb s.ttl 0) && (not (eqb now 0) && ltb s.ttl (later - now))
        then none
        else some (copy_snapshot (copy_snapshot snapshot)))
unfolding load save save_entry is_expired
save_then_load s room sound now later request snapshot named full =
    let found =
      lookup-save_entry s room sound now (follow_up_key request) (copy_snapshot snapshot) named in
    rw (named, full, found)
      (elim (Bool-cases (not (eqb s.ttl 0) && (not (eqb now 0) && ltb s.ttl (later - now)))) [
        | inl b ↦ rw b refl
        | inr b ↦ rw b refl
      ])
