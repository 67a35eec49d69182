-- ===== src/Agent/FollowUpStore/Saved.antt =====
-- internal/agent/followup.go: what the store holds after `Save`.
use gigi_dc.Prelude.{
  ℕ, ◌+◌, ◌≤◌, ◌<◌, ◌≡◌, ◌∙◌, String, ◌==◌, eq_iff, true, false, some, is_empty, ltb, leb, eqb,
  length, All, arith, ◌⊎◌, if◌then◌else◌, All-map, All-pair, ◌%◌,
}
use gigi_dc.Prelude.Maps.{
  lookup, insert, IsMap, lookup-insert, insert-IsMap, All-insert, All-insert_other,
}
use gigi_dc.Agent.{RunSnapshot}
use gigi_dc.Agent.FollowUpStore.{
  FollowUpEntry, Entries, MemoryFollowUpStore, is_expired, purge, uint64, save_entry,
}
use gigi_dc.Agent.FollowUpStore.Trimmed.{AllNamed, trim_locked-le}
use gigi_dc.Agent.FollowUpStore.Kept.{
  IsNewest, lookup-trim_locked, trim_locked-All, purge-All, purge-IsMap, lookup-purge,
}

abbrev IsNumbered : ℕ → Entries → Type 0
IsNumbered top items = All (λ item. leb item.1.sequence top ≡ true) items

-- A key has one entry, is not empty, and no entry has a number above the store's; where there is a
-- limit, there are no more entries.
abbrev pub IsSound : MemoryFollowUpStore → Type 0
IsSound s =
    IsMap s.items
    × (AllNamed s.items
        × (IsNumbered s.sequence s.items
            × ((s.max_entries ≡ 0) ⊎ (length s.items ≤ s.max_entries))))

module _ (s : MemoryFollowUpStore) (room : s.sequence + 1 < uint64) (sound : IsSound s) where
  next_sequence : (s.sequence + 1) % uint64 ≡ s.sequence + 1
  next_sequence = omega (arith, room)

  module _ (now : ℕ) (key : String) (snapshot : RunSnapshot) (named : is_empty key ≡ false) where
    abbrev saved : FollowUpEntry
    saved = record { snapshot = snapshot; saved_at = now; sequence = (s.sequence + 1) % uint64 }

    abbrev purged : Entries
    purged = purge s.ttl now (insert key saved s.items)

    purged-IsMap : IsMap purged
    purged-IsMap = purge-IsMap s.ttl now _ (insert-IsMap key saved s.items sound.0)

    purged-named : AllNamed purged
    purged-named =
        purge-All _ s.ttl now _
          (All-insert (λ item. is_empty item.0 ≡ false) key saved s.items named sound.1.0)

    purged-IsNumbered : IsNumbered ((s.sequence + 1) % uint64) purged
    purged-IsNumbered = purge-All _ s.ttl now _ (
        All-insert (λ item. leb item.1.sequence ((s.sequence + 1) % uint64) ≡ true) key saved
          s.items (ground arith)
          (All-map _ _ (λ item h. ground (arith, h, next_sequence)) s.items sound.1.1.0))

    purged-IsNewest : IsNewest key ((s.sequence + 1) % uint64) purged
    purged-IsNewest = purge-All _ s.ttl now _ (
        All-insert_other
          (λ item.
            (if key == item.0
              then eqb item.1.sequence ((s.sequence + 1) % uint64)
              else ltb item.1.sequence ((s.sequence + 1) % uint64))
            ≡ true)
          key saved s.items sound.0 (ground (arith, eq_iff key key))
          (All-map _ _ (λ item h other. ground (arith, h, other, next_sequence)) s.items
            sound.1.1.0))

    pub save_entry-IsSound : IsSound (save_entry now key snapshot s)
    unfolding save_entry
    save_entry-IsSound =
        let kept =
          trim_locked-All
            (λ item.
              (is_empty item.0 ≡ false) × (leb item.1.sequence ((s.sequence + 1) % uint64) ≡ true))
            s.max_entries purged purged-IsMap
            (All-pair _ _ purged purged-named purged-IsNumbered) in
        (
          kept.1,
          (
            All-map _ _ (λ item h. h.0) _ kept.0,
            (
              All-map _ _ (λ item h. h.1) _ kept.0,
              trim_locked-le s.max_entries purged purged-named,
            ),
          ),
        )

    pub lookup-save_entry : lookup key (save_entry now key snapshot s).items ≡ some saved
    unfolding save_entry is_expired
    lookup-save_entry =
        lookup-trim_locked key _ s.max_entries purged purged-IsMap purged-named purged-IsNewest
        ∙ lookup-purge s.ttl now key saved _
            (ground (arith, lookup-insert key key saved s.items, eq_iff key key)) (ground arith)
