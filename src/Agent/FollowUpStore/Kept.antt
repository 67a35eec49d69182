-- ===== src/Agent/FollowUpStore/Kept.antt =====
-- internal/agent/followup.go: what the trimming keeps: the newest entry, and what holds of all.
use gigi_dc.Prelude.{
  ℕ, suc, zero, ◌<◌, ◌≡◌, refl, ◌∙◌, String, ◌==◌, eq_iff, Bool, true, false, ◌||◌, not, none, some,
  [], ◌∷◌, is_empty, or_else, ltb, eqb, length, any, All, Bool-cases, inl, inr, arith,
  if◌then◌else◌, sym, subst,
}
use gigi_dc.Prelude.Maps.{lookup, delete, IsMap, lookup-delete, delete-IsMap, All-delete}
use gigi_dc.Agent.FollowUpStore.{
  FollowUpEntry, Entries, older, oldest, trim_items, trim_locked, purge, is_expired,
}
use gigi_dc.Agent.FollowUpStore.Trimmed.{AllNamed, oldest_key}

-- The key has the given sequence number and all others have smaller ones.
abbrev pub IsNewest : String → ℕ → Entries → Type 0
IsNewest key top items =
    All
      (λ item. (if key == item.0 then eqb item.1.sequence top else ltb item.1.sequence top) ≡ true)
      items

module _ (key : String) (top : ℕ) where
  abbrev IsOther : String × ℕ → Type 0
  IsOther best = ((key == best.0) ≡ false) × ((best.1 < top) × (is_empty best.0 ≡ false))

  oldest-IsOther :
      (items : Entries) (best : String × ℕ)
      → IsNewest key top items
      → AllNamed items
      → IsOther best
      → IsOther (oldest items best)
  unfolding oldest
  oldest-IsOther [] best t n o = o
  oldest-IsOther ((k, entry) ∷ items) best t n o =
      oldest-IsOther items (older best k entry) t.1 n.1 (ground (arith, t.0, n.0, o))

  abbrev is_other : String × FollowUpEntry → Bool
  is_other item = not (key == item.0)

  oldest-finds-IsOther :
      (items : Entries) (best : String × ℕ)
      → IsNewest key top items
      → AllNamed items
      → (is_empty best.0 || eqb best.1 top) ≡ true
      → any is_other items ≡ true
      → IsOther (oldest items best)
  unfolding oldest
  oldest-finds-IsOther [] best t n o other = absurd (ground (arith, other))
  oldest-finds-IsOther ((k, entry) ∷ items) best t n o other = elim (Bool-cases (key == k)) [
    | inl b ↦
        oldest-finds-IsOther items (older best k entry) t.1 n.1 (ground (arith, t.0, b, o))
          (ground (arith, b, other))
    | inr b ↦ oldest-IsOther items (older best k entry) t.1 n.1 (ground (arith, t.0, b, o, n.0))
  ]

  -- Of two entries one has another key.
  any_other :
      (items : Entries) → IsMap items → ltb 1 (length items) ≡ true → any is_other items ≡ true
  unfolding lookup
  any_other [] m l = absurd (ground (arith, l))
  any_other (a ∷ []) m l = absurd (ground (arith, l))
  any_other (a ∷ b ∷ items) m l =
      ground (arith, m.0, eq_iff key a.0, eq_iff key b.0, eq_iff a.0 b.0)

  -- The loop never deletes the newest entry, where the limit lets one stay.
  lookup-trim_items :
      (fuel limit : ℕ) (items : Entries)
      → 0 < limit
      → IsMap items
      → AllNamed items
      → IsNewest key top items
      → lookup key (trim_items fuel limit items) ≡ lookup key items
  unfolding trim_items
  lookup-trim_items zero limit items l m n t = refl
  lookup-trim_items (suc fuel) limit items l m n t =
      elim (Bool-cases (not (ltb limit (length items)))) [
        | inl b ↦ rw b refl
        | inr b ↦
            let other =
              oldest-finds-IsOther items ("", 0) t n refl
                (any_other items m (ground (arith, b, l))) in
            let rest =
              lookup-trim_items fuel limit (delete (oldest_key items) items) l
                (delete-IsMap (oldest_key items) items m) (All-delete _ (oldest_key items) items n)
                (All-delete _ (oldest_key items) items t) in
            rw (b, other.1.1)
              (rest
                ∙ ground (
                  arith,
                  lookup-delete (oldest_key items) key items,
                  other.0,
                  eq_iff key (oldest_key items),
                  eq_iff (oldest_key items) key,
                ))
      ]

  pub lookup-trim_locked :
      (limit : ℕ) (items : Entries)
      → IsMap items
      → AllNamed items
      → IsNewest key top items
      → lookup key (trim_locked limit items) ≡ lookup key items
  unfolding trim_locked
  lookup-trim_locked limit items m n t = elim (Bool-cases (eqb limit 0)) [
    | inl b ↦ rw b refl
    | inr b ↦ rw b (lookup-trim_items (length items) limit items (ground (arith, b)) m n t)
  ]

-- What holds of all entries holds of those that the trimming leaves.
module _ (P : String × FollowUpEntry → Type 0) where
  trim_items-All :
      (fuel limit : ℕ) (items : Entries)
      → IsMap items
      → All P items
      → All P (trim_items fuel limit items) × IsMap (trim_items fuel limit items)
  unfolding trim_items
  trim_items-All zero limit items m h = (h, m)
  trim_items-All (suc fuel) limit items m h =
      elim (Bool-cases (not (ltb limit (length items)) || is_empty (oldest_key items))) [
        | inl b ↦ rw b (h, m)
        | inr b ↦ rw b (
            trim_items-All fuel limit (delete (oldest_key items) items)
              (delete-IsMap (oldest_key items) items m) (All-delete P (oldest_key items) items h))
      ]

  pub trim_locked-All :
      (limit : ℕ) (items : Entries)
      → IsMap items
      → All P items
      → All P (trim_locked limit items) × IsMap (trim_locked limit items)
  unfolding trim_locked
  trim_locked-All limit items m h = elim (Bool-cases (eqb limit 0)) [
    | inl b ↦ rw b (h, m)
    | inr b ↦ rw b (trim_items-All (length items) limit items m h)
  ]

  pub purge-All : (ttl now : ℕ) (items : Entries) → All P items → All P (purge ttl now items)
  unfolding purge
  purge-All ttl now [] h = tt
  purge-All ttl now (item ∷ items) h = elim (Bool-cases (is_expired ttl now item.1)) [
    | inl b ↦ rw b (purge-All ttl now items h.1)
    | inr b ↦ rw b (h.0, purge-All ttl now items h.1)
  ]

module _ (ttl now : ℕ) where
  lookup-none-purge :
      (key : String) (items : Entries)
      → lookup key items ≡ none
      → lookup key (purge ttl now items) ≡ none
  unfolding lookup purge
  lookup-none-purge key [] e = refl
  lookup-none-purge key (item ∷ items) e = ground (arith, e, lookup-none-purge key items)

  pub purge-IsMap : (items : Entries) → IsMap items → IsMap (purge ttl now items)
  unfolding purge
  purge-IsMap [] m = tt
  purge-IsMap (item ∷ items) m = elim (Bool-cases (is_expired ttl now item.1)) [
    | inl b ↦ rw b (purge-IsMap items m.1)
    | inr b ↦ rw b (lookup-none-purge item.0 items m.0, purge-IsMap items m.1)
  ]

  pub lookup-purge :
      (key : String) (entry : FollowUpEntry) (items : Entries)
      → lookup key items ≡ some entry
      → is_expired ttl now entry ≡ false
      → lookup key (purge ttl now items) ≡ some entry
  unfolding lookup purge
  lookup-purge key entry [] e x = cc
  lookup-purge key entry (item ∷ items) e x = elim (Bool-cases (key == item.0)) [
    | inl b ↦
        let same : some item.1 ≡ some entry = rw b at e in
        let fresh : is_expired ttl now item.1 ≡ false =
          subst (λ o. is_expired ttl now (or_else o item.1) ≡ false) (sym same) x in
        rw (fresh, b) same
    | inr b ↦ ground (arith, b, e, lookup-purge key entry items)
  ]
