-- ===== src/Agent/FollowUpStore/Trimmed.antt =====
-- internal/agent/followup.go: what `purgeLocked` and `trimLocked` leave of the entries.
use gigi_dc.Prelude.{
  ℕ, suc, zero, ◌+◌, ◌≤◌, ◌≡◌, refl, ◌∙◌, String, ◌==◌, eq_iff, Bool, true, false, ◌||◌, not, some,
  [], ◌∷◌, is_empty, ltb, eqb, length, All, Bool-cases, inl, inr, arith, ◌⊎◌, if◌then◌else◌, sym,
  subst,
}
use gigi_dc.Prelude.Maps.{lookup, delete, length-delete-lt, All-delete}
use gigi_dc.Agent.FollowUpStore.{FollowUpEntry, Entries, older, oldest, trim_items, trim_locked}

abbrev pub AllNamed : Entries → Type 0
AllNamed items = All (λ item. is_empty item.0 ≡ false) items

lookup_head :
    (key : String) (entry : FollowUpEntry) (items : Entries)
    → lookup key ((key, entry) ∷ items) ≡ some entry
unfolding lookup
lookup_head key entry items = ground (arith, eq_iff key key)

abbrev IsKey : String → Entries → Type 0
IsKey key items = (entry : FollowUpEntry) × (lookup key items ≡ some entry)

IsKey-later :
    (key : String) (item : String × FollowUpEntry) (items : Entries)
    → IsKey key items
    → IsKey key (item ∷ items)
unfolding lookup
IsKey-later key item items found = elim (Bool-cases (key == item.0)) [
  | inl b ↦ (item.1, ground (arith, b))
  | inr b ↦ (found.0, ground (arith, b, found.1))
]

older-cases :
    (best : String × ℕ) (key : String) (entry : FollowUpEntry)
    → (older best key entry ≡ best) ⊎ (older best key entry ≡ (key, entry.sequence))
older-cases best key entry = if_cases (is_empty best.0 || ltb entry.sequence best.1)
  where
    if_cases :
        (b : Bool)
        → ((if b then (key, entry.sequence) else best) ≡ best)
          ⊎ ((if b then (key, entry.sequence) else best) ≡ (key, entry.sequence))
    if_cases true = inr refl
    if_cases false = inl refl

-- A key of the entries, if one was not given.
oldest-IsFound :
    (items : Entries) (best : String × ℕ)
    → (oldest items best ≡ best) ⊎ IsKey (oldest items best).0 items
unfolding oldest lookup
oldest-IsFound [] best = inl refl
oldest-IsFound ((key, entry) ∷ items) best = elim (oldest-IsFound items (older best key entry)) [
  | inl e ↦ elim (older-cases best key entry) [
    | inl kept ↦ inl (e ∙ kept)
    | inr taken ↦ inr (
        subst (λ b. IsKey b.0 ((key, entry) ∷ items)) (sym (e ∙ taken))
          (entry, lookup_head key entry items))
  ]
  | inr found ↦ inr (IsKey-later _ (key, entry) items found)
]

oldest-named :
    (items : Entries) (best : String × ℕ)
    → AllNamed items
    → is_empty best.0 ≡ false
    → is_empty (oldest items best).0 ≡ false
unfolding oldest
oldest-named [] best n b = b
oldest-named ((key, entry) ∷ items) best n b =
    oldest-named items (older best key entry) n.1 (ground (arith, n.0, b))

-- The key that one round of the loop deletes.
abbrev pub oldest_key : Entries → String
oldest_key items = (oldest items ("", 0)).0

oldest_key-IsKey :
    (items : Entries) → is_empty (oldest_key items) ≡ false → IsKey (oldest_key items) items
oldest_key-IsKey items n = elim (oldest-IsFound items ("", 0)) [
  | inl e ↦ absurd (ground (arith, subst (λ b. is_empty b.0 ≡ false) e n))
  | inr found ↦ found
]

oldest_key-named :
    (items : Entries)
    → AllNamed items
    → ltb 0 (length items) ≡ true
    → is_empty (oldest_key items) ≡ false
unfolding oldest
oldest_key-named [] n l = absurd (ground (arith, l))
oldest_key-named ((key, entry) ∷ items) n l = oldest-named items (key, entry.sequence) n.1 n.0

-- Enough fuel for the loop is the number of entries over the limit.
trim_items-le :
    (fuel limit : ℕ) (items : Entries)
    → AllNamed items
    → length items ≤ limit + fuel
    → length (trim_items fuel limit items) ≤ limit
unfolding trim_items
trim_items-le zero limit items n l = ground (arith, l)
trim_items-le (suc fuel) limit items n l = elim (Bool-cases (not (ltb limit (length items)))) [
  | inl b ↦ rw b (ground (arith, b))
  | inr b ↦
      let named = oldest_key-named items n (ground (arith, b)) in
      let found = oldest_key-IsKey items named in
      let shorter = length-delete-lt (oldest_key items) found.0 items found.1 in
      rw (b, named)
        (trim_items-le fuel limit (delete (oldest_key items) items)
          (All-delete (λ item. is_empty item.0 ≡ false) (oldest_key items) items n)
          (omega (arith, shorter, l)))
]

pub trim_locked-le :
    (limit : ℕ) (items : Entries)
    → AllNamed items
    → (limit ≡ 0) ⊎ (length (trim_locked limit items) ≤ limit)
unfolding trim_locked
trim_locked-le limit items n = elim (Bool-cases (eqb limit 0)) [
  | inl b ↦ inl (ground (arith, b))
  | inr b ↦ inr (rw b (trim_items-le (length items) limit items n (omega arith)))
]
