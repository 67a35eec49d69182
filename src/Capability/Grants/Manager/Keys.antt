-- ===== src/Capability/Grants/Manager/Keys.antt =====
-- internal/capability/manager.go: what the statements do to the set of keys that a table holds.
use gigi_dc.Prelude.{
  String, ◌≡◌, ◌==◌, eq_iff, Bool, true, ◌&&◌, ◌||◌, not, List, [], ◌∷◌, ok, arith, any, Bool-cases,
  if◌then◌else◌, inl, inr,
}
use gigi_dc.Capability.{Capability}
use gigi_dc.Capability.Grants.{Grant, has_key, held, insert_grant, delete_grants}

-- Two keys are the same.
abbrev pub same_key : String → String → Capability → String → String → Capability → Bool
same_key g t c g' t' c' = g == g' && t == t' && c == c'

text_eq : (s t : String) → (s == t) ≡ true → s ≡ t
text_eq s t = (eq_iff s t).0

-- The tests of a key on a row, with the row's fields as texts.
abbrev matches : String → String → Capability → String → String → Capability → Bool
matches a b c g t k = a == g && b == t && c == k

matches→eq : (a b c g t k : String) → matches a b c g t k ≡ true → (a ≡ g) × (b ≡ t) × (c ≡ k)
matches→eq a b c g t k h =
    (text_eq a g (ground arith), text_eq b t (ground arith), text_eq c k (ground arith))

-- Keys that are the same match alike, on either side.
matches_left :
    (a b c g t k g' t' k' : String)
    → matches a b c g t k ≡ true
    → matches a b c g' t' k' ≡ matches g t k g' t' k'
matches_left a b c g t k g' t' k' h =
    let (p, q, r) = matches→eq a b c g t k h in λ i. matches (p i) (q i) (r i) g' t' k'

matches_right :
    (a b c g t k g' t' k' : String)
    → matches g t k g' t' k' ≡ true
    → matches a b c g t k ≡ matches a b c g' t' k'
matches_right a b c g t k g' t' k' h =
    let (p, q, r) = matches→eq g t k g' t' k' h in λ i. matches a b c (p i) (q i) (r i)

-- One row of a deletion: `old` says that the row goes, `hit` that it has the key that is looked up.
delete_step :
    (p : Grant → Bool) (row : Grant) (old same : Bool) (kept rest : List Grant)
    → (old ≡ true → p row ≡ same)
    → (same ≡ true → old ≡ p row)
    → any p kept ≡ (not same && any p rest)
    → any p (if not old then row ∷ kept else kept) ≡ (not same && (p row || any p rest))
delete_step p row old same kept rest f k ih = ground arith

module _ (g t : String) (c : Capability) where
  held_of_key :
      (row : Grant) (rs : List Grant)
      → has_key g t c row ≡ true
      → held rs row.guild_id row.target_id row.capability ≡ held rs g t c
  held_of_key row rs h =
      let (p, q, r) = matches→eq row.guild_id row.target_id row.capability g t c h in
      λ i. held rs (p i) (q i) (r i)

  -- An insertion that succeeds adds the row's key, if it was not there, and no other.
  pub held-insert_grant :
      (guilds : List String) (row : Grant) (rs : List Grant) {rs' : List Grant}
      → insert_grant guilds row rs ≡ ok rs'
      → held rs' g t c ≡ (has_key g t c row || held rs g t c)
  unfolding insert_grant
  held-insert_grant guilds row rs h =
      elim (Bool-cases (held rs row.guild_id row.target_id row.capability)) [
        | inl old ↦ elim (Bool-cases (has_key g t c row)) [
          | inl k ↦ ground (arith, held_of_key row rs k)
          | inr k ↦ ground arith
        ]
        | inr new ↦ ground arith
      ]

  -- A deletion removes the key, and no other.
  pub held-delete_grants :
      (g' t' : String) (c' : Capability) (rs : List Grant)
      → held (delete_grants g' t' c' rs) g t c ≡ (not (same_key g' t' c' g t c) && held rs g t c)
  unfolding delete_grants
  held-delete_grants g' t' c' [] = ground arith
  held-delete_grants g' t' c' (row ∷ rs) =
      delete_step (has_key g t c) row (has_key g' t' c' row) (same_key g' t' c' g t c)
        (delete_grants g' t' c' rs) rs
        (matches_left row.guild_id row.target_id row.capability g' t' c' g t c)
        (matches_right row.guild_id row.target_id row.capability g' t' c' g t c)
        (held-delete_grants g' t' c' rs)
