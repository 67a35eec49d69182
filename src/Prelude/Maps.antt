-- ===== src/Prelude/Maps.antt =====
-- Go maps with text keys, as association lists: a key occurs once, where it was first put.
use Prim.Native.String.{String}
use Prim.Native.Nat.{suc, ◌≤◌, ◌<◌}
use mathlib.Core.Path.{◌≡◌, refl, sym, ap, subst}
use mathlib.Core.List.{List, [], ◌∷◌}
use mathlib.Core.Bool.{true, false}
use mathlib.Core.Option.{Option, none, some}
use native.Mathlib.Omega.{arith}
use text.Mathlib.Text.{◌==◌}
use text.Mathlib.TextEquality.{eq_iff}
use mathlib.Core.Logic.{inl, inr}
use gigi_dc.Prelude.Tests.{if◌then◌else◌, Bool-cases}
use gigi_dc.Prelude.Lists.{length, is_some, All, All-map, All-pair}

module _ {ℓ} {V : Type ℓ} where
  -- `m[key]` with its second result.
  unfoldable pub lookup : String → List (String × V) → Option V
  lookup key [] = none
  lookup key (entry ∷ entries) =
      let later = lookup key entries in if key == entry.0 then some entry.1 else later

  -- `m[key] = value`.
  unfoldable pub insert : String → V → List (String × V) → List (String × V)
  insert key value [] = (key, value) ∷ []
  insert key value (entry ∷ entries) =
      let later = entry ∷ insert key value entries in
      if key == entry.0 then (key, value) ∷ entries else later

  pub lookup-insert :
      (key wanted : String) (value : V) (entries : List (String × V))
      → lookup wanted (insert key value entries)
        ≡ (if key == wanted then some value else lookup wanted entries)
  unfolding lookup insert
  lookup-insert key wanted value [] = ground (arith, eq_iff wanted key, eq_iff key wanted)
  lookup-insert key wanted value (entry ∷ entries) = ground (
    arith,
    lookup-insert key wanted value entries,
    eq_iff wanted key,
    eq_iff key wanted,
    eq_iff wanted entry.0,
    eq_iff key entry.0,
  )

  -- `delete(m, key)`.
  unfoldable pub delete : String → List (String × V) → List (String × V)
  delete key [] = []
  delete key (entry ∷ entries) =
      let rest = delete key entries in if key == entry.0 then rest else entry ∷ rest

  abbrev pub IsMap : List (String × V) → Type ℓ
  IsMap [] = Unit
  IsMap (entry ∷ entries) = (lookup entry.0 entries ≡ none) × IsMap entries

  pub lookup-delete :
      (key wanted : String) (entries : List (String × V))
      → lookup wanted (delete key entries) ≡ (if key == wanted then none else lookup wanted entries)
  unfolding lookup delete
  lookup-delete key wanted [] = ground arith
  lookup-delete key wanted (entry ∷ entries) = ground (
    arith,
    lookup-delete key wanted entries,
    eq_iff wanted key,
    eq_iff key wanted,
    eq_iff wanted entry.0,
    eq_iff key entry.0,
  )

  pub insert-IsMap :
      (key : String) (value : V) (entries : List (String × V))
      → IsMap entries
      → IsMap (insert key value entries)
  unfolding lookup insert
  insert-IsMap key value [] m = (refl, tt)
  insert-IsMap key value (entry ∷ entries) m = elim (Bool-cases (key == entry.0)) [
    | inl b ↦ rw b (subst (λ k. lookup k entries ≡ none) (sym ((eq_iff key entry.0).0 b)) m.0, m.1)
    | inr b ↦ rw b (
      ground (arith, m, b, lookup-insert key entry.0 value entries),
      insert-IsMap key value entries m.1,
    )
  ]

  pub delete-IsMap :
      (key : String) (entries : List (String × V)) → IsMap entries → IsMap (delete key entries)
  unfolding lookup delete
  delete-IsMap key [] m = tt
  delete-IsMap key (entry ∷ entries) m = elim (Bool-cases (key == entry.0)) [
    | inl b ↦ rw b (delete-IsMap key entries m.1)
    | inr b ↦
        rw b (ground (arith, m, b, lookup-delete key entry.0 entries), delete-IsMap key entries m.1)
  ]

  pub length-delete-le :
      (key : String) (entries : List (String × V)) → length (delete key entries) ≤ length entries
  unfolding delete
  length-delete-le key [] = omega arith
  length-delete-le key (entry ∷ entries) = ground (arith, length-delete-le key entries)

  pub length-delete-lt :
      (key : String) (value : V) (entries : List (String × V))
      → lookup key entries ≡ some value
      → length (delete key entries) < length entries
  unfolding lookup delete
  length-delete-lt key value [] e = cc
  length-delete-lt key value (entry ∷ entries) e = elim (Bool-cases (key == entry.0)) [
    | inl b ↦ ground (arith, b, length-delete-le key entries)
    | inr b ↦ ground (arith, b, e, length-delete-lt key value entries)
  ]

  pub All-insert {κ} :
      (P : String × V → Type κ) (key : String) (value : V) (entries : List (String × V))
      → P (key, value)
      → All P entries
      → All P (insert key value entries)
  unfolding insert
  All-insert P key value [] p h = (p, tt)
  All-insert P key value (entry ∷ entries) p h = elim (Bool-cases (key == entry.0)) [
    | inl b ↦ rw b (p, h.1)
    | inr b ↦ rw b (h.0, All-insert P key value entries p h.1)
  ]

  pub All-delete {κ} :
      (P : String × V → Type κ) (key : String) (entries : List (String × V))
      → All P entries
      → All P (delete key entries)
  unfolding delete
  All-delete P key [] h = tt
  All-delete P key (entry ∷ entries) h = elim (Bool-cases (key == entry.0)) [
    | inl b ↦ rw b (All-delete P key entries h.1)
    | inr b ↦ rw b (h.0, All-delete P key entries h.1)
  ]

  pub All-absent :
      (key : String) (entries : List (String × V))
      → lookup key entries ≡ none
      → All (λ entry. (key == entry.0) ≡ false) entries
  unfolding lookup
  All-absent key [] e = tt
  All-absent key (entry ∷ entries) e =
      (ground (arith, e), All-absent key entries (ground (arith, e)))

  -- What holds of the new entry and of those under other keys holds after an insertion.
  pub All-insert_other :
      (P : String × V → Type 0) (key : String) (value : V) (entries : List (String × V))
      → IsMap entries
      → P (key, value)
      → All (λ entry. (key == entry.0) ≡ false → P entry) entries
      → All P (insert key value entries)
  unfolding insert
  All-insert_other P key value [] m p h = (p, tt)
  All-insert_other P key value (entry ∷ entries) m p h = elim (Bool-cases (key == entry.0)) [
    | inl b ↦
        let absent =
          All-absent key entries
            (subst (λ k. lookup k entries ≡ none) (sym ((eq_iff key entry.0).0 b)) m.0) in
        rw b (p, All-map _ P (λ e both. both.1 both.0) entries (All-pair _ _ entries absent h.1))
    | inr b ↦ rw b (h.0 b, All-insert_other P key value entries m.1 p h.1)
  ]

  pub length-insert :
      (key : String) (value : V) (entries : List (String × V))
      → length (insert key value entries)
        ≡ (if is_some (lookup key entries) then length entries else suc (length entries))
  unfolding insert lookup
  length-insert key value [] = refl
  length-insert key value (entry ∷ entries) = ground (arith, length-insert key value entries)

  delete_absent :
      (key : String) (entries : List (String × V))
      → lookup key entries ≡ none
      → delete key entries ≡ entries
  unfolding delete lookup
  delete_absent key [] e = refl
  delete_absent key (entry ∷ entries) e = elim (Bool-cases (key == entry.0)) [
    | inl b ↦ absurd (ground (arith, b, e))
    | inr b ↦ rw b (ap (λ xs. entry ∷ xs) (delete_absent key entries (ground (arith, b, e))))
  ]

  pub length-delete :
      (key : String) (entries : List (String × V))
      → IsMap entries
      → is_some (lookup key entries) ≡ true
      → suc (length (delete key entries)) ≡ length entries
  unfolding delete lookup
  length-delete key [] m e = absurd (ground (arith, e))
  length-delete key (entry ∷ entries) m e = elim (Bool-cases (key == entry.0)) [
    | inl b ↦
        let absent = subst (λ k. lookup k entries ≡ none) (sym ((eq_iff key entry.0).0 b)) m.0 in
        rw b (ap (λ xs. suc (length xs)) (delete_absent key entries absent))
    | inr b ↦ ground (arith, b, e, length-delete key entries m.1)
  ]
