-- ===== src/Jobs/Claims.antt =====
-- internal/jobs/queue.go: what `Claim` hands out.
use gigi_dc.Prelude.{
  ℕ, zero, suc, ◌≡◌, refl, String, ◌==◌, eq_iff, Bool, true, false, [], ◌∷◌, take, keep, arith, sym,
  ◌∙◌, inl, inr, Bool-cases, All,
}
use gigi_dc.Jobs.{Row, Rows, is_due, chosen, has_id, ordered, insert_ordered, is_before}

-- No two rows have the same key.
abbrev pub IsKeyed : Rows → Type 0
IsKeyed [] = Unit
IsKeyed (r ∷ rows) = (has_id r.id rows ≡ false) × IsKeyed rows

-- Every row of a list passes a test.
module _ (p : Row → Bool) where
  abbrev pub Passes : Rows → Type 0
  Passes = All (λ r. p r ≡ true)

  keep-Passes : (rows : Rows) → Passes (keep p rows)
  keep-Passes [] = tt
  keep-Passes (r ∷ rows) = elim (Bool-cases (p r)) [
    | inl b ↦ rw b (b, keep-Passes rows)
    | inr b ↦ rw b (keep-Passes rows)
  ]

  insert_ordered-Passes :
      (r : Row) (rows : Rows) → p r ≡ true → Passes rows → Passes (insert_ordered r rows)
  unfolding insert_ordered
  insert_ordered-Passes r [] a b = (a, tt)
  insert_ordered-Passes r (x ∷ xs) a b = elim (Bool-cases (is_before r x)) [
    | inl c ↦ rw c (a, b)
    | inr c ↦ rw c (b.0, insert_ordered-Passes r xs a b.1)
  ]

  ordered-Passes : (rows : Rows) → Passes rows → Passes (ordered rows)
  unfolding ordered
  ordered-Passes [] a = tt
  ordered-Passes (r ∷ rows) a = insert_ordered-Passes r (ordered rows) a.0 (ordered-Passes rows a.1)

  take-Passes : (n : ℕ) (rows : Rows) → Passes rows → Passes (take n rows)
  take-Passes zero rows a = tt
  take-Passes (suc n) [] a = tt
  take-Passes (suc n) (r ∷ rows) a = (a.0, take-Passes n rows a.1)

chosen-Passes :
    (now : ℕ) (locked : String → Bool) (limit : ℕ) (rows : Rows)
    → Passes (is_due now locked) (chosen now locked limit rows)
unfolding chosen
chosen-Passes now locked limit rows =
    take-Passes (is_due now locked) limit _
      (ordered-Passes (is_due now locked) _ (keep-Passes (is_due now locked) rows))

-- A key that is chosen belongs to a row that is due.
insert_ordered-has_id :
    (id : String) (r : Row) (rows : Rows) → has_id id (insert_ordered r rows) ≡ has_id id (r ∷ rows)
unfolding insert_ordered
insert_ordered-has_id id r [] = refl
insert_ordered-has_id id r (x ∷ xs) = elim (Bool-cases (is_before r x)) [
  | inl c ↦ rw c refl
  | inr c ↦ rw (c, insert_ordered-has_id id r xs) (ground arith)
]

ordered-has_id : (id : String) (rows : Rows) → has_id id (ordered rows) ≡ has_id id rows
unfolding ordered
ordered-has_id id [] = refl
ordered-has_id id (r ∷ rows) =
    rw (insert_ordered-has_id id r (ordered rows), ordered-has_id id rows) refl

take-has_id :
    (id : String) (n : ℕ) (rows : Rows) → has_id id (take n rows) ≡ true → has_id id rows ≡ true
take-has_id id zero rows a = ground arith
take-has_id id (suc n) [] a = a
take-has_id id (suc n) (r ∷ rows) a = ground (arith, take-has_id id n rows)

keep-has_id :
    (p : Row → Bool) (id : String) (rows : Rows)
    → has_id id (keep p rows) ≡ true
    → has_id id rows ≡ true
keep-has_id p id [] a = a
keep-has_id p id (r ∷ rows) a = elim (Bool-cases (p r)) [
  | inl b ↦ ground (arith, keep-has_id p id rows, a, b)
  | inr b ↦ ground (arith, keep-has_id p id rows, a, b)
]

-- The test of the row with a key that is kept, given that the keys differ.
keep-head :
    (p : Row → Bool) (r : Row) (rows : Rows)
    → IsKeyed (r ∷ rows)
    → has_id r.id (keep p (r ∷ rows)) ≡ true
    → p r ≡ true
keep-head p r rows k a = elim (Bool-cases (p r)) [
  | inl b ↦ b
  | inr b ↦ ground (arith, keep-has_id p r.id rows, k.0, a, b)
]

pub eq_sym : (a b : String) → (a == b) ≡ (b == a)
eq_sym a b = ground (arith, eq_iff a b, eq_iff b a)

module _ (p : Row → Bool) where
  -- The rows of a list that a choice from the whole names are those that pass the test.
  abbrev pub Vetted : Rows → Rows → Type 0
  Vetted all = All (λ r. has_id r.id (keep p all) ≡ true → p r ≡ true)

  tail-Vetted :
      (r : Row) (all xs : Rows) → has_id r.id xs ≡ false → Vetted all xs → Vetted (r ∷ all) xs
  tail-Vetted r all [] a v = tt
  tail-Vetted r all (x ∷ xs) a v = (head, tail-Vetted r all xs (ground (arith, a)) v.1)
    where
      head : has_id x.id (keep p (r ∷ all)) ≡ true → p x ≡ true
      head h = elim (Bool-cases (p r)) [
        | inl b ↦ v.0 (ground (arith, h, b, a, eq_sym r.id x.id))
        | inr b ↦ v.0 (ground (arith, h, b))
      ]

  keep-Vetted : (rows : Rows) → IsKeyed rows → Vetted rows rows
  keep-Vetted [] k = tt
  keep-Vetted (r ∷ rows) k =
      (keep-head p r rows k, tail-Vetted r rows rows k.0 (keep-Vetted rows k.1))

-- What a claim chooses is due, row by row.
pub chosen_due :
    (now : ℕ) (locked : String → Bool) (limit : ℕ) (rows : Rows)
    → IsKeyed rows
    → All (λ r. has_id r.id (chosen now locked limit rows) ≡ true → is_due now locked r ≡ true) rows
unfolding chosen
chosen_due now locked limit rows k = each rows (keep-Vetted (is_due now locked) rows k)
  where
    each :
        (xs : Rows)
        → Vetted (is_due now locked) rows xs
        → All
            (λ r.
              has_id r.id (take limit (ordered (keep (is_due now locked) rows))) ≡ true
              → is_due now locked r ≡ true)
            xs
    each [] v = tt
    each (x ∷ xs) v = (
      (λ h. v.0 (
          sym (ordered-has_id x.id (keep (is_due now locked) rows))
          ∙ take-has_id x.id limit (ordered (keep (is_due now locked) rows)) h)),
      each xs v.1,
    )
