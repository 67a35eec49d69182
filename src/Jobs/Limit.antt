-- ===== src/Jobs/Limit.antt =====
-- internal/jobs/queue.go: how many jobs `Claim` returns.
use gigi_dc.Prelude.{
  ℕ, suc, ◌+◌, ◌≤◌, ◌≡◌, refl, sym, subst, eq_iff, keep, ap, String, ◌==◌, Bool, false, ◌||◌,
  Option, some, none, List, [], ◌∷◌, length, map, length-take-le, Error, Result, ok, err, arith,
  inl, inr, Bool-cases, if◌then◌else◌,
}
use gigi_dc.Sql.{Session, attempt, call, continue, pure, ◌>>=◌}
use gigi_dc.Jobs.{Row, Rows, Job, is_due, ordered, chosen, claim_rows, claim, has_id, job_of}
use gigi_dc.Jobs.Claims.{IsKeyed, eq_sym}

abbrev count : (Row → Bool) → Rows → ℕ
count p [] = 0
count p (r ∷ rows) = let rest = count p rows in if p r then suc rest else rest

claim_rows-count :
    (now : ℕ) (worker : String) (picked rows : Rows)
    → length (claim_rows now worker picked rows).1 ≡ count (λ r. has_id r.id picked) rows
unfolding claim_rows
claim_rows-count now worker picked [] = refl
claim_rows-count now worker picked (r ∷ rows) = elim (Bool-cases (has_id r.id picked)) [
  | inl b ↦ rw b (ap suc (claim_rows-count now worker picked rows))
  | inr b ↦ rw b (claim_rows-count now worker picked rows)
]

count_absent :
    (id : String) (rows : Rows) → has_id id rows ≡ false → count (λ r. id == r.id) rows ≡ 0
count_absent id [] a = refl
count_absent id (r ∷ rows) a = ground (arith, eq_sym id r.id, a, count_absent id rows)

-- A key counts once.
count_key : (id : String) (rows : Rows) → IsKeyed rows → count (λ r. id == r.id) rows ≤ 1
count_key id [] k = omega arith
count_key id (r ∷ rows) k = elim (Bool-cases (id == r.id)) [
  | inl b ↦ ground (
    arith,
    b,
    count_absent id rows (subst (λ x. has_id x rows ≡ false) (sym ((eq_iff id r.id).0 b)) k.0),
  )
  | inr b ↦ ground (arith, b, count_key id rows k.1)
]

count_or :
    (p q : Row → Bool) (rows : Rows) → count (λ r. p r || q r) rows ≤ count p rows + count q rows
count_or p q [] = omega arith
count_or p q (r ∷ rows) = ground (arith, count_or p q rows)

count_never : (rows : Rows) → count (λ r. false) rows ≡ 0
count_never [] = refl
count_never (r ∷ rows) = count_never rows

count_picked :
    (picked rows : Rows) → IsKeyed rows → count (λ r. has_id r.id picked) rows ≤ length picked
count_picked [] rows k = ground (arith, count_never rows)
count_picked (p ∷ picked) rows k = omega (
  arith,
  count_or (λ r. p.id == r.id) (λ r. has_id r.id picked) rows,
  count_key p.id rows k,
  count_picked picked rows k,
)

length-map : {A B : Type 0} (f : A → B) (xs : List A) → length (map f xs) ≡ length xs
length-map f [] = refl
length-map f (x ∷ xs) = ap suc (length-map f xs)

abbrev pub IsShort : ℕ → Result (List Job) → Type 0
IsShort limit (ok jobs) = length jobs ≤ limit
IsShort limit (err e) = Unit

attempt-IsShort :
    (faults : List (Option Error)) (limit : ℕ) (change : Rows → Rows) (answer : Rows → List Job)
    (s : Session Rows)
    → length (answer s.tables) ≤ limit
    → IsShort limit (attempt faults (λ t. ok (change t, answer t)) s).0
attempt-IsShort [] limit change answer s l = l
attempt-IsShort (none ∷ faults) limit change answer s l = l
attempt-IsShort (some e ∷ faults) limit change answer s l = tt

call-IsShort :
    (limit : ℕ) (r : Result (List Job)) (s : Session Rows)
    → IsShort limit r
    → IsShort limit (continue (r, s) (λ jobs. call >>= λ _. pure jobs)).0
call-IsShort limit (err e) s l = tt
call-IsShort limit (ok jobs) s l = faulty s.faults
  where
    faulty :
        (faults : List (Option Error))
        → IsShort limit
            (continue (attempt faults (λ t. ok (t, tt)) s) (λ _. pure {T = Rows} jobs)).0
    faulty [] = l
    faulty (none ∷ faults) = l
    faulty (some e ∷ faults) = tt

-- `Claim` on a table with differing keys returns no more jobs than it is asked for.
pub claim-IsShort :
    (now : ℕ) (locked : String → Bool) (worker : String) (limit : ℕ) (s : Session Rows)
    → IsKeyed s.tables
    → IsShort limit (claim now locked worker limit s).0
unfolding claim chosen
claim-IsShort now locked worker limit s k =
    let picked = chosen now locked limit s.tables in
    call-IsShort limit _ _ (
      attempt-IsShort s.faults limit _ _ s (
        omega (
          arith,
          length-map job_of (claim_rows now worker picked s.tables).1,
          claim_rows-count now worker picked s.tables,
          count_picked picked s.tables k,
          length-take-le limit (ordered (keep (is_due now locked) s.tables)),
        )))
