-- ===== src/Jobs/Attempts.antt =====
-- internal/jobs/queue.go: the attempts of a job, and the keys of the table.
use gigi_dc.Prelude.{
  ℕ, ◌+◌, ◌≤◌, ◌≡◌, refl, sym, subst, ◌∙◌, String, ◌==◌, eq_iff, Bool, true, false, Option, some,
  none, List, [], ◌∷◌, Error, Result, ok, err, is_empty, ltb, arith, inl, inr, Bool-cases, All,
  if◌then◌else◌,
}
use gigi_dc.Sql.{Session, attempt, continue, call, pure, ◌>>=◌}
use gigi_dc.Jobs.{
  Row, Rows, Job, row_of, upsert, save_job, enqueue, is_due, chosen, claim_rows, claimed, claim,
  has_id, update_where, completed, complete, failed_row, fail, cancels, cancelled_row, cancel,
}
use gigi_dc.Jobs.Claims.{IsKeyed, chosen_due}

abbrev pub IsWithin : Row → Type 0
IsWithin r = r.attempts ≤ r.max_attempts

-- Keys differ, and no row has more attempts than it may.
abbrev pub IsSound : Rows → Type 0
IsSound rows = IsKeyed rows × All IsWithin rows

upsert-has_id :
    (id : String) (row : Row) (rows : Rows)
    → has_id id rows ≡ false
    → (row.id == id) ≡ false
    → has_id id (upsert row rows) ≡ false
unfolding upsert
upsert-has_id id row [] a b = ground (arith, b)
upsert-has_id id row (r ∷ rows) a b = elim (Bool-cases (r.id == row.id)) [
  | inl c ↦ rw c (ground (arith, a, b))
  | inr c ↦ rw c (ground (arith, a, b, upsert-has_id id row rows))
]

upsert-IsSound : (row : Row) (rows : Rows) → IsWithin row → IsSound rows → IsSound (upsert row rows)
unfolding upsert
upsert-IsSound row [] w s = ((refl, tt), (w, tt))
upsert-IsSound row (r ∷ rows) w s = elim (Bool-cases (r.id == row.id)) [
  | inl c ↦
      rw c
        ((subst (λ id. has_id id rows ≡ false) ((eq_iff r.id row.id).0 c) s.0.0, s.0.1), (w, s.1.1))
  | inr c ↦ rw c (
      let rest = upsert-IsSound row rows w (s.0.1, s.1.1) in
      (
        (
          upsert-has_id r.id row rows s.0.0
              (ground (arith, c, eq_iff r.id row.id, eq_iff row.id r.id)),
          rest.0,
        ),
        (s.1.0, rest.1),
      ))
]

module _ (p : Row → Bool) (change : Row → Row) (same : (r : Row) → (change r).id ≡ r.id)
    (within : (r : Row) → IsWithin r → IsWithin (change r)) where
  update_where-has_id :
      (id : String) (rows : Rows) → has_id id (update_where p change rows) ≡ has_id id rows
  unfolding update_where
  update_where-has_id id [] = refl
  update_where-has_id id (r ∷ rows) = elim (Bool-cases (p r)) [
    | inl c ↦ rw (c, same r, update_where-has_id id rows) refl
    | inr c ↦ rw (c, update_where-has_id id rows) refl
  ]

  update_where-IsSound : (rows : Rows) → IsSound rows → IsSound (update_where p change rows)
  unfolding update_where
  update_where-IsSound [] s = s
  update_where-IsSound (r ∷ rows) s = elim (Bool-cases (p r)) [
    | inl c ↦ rw c (
        let rest = update_where-IsSound rows (s.0.1, s.1.1) in
        (
          (
            subst (λ id. has_id id (update_where p change rows) ≡ false) (sym (same r))
                (update_where-has_id r.id rows ∙ s.0.0),
            rest.0,
          ),
          (within r s.1.0, rest.1),
        ))
    | inr c ↦ rw c (
        let rest = update_where-IsSound rows (s.0.1, s.1.1) in
        ((update_where-has_id r.id rows ∙ s.0.0, rest.0), (s.1.0, rest.1)))
  ]

claim_rows-has_id :
    (now : ℕ) (worker : String) (picked : Rows) (id : String) (rows : Rows)
    → has_id id (claim_rows now worker picked rows).0 ≡ has_id id rows
unfolding claim_rows claimed
claim_rows-has_id now worker picked id [] = refl
claim_rows-has_id now worker picked id (r ∷ rows) = elim (Bool-cases (has_id r.id picked)) [
  | inl c ↦ rw (c, claim_rows-has_id now worker picked id rows) refl
  | inr c ↦ rw (c, claim_rows-has_id now worker picked id rows) refl
]

claim_rows-IsSound :
    (now : ℕ) (locked : String → Bool) (worker : String) (picked rows : Rows)
    → All (λ r. has_id r.id picked ≡ true → is_due now locked r ≡ true) rows
    → IsSound rows
    → IsSound (claim_rows now worker picked rows).0
unfolding claim_rows claimed is_due
claim_rows-IsSound now locked worker picked [] d s = s
claim_rows-IsSound now locked worker picked (r ∷ rows) d s =
    elim (Bool-cases (has_id r.id picked)) [
      | inl c ↦ rw c (
          let rest = claim_rows-IsSound now locked worker picked rows d.1 (s.0.1, s.1.1) in
          (
            (claim_rows-has_id now worker picked r.id rows ∙ s.0.0, rest.0),
            (ground (arith, d.0 c), rest.1),
          ))
      | inr c ↦ rw c (
          let rest = claim_rows-IsSound now locked worker picked rows d.1 (s.0.1, s.1.1) in
          ((claim_rows-has_id now worker picked r.id rows ∙ s.0.0, rest.0), (s.1.0, rest.1)))
    ]

-- A call of the driver that fails changes nothing.
module _ {A : Type 0} where
  attempt-keeps :
      (faults : List (Option Error)) (change : Rows → Rows) (answer : Rows → A) (s : Session Rows)
      → IsSound s.tables
      → IsSound (change s.tables)
      → IsSound (attempt faults (λ t. ok (change t, answer t)) s).1.tables
  attempt-keeps [] change answer s q c = c
  attempt-keeps (none ∷ faults) change answer s q c = c
  attempt-keeps (some e ∷ faults) change answer s q c = q

  call-keeps :
      (r : Result A) (s : Session Rows)
      → IsSound s.tables
      → IsSound (continue (r, s) (λ a. call >>= λ _. pure a)).1.tables
  call-keeps (err e) s q = q
  call-keeps (ok a) s q = faulty s.faults
    where
      faulty :
          (faults : List (Option Error))
          → IsSound
              (continue (attempt faults (λ t. ok (t, tt)) s) (λ _. pure {T = Rows} a)).1.tables
      faulty [] = q
      faulty (none ∷ faults) = q
      faulty (some e ∷ faults) = q

-- One operation of the queue, on a session whose driver may report a fault. A job is enqueued with
-- no more attempts than it may have.
pub data Step (s : Session Rows) : Session Rows → Type 0 where
  enqueues :
      (new_job_id : Option (ℕ → String)) (now : ℕ) (job : Job)
      → IsWithin (row_of now job)
      → Step s (enqueue new_job_id now job s).1
  claims :
      (now : ℕ) (locked : String → Bool) (worker : String) (limit : ℕ)
      → Step s (claim now locked worker limit s).1
  completes : (id : String) → Step s (complete id s).1
  fails : (now : ℕ) (id cause : String) → Step s (fail now id cause s).1
  cancels_job : (id : String) → Step s (cancel id s).1

pub data Reachable (s : Session Rows) : Session Rows → Type 0 where
  here : Reachable s s
  after : {t v : Session Rows} → Reachable s t → Step t v → Reachable s v

save_job-IsSound :
    (now : ℕ) (job : Job) (s : Session Rows)
    → IsWithin (row_of now job)
    → IsSound s.tables
    → IsSound (save_job now job s).1.tables
unfolding save_job
save_job-IsSound now job s w q =
    attempt-keeps s.faults (upsert (row_of now job)) (λ t. tt) s q
      (upsert-IsSound (row_of now job) s.tables w q)

enqueue-IsSound :
    (new_job_id : Option (ℕ → String)) (now : ℕ) (job : Job) (s : Session Rows)
    → IsWithin (row_of now job)
    → IsSound s.tables
    → IsSound (enqueue new_job_id now job s).1.tables
unfolding enqueue row_of
enqueue-IsSound none now job s w q = elim (Bool-cases (is_empty job.id)) [
  | inl b ↦ rw b q
  | inr b ↦ rw b (save_job-IsSound now job s w q)
]
enqueue-IsSound (some new_job_id) now job s w q =
    if_IsSound (is_empty job.id) _ _
      (save_job-IsSound now (record job { id = new_job_id s.made }) (record s { made = s.made + 1 })
        w q)
      (save_job-IsSound now job s w q)
  where
    if_IsSound :
        (b : Bool) (x y : Result (Unit {0}) × Session Rows)
        → IsSound x.1.tables
        → IsSound y.1.tables
        → IsSound (if b then x else y).1.tables
    if_IsSound true x y p q = p
    if_IsSound false x y p q = q

failed_row-id : (now : ℕ) (cause : String) (r : Row) → (failed_row now cause r).id ≡ r.id
unfolding failed_row
failed_row-id now cause r = elim (Bool-cases (ltb r.attempts r.max_attempts)) [
  | inl b ↦ rw b refl
  | inr b ↦ rw b refl
]

failed_row-IsWithin :
    (now : ℕ) (cause : String) (r : Row) → IsWithin r → IsWithin (failed_row now cause r)
unfolding failed_row
failed_row-IsWithin now cause r w = elim (Bool-cases (ltb r.attempts r.max_attempts)) [
  | inl b ↦ rw b w
  | inr b ↦ rw b w
]

Step-IsSound : {s t : Session Rows} → Step s t → IsSound s.tables → IsSound t.tables
unfolding claim complete fail cancel completed failed_row cancelled_row
Step-IsSound {s} (enqueues new_job_id now job w) q = enqueue-IsSound new_job_id now job s w q
Step-IsSound {s} (claims now locked worker limit) q = call-keeps _ _ (
    attempt-keeps s.faults _ _ s q (
      claim_rows-IsSound now locked worker (chosen now locked limit s.tables) s.tables
        (chosen_due now locked limit s.tables q.0) q))
Step-IsSound {s} (completes id) q =
    attempt-keeps s.faults _ _ s q
      (update_where-IsSound (λ r. r.id == id) completed (λ r. refl) (λ r w. w) s.tables q)
Step-IsSound {s} (fails now id cause) q = attempt-keeps s.faults _ _ s q (
    update_where-IsSound (λ r. r.id == id) (failed_row now cause) (failed_row-id now cause)
      (failed_row-IsWithin now cause) s.tables q)
Step-IsSound {s} (cancels_job id) q = call-keeps _ _ (
    attempt-keeps s.faults _ _ s q
      (update_where-IsSound (cancels id) cancelled_row (λ r. refl) (λ r w. w) s.tables q))

-- From a table with differing keys in which no row has more attempts than its limit, as the empty one, every sequence of claims, completions, failures, cancellations and enqueues of jobs that are themselves within their limit leads to such a table, whatever calls of the driver fail.
pub Reachable-IsSound : {s t : Session Rows} → Reachable s t → IsSound s.tables → IsSound t.tables
Reachable-IsSound here q = q
Reachable-IsSound (after r x) q = Step-IsSound x (Reachable-IsSound r q)
