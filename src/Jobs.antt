-- ===== src/Jobs.antt =====
-- internal/jobs: the job queue in SQL (jobs.go, queue.go). Times are seconds, and `now` is both
-- `time.Now()` and `NOW()`. The columns `created_at` and `updated_at` are left out. A status is one
-- of the constants, or empty.
pub mod Claims
pub mod Attempts
pub mod Limit
pub mod Workers
pub mod Settled
mod Tests
use Prim.Native.Nat.{Ordering}
use Prim.Native.String.{compare}
use gigi_dc.Prelude.{
  ℕ, ◌+◌, ◌*◌, min, String, ◌==◌, Bool, true, false, ◌&&◌, ◌||◌, not, Option, none, some, List, [],
  ◌∷◌, Error, failure, Result, ok, err, is_empty, or_else, any, take, map, keep, append, ltb, leb,
  eqb, is_nil, if◌then◌else◌,
}
use gigi_dc.Sql.{Exec, pure, call, statement, ◌>>=◌, ◌>>◌}

pub data JobStatus : Type 0 where
  queued running succeeded failed cancelled empty_status : JobStatus

-- A zero time is `none`.
pub record Job : Type 0 where
  pub id : String
  pub kind : String
  pub payload : String
  pub status : JobStatus
  pub attempts : ℕ
  pub max_attempts : ℕ
  pub run_after : Option ℕ
  pub locked_by : String
  pub locked_at : Option ℕ
  pub last_error : String

-- A row of the table; a null is `none`.
pub record Row : Type 0 where
  pub id : String
  pub kind : String
  pub payload : String
  pub status : JobStatus
  pub attempts : ℕ
  pub max_attempts : ℕ
  pub run_after : ℕ
  pub locked_by : Option String
  pub locked_at : Option ℕ
  pub last_error : Option String

abbrev pub Rows : Type 0
Rows = List Row

abbrev pub null_if_empty : String → Option String
null_if_empty s = if is_empty s then none else some s

abbrev pub status_or_queued : JobStatus → JobStatus
status_or_queued empty_status = queued
status_or_queued status = status

-- The defaults of `Enqueue`.
unfoldable pub row_of : ℕ → Job → Row
row_of now job = record {
  id = job.id;
  kind = job.kind;
  payload = job.payload;
  status = status_or_queued job.status;
  attempts = job.attempts;
  max_attempts = if ltb 0 job.max_attempts then job.max_attempts else 3;
  run_after = or_else job.run_after now;
  locked_by = null_if_empty job.locked_by;
  locked_at = job.locked_at;
  last_error = null_if_empty job.last_error;
}

-- `INSERT … ON CONFLICT (id) DO UPDATE`.
unfoldable pub upsert : Row → Rows → Rows
upsert row [] = row ∷ []
upsert row (r ∷ rows) =
    let rest = upsert row rows in if r.id == row.id then row ∷ rows else r ∷ rest

unfoldable pub save_job : ℕ → Job → Exec Rows (Unit {0})
save_job now job = statement (λ rows. ok (upsert (row_of now job) rows, tt))

-- `Enqueue`; `new_job_id` is the queue's function, which may be nil.
unfoldable pub enqueue : Option (ℕ → String) → ℕ → Job → Exec Rows (Unit {0})
enqueue none now job s =
    if is_empty job.id then (err (failure "job ID is required"), s) else save_job now job s
enqueue (some new_job_id) now job s =
    if is_empty job.id
    then save_job now (record job { id = new_job_id s.made }) (record s { made = s.made + 1 })
    else save_job now job s

abbrev pub is_queued : JobStatus → Bool
is_queued queued = true
is_queued _ = false

-- The condition of the inner `SELECT`; `locked` are the rows that another transaction holds.
unfoldable pub is_due : ℕ → (String → Bool) → Row → Bool
is_due now locked r =
    is_queued r.status && leb r.run_after now && ltb r.attempts r.max_attempts && not (locked r.id)

abbrev pub text_lt : String → String → Bool
text_lt a b = elim (compare a b) [ Ordering.lt ↦ true | _ ↦ false ]

-- `ORDER BY run_after ASC, id ASC`.
abbrev pub is_before : Row → Row → Bool
is_before a b = ltb a.run_after b.run_after || (eqb a.run_after b.run_after && text_lt a.id b.id)

unfoldable pub insert_ordered : Row → Rows → Rows
insert_ordered r [] = r ∷ []
insert_ordered r (x ∷ xs) =
    let rest = insert_ordered r xs in if is_before r x then r ∷ x ∷ xs else x ∷ rest

unfoldable pub ordered : Rows → Rows
ordered [] = []
ordered (r ∷ rows) = insert_ordered r (ordered rows)

-- The rows that the inner `SELECT … LIMIT` chooses.
unfoldable pub chosen : ℕ → (String → Bool) → ℕ → Rows → Rows
chosen now locked limit rows = take limit (ordered (keep (is_due now locked) rows))

abbrev pub has_id : String → Rows → Bool
has_id id rows = any (λ r. r.id == id) rows

unfoldable pub claimed : ℕ → String → Row → Row
claimed now worker r = record r {
  status = running;
  attempts = r.attempts + 1;
  locked_by = some worker;
  locked_at = some now;
}

-- The `UPDATE`, with the rows that it returns.
unfoldable pub claim_rows : ℕ → String → Rows → Rows → Rows × Rows
claim_rows now worker picked [] = ([], [])
claim_rows now worker picked (r ∷ rows) =
    let rest = claim_rows now worker picked rows in
    if has_id r.id picked
    then (claimed now worker r ∷ rest.0, claimed now worker r ∷ rest.1)
    else (r ∷ rest.0, rest.1)

-- A scanned row.
unfoldable pub job_of : Row → Job
job_of r = record {
  id = r.id;
  kind = r.kind;
  payload = r.payload;
  status = r.status;
  attempts = r.attempts;
  max_attempts = r.max_attempts;
  run_after = some r.run_after;
  locked_by = or_else r.locked_by "";
  locked_at = r.locked_at;
  last_error = or_else r.last_error "";
}

-- Reading the returned rows is a further call of the driver, after the update.
unfoldable pub claim : ℕ → (String → Bool) → String → ℕ → Exec Rows (List Job)
claim now locked worker limit = do
  jobs ← statement (λ rows.
      let updated = claim_rows now worker (chosen now locked limit rows) rows in
      ok (updated.0, map job_of updated.1))
  call
  pure jobs

-- `UPDATE … WHERE id = $1`, with a further condition.
unfoldable pub update_where : (Row → Bool) → (Row → Row) → Rows → Rows
update_where p change [] = []
update_where p change (r ∷ rows) =
    let rest = update_where p change rows in if p r then change r ∷ rest else r ∷ rest

unfoldable pub completed : Row → Row
completed r = record r { status = succeeded; locked_by = none; locked_at = none; last_error = none }

unfoldable pub complete : String → Exec Rows (Unit {0})
complete id = statement (λ rows. ok (update_where (λ r. r.id == id) completed rows, tt))

abbrev pub backoff : ℕ → ℕ
backoff attempts = min 300 (5 * attempts)

unfoldable pub failed_row : ℕ → String → Row → Row
failed_row now cause r =
    if ltb r.attempts r.max_attempts
    then record r {
      status = queued;
      last_error = some cause;
      run_after = now + backoff r.attempts;
      locked_by = none;
      locked_at = none;
    }
    else record r { status = failed; last_error = some cause; locked_by = none; locked_at = none }

-- `cause` is the text of the error, empty for nil.
unfoldable pub fail : ℕ → String → String → Exec Rows (Unit {0})
fail now id cause =
    statement (λ rows. ok (update_where (λ r. r.id == id) (failed_row now cause) rows, tt))

abbrev pub is_cancellable : JobStatus → Bool
is_cancellable queued = true
is_cancellable failed = true
is_cancellable _ = false

abbrev pub cancels : String → Row → Bool
cancels id r = r.id == id && is_cancellable r.status

unfoldable pub cancelled_row : Row → Row
cancelled_row r = record r { status = cancelled; locked_by = none; locked_at = none }

-- `Cancel` tells whether a row was affected, which is a further call of the driver.
unfoldable pub cancel : String → Exec Rows Bool
cancel id = do
  affected ←
      statement (λ rows. ok (update_where (cancels id) cancelled_row rows, any (cancels id) rows))
  call
  pure affected
