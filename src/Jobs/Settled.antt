-- ===== src/Jobs/Settled.antt =====
-- internal/jobs/worker.go: what `processJob` leaves in the queue.
use gigi_dc.Prelude.{
  ℕ, ◌≡◌, refl, String, ◌==◌, Bool, true, false, Option, some, none, List, [], ◌∷◌, Error, ltb, All,
  Bool-cases, inl, inr, arith,
}
use gigi_dc.Prelude.Maps.{lookup}
use gigi_dc.Sql.{Session}
use gigi_dc.Jobs.{
  Row, Rows, Job, JobStatus, running, update_where, completed, failed_row, complete, fail,
}
use gigi_dc.Jobs.Workers.{conclude_job, handle_job, process_job}

abbrev pub is_running : JobStatus → Bool
is_running running = true
is_running _ = false

-- No row with the key is running.
abbrev pub IsSettled : String → Rows → Type 0
IsSettled id = All (λ r. (r.id == id) ≡ true → is_running r.status ≡ false)

update_where-IsSettled :
    (id : String) (change : Row → Row)
    → ((r : Row) → is_running (change r).status ≡ false)
    → (rows : Rows) → IsSettled id (update_where (λ r. r.id == id) change rows)
unfolding update_where
update_where-IsSettled id change k [] = tt
update_where-IsSettled id change k (r ∷ rows) = elim (Bool-cases (r.id == id)) [
  | inl b ↦ rw b ((λ q. k r), update_where-IsSettled id change k rows)
  | inr b ↦ rw b ((λ q. ground (arith, b, q)), update_where-IsSettled id change k rows)
]

failed_row-status :
    (now : ℕ) (cause : String) (r : Row) → is_running (failed_row now cause r).status ≡ false
unfolding failed_row
failed_row-status now cause r = elim (Bool-cases (ltb r.attempts r.max_attempts)) [
  | inl b ↦ rw b refl
  | inr b ↦ rw b refl
]

fail-IsSettled :
    (now : ℕ) (id cause : String) (s : Session Rows)
    → s.faults ≡ []
    → IsSettled id (fail now id cause s).1.tables
unfolding fail
fail-IsSettled now id cause s q =
    rw q (update_where-IsSettled id (failed_row now cause) (failed_row-status now cause) s.tables)

conclude_job-IsSettled :
    (message : Error → String) (now : ℕ) (id : String) (e : Option Error) (s : Session Rows)
    → s.faults ≡ []
    → IsSettled id (conclude_job message now id e s).1.tables
unfolding conclude_job complete completed
conclude_job-IsSettled message now id none s q =
    rw q (update_where-IsSettled id completed (λ r. refl) s.tables)
conclude_job-IsSettled message now id (some e) s q = fail-IsSettled now id (message e) s q

handle_job-IsSettled :
    (handler : Option (String → Option Error)) (message : Error → String) (now : ℕ) (job : Job)
    (s : Session Rows)
    → s.faults ≡ []
    → IsSettled job.id (handle_job handler message now job s).1.tables
unfolding handle_job
handle_job-IsSettled none message now job s q =
    fail-IsSettled now job.id "no handler registered" s q
handle_job-IsSettled (some handler) message now job s q =
    conclude_job-IsSettled message now job.id (handler job.payload) s q

-- Where the driver reports no fault, a job that has been processed, whatever its handler returned
-- and also where none is registered, is no longer running.
pub process_job-IsSettled :
    (handlers : List (String × (String → Option Error))) (message : Error → String) (now : ℕ)
    (job : Job) (s : Session Rows)
    → s.faults ≡ []
    → IsSettled job.id (process_job handlers message now job s).1.tables
unfolding process_job
process_job-IsSettled handlers message now job s q =
    handle_job-IsSettled (lookup job.kind handlers) message now job s q
