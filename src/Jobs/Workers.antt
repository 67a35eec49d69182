-- ===== src/Jobs/Workers.antt =====
-- internal/jobs/worker.go: the pool's poll loop and its running jobs, as steps that interleave. The
-- queue's `Claim` is held to its limit.
use gigi_dc.Prelude.{
  ℕ, ◌+◌, ◌-◌, ◌≤◌, ◌<◌, ◌≡◌, String, Option, some, none, List, [], ◌∷◌, length, Error, Result, ok,
  err, ltb, if◌then◌else◌,
}
use gigi_dc.Prelude.Maps.{lookup}
use gigi_dc.Sql.{Exec}
use gigi_dc.Jobs.{Rows, Job, complete, fail}
use gigi_dc.Jobs.Limit.{IsShort}

-- Where the poll loop stands: waiting for its ticker, between reading `active` and the claim, or
-- starting the jobs it was given.
pub data Phase : Type 0 where
  waiting : Phase
  reading : ℕ → Phase
  starting : List Job → Phase

pub record PoolState : Type 0 where
  pub max_workers : ℕ
  pub active : ℕ
  pub phase : Phase

-- `NewWorkerPool`.
unfoldable pub new_worker_pool : ℕ → PoolState
new_worker_pool max_workers = record {
  max_workers = if ltb 0 max_workers then max_workers else 5;
  active = 0;
  phase = waiting;
}

-- `pollAndDispatch` up to the claim.
unfoldable pub poll : PoolState → PoolState
poll p =
    if ltb p.active p.max_workers
    then record p { phase = reading (p.max_workers - p.active) }
    else p

-- The claim's answer.
unfoldable pub receive : Result (List Job) → PoolState → PoolState
receive (ok jobs) p = record p { phase = starting jobs }
receive (err e) p = record p { phase = waiting }

-- The loop starts the goroutine of one job.
unfoldable pub dispatch : List Job → PoolState → PoolState
dispatch jobs p = record p { active = p.active + 1; phase = starting jobs }

-- The deferred function of a job that has ended.
unfoldable pub release : PoolState → PoolState
release p = record p { active = p.active - 1 }

pub data PoolStep (p : PoolState) : PoolState → Type 0 where
  polls : p.phase ≡ waiting → PoolStep p (poll p)
  receives :
      (available : ℕ) (jobs : Result (List Job))
      → p.phase ≡ reading available
      → IsShort available jobs
      → PoolStep p (receive jobs p)
  dispatches :
      (job : Job) (jobs : List Job) → p.phase ≡ starting (job ∷ jobs) → PoolStep p (dispatch jobs p)
  rests : p.phase ≡ starting [] → PoolStep p (record p { phase = waiting })
  releases : 0 < p.active → PoolStep p (release p)

pub data PoolRun (p : PoolState) : PoolState → Type 0 where
  unmoved : PoolRun p p
  moved : {q r : PoolState} → PoolRun p q → PoolStep q r → PoolRun p r

abbrev pub expected : Phase → ℕ
expected waiting = 0
expected (reading available) = available
expected (starting jobs) = length jobs

-- The jobs that run, and those that the loop may still start, fit.
abbrev pub Fits : PoolState → Type 0
Fits p = p.active + expected p.phase ≤ p.max_workers

-- `processJob`: a handler is given the payload and may return an error; the results of `Fail` and
-- `Complete` are only logged. `message` is the text of an error.
unfoldable pub conclude_job : (Error → String) → ℕ → String → Option Error → Exec Rows (Unit {0})
conclude_job message now id (some e) = fail now id (message e)
conclude_job message now id none = complete id

unfoldable pub handle_job :
    Option (String → Option Error) → (Error → String) → ℕ → Job → Exec Rows (Unit {0})
handle_job none message now job = fail now job.id "no handler registered"
handle_job (some handler) message now job = conclude_job message now job.id (handler job.payload)

unfoldable pub process_job :
    List (String × (String → Option Error)) → (Error → String) → ℕ → Job → Exec Rows (Unit {0})
process_job handlers message now job = handle_job (lookup job.kind handlers) message now job
