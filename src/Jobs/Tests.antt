-- ===== src/Jobs/Tests.antt =====
-- The queue with one job, and a pool of two workers.
use gigi_dc.Prelude.{◌≡◌, refl, false, none, some, [], ◌∷◌, ok, arith}
use gigi_dc.Sql.{Session}
use gigi_dc.Jobs.{
  Rows, Job, running, empty_status, row_of, upsert, save_job, enqueue, is_due, chosen, ordered,
  insert_ordered, claim_rows, claimed, claim, job_of,
}
use gigi_dc.Jobs.Attempts.{IsSound, here, after, enqueues, claims, Reachable-IsSound}
use gigi_dc.Jobs.Limit.{IsShort, claim-IsShort}
use gigi_dc.Jobs.Workers.{PoolState, new_worker_pool, process_job}
use gigi_dc.Jobs.Settled.{IsSettled, process_job-IsSettled}

abbrev reminder : Job
reminder = record {
  id = "job-1";
  kind = "reminder";
  payload = "{}";
  status = empty_status;
  attempts = 0;
  max_attempts = 0;
  run_after = none;
  locked_by = "";
  locked_at = none;
  last_error = "";
}

abbrev empty_queue : Session Rows
empty_queue = record { tables = []; faults = []; made = 0 }

abbrev enqueued : Session Rows
enqueued = (enqueue none 100 reminder empty_queue).1

abbrev started : Session Rows
started = (claim 100 (λ id. false) "worker-1" 2 enqueued).1

-- The job is claimed, with its first attempt of three.
claimed_once :
    (claim 100 (λ id. false) "worker-1" 2 enqueued).0
    ≡ ok (
        record reminder {
          status = running;
          attempts = 1;
          max_attempts = 3;
          run_after = some 100;
          locked_by = "worker-1";
          locked_at = some 100;
        }
        ∷ [])
unfolding enqueue save_job upsert row_of claim chosen is_due ordered insert_ordered claim_rows
    claimed job_of
claimed_once = refl

Reachable-IsSound_example : IsSound started.tables
unfolding row_of
Reachable-IsSound_example =
    Reachable-IsSound
      (after (after here (enqueues none 100 reminder (ground arith)))
        (claims 100 (λ id. false) "worker-1" 2))
      (tt, tt)

claim-IsShort_example : IsShort 2 (claim 100 (λ id. false) "worker-1" 2 enqueued).0
unfolding enqueue save_job upsert row_of
claim-IsShort_example = claim-IsShort 100 (λ id. false) "worker-1" 2 enqueued (refl, tt)

abbrev one_worker : PoolState
one_worker = new_worker_pool 1

process_job-IsSettled_example :
    IsSettled "job-1" (process_job [] (λ e. "failed") 100 reminder started).1.tables
unfolding enqueue save_job upsert row_of claim
process_job-IsSettled_example = process_job-IsSettled [] (λ e. "failed") 100 reminder started refl
