-- ===== src/Agent/Store/Canceled.antt =====
-- internal/agent/run_store.go: the cancellation of a run, over the calls of the store.
use gigi_dc.Prelude.{
  ℕ, String, ◌==◌, ◌≡◌, refl, sym, subst, Bool, true, false, Option, none, some, List, [], ◌∷◌,
  Error, Result, ok, err, trim, is_empty, any, arith, inl, inr, Bool-cases, if◌then◌else◌,
}
use gigi_dc.Sql.{Session, Exec, attempt, continue, relabel, call, lift, labelled, ◌>>=◌}
use gigi_dc.Agent.{RunRecord, RunStatus, TerminationReason}
use gigi_dc.Agent.Store.{
  RunRow, RunRows, is_canceled, is_status_canceled, new_run_row, restarted, upsert_run,
  sql_start_run, ended, update_runs, sql_complete_run, canceled_run, affected_or_no_rows,
  can_cancel, cancel_requested, request_cancel_run,
}

-- A row may be replaced by one with its key that is no less cancelled.
cons-canceled_run :
    (id : String) (r n : RunRow) (rows rest : RunRows)
    → n.id ≡ r.id
    → (is_canceled r ≡ true → is_canceled n ≡ true)
    → (canceled_run id rows ≡ true → canceled_run id rest ≡ true)
    → canceled_run id (r ∷ rows) ≡ true
    → canceled_run id (n ∷ rest) ≡ true
unfolding canceled_run
cons-canceled_run id r n rows rest q k l c = elim (Bool-cases (r.id == id)) [
  | inl b ↦ rw (q, b) (k (if_true b c))
  | inr b ↦ rw (q, b) (l (if_false b c))
]
  where
    if_true : (r.id == id) ≡ true → canceled_run id (r ∷ rows) ≡ true → is_canceled r ≡ true
    if_true b c = ground (arith, b, c)

    if_false :
        (r.id == id) ≡ false → canceled_run id (r ∷ rows) ≡ true → canceled_run id rows ≡ true
    if_false b c = ground (arith, b, c)

restarted-id : (status : RunStatus) (r : RunRow) → (restarted status r).id ≡ r.id
unfolding restarted
restarted-id status r = elim (Bool-cases (is_canceled r)) [ inl b ↦ rw b refl | inr b ↦ rw b refl ]

restarted-is_canceled :
    (status : RunStatus) (r : RunRow)
    → is_canceled r ≡ true
    → is_canceled (restarted status r) ≡ true
unfolding restarted
restarted-is_canceled status r c = subst (λ x. is_canceled x ≡ true) (sym (same c)) c
  where
    same : is_canceled r ≡ true → restarted status r ≡ r
    same c = rw c refl

upsert-canceled_run :
    (id : String) (x : RunRow) (rows : RunRows)
    → canceled_run id rows ≡ true
    → canceled_run id (upsert_run x rows) ≡ true
unfolding upsert_run canceled_run
upsert-canceled_run id x [] c = ground (arith, c)
upsert-canceled_run id x (r ∷ rows) c = elim (Bool-cases (r.id == x.id)) [
  | inl b ↦ rw b (
      cons-canceled_run id r (restarted x.status r) rows rows (restarted-id x.status r)
        (restarted-is_canceled x.status r) (λ q. q) c)
  | inr b ↦ rw b (
      cons-canceled_run id r r rows (upsert_run x rows) refl (λ q. q)
        (upsert-canceled_run id x rows) c)
]

module _ (p : RunRow → Bool) (change : RunRow → RunRow) (same : (r : RunRow) → (change r).id ≡ r.id)
    (kept : (r : RunRow) → is_canceled r ≡ true → is_canceled (change r) ≡ true) where
  update-canceled_run :
      (id : String) (rows : RunRows)
      → canceled_run id rows ≡ true
      → canceled_run id (update_runs p change rows) ≡ true
  unfolding update_runs
  update-canceled_run id [] c = c
  update-canceled_run id (r ∷ rows) c = elim (Bool-cases (p r)) [
    | inl b ↦ rw b (
        cons-canceled_run id r (change r) rows (update_runs p change rows) (same r) (kept r)
          (update-canceled_run id rows) c)
    | inr b ↦ rw b (
        cons-canceled_run id r r rows (update_runs p change rows) refl (λ q. q)
          (update-canceled_run id rows) c)
  ]

ended-is_canceled :
    (now : ℕ) (status : RunStatus) (reason : TerminationReason) (r : RunRow)
    → is_canceled r ≡ true
    → is_canceled (ended now status reason r) ≡ true
unfolding ended
ended-is_canceled now status reason r c = rw c refl

ended-id :
    (now : ℕ) (status : RunStatus) (reason : TerminationReason) (r : RunRow)
    → (ended now status reason r).id ≡ r.id
unfolding ended
ended-id now status reason r = refl

cancel_requested-id : (now : ℕ) (r : RunRow) → (cancel_requested now r).id ≡ r.id
unfolding cancel_requested
cancel_requested-id now r = refl

cancel_requested-is_canceled :
    (now : ℕ) (r : RunRow) → is_canceled r ≡ true → is_canceled (cancel_requested now r) ≡ true
unfolding cancel_requested
cancel_requested-is_canceled now r c = elim (Bool-cases (is_status_canceled r.status)) [
  | inl b ↦ rw b refl
  | inr b ↦ rw b refl
]

-- Calls of the driver, whether they fail or not.
module _ {A : Type 0} (id : String) where
  labelled-canceled_run :
      (faults : List (Option Error)) (label : String) (change : RunRows → RunRows)
      (answer : RunRows → A) (s : Session RunRows)
      → canceled_run id s.tables ≡ true
      → canceled_run id (change s.tables) ≡ true
      → canceled_run id (relabel label (attempt faults (λ t. ok (change t, answer t)) s)).1.tables
        ≡ true
  labelled-canceled_run [] label change answer s c k = k
  labelled-canceled_run (none ∷ faults) label change answer s c k = k
  labelled-canceled_run (some e ∷ faults) label change answer s c k = c

confirm-canceled_run :
    (id label : String) (r : Result Bool) (s : Session RunRows)
    → canceled_run id s.tables ≡ true
    → canceled_run id
        (continue (r, s) (λ a. labelled label call >>= λ _. lift (affected_or_no_rows a))).1.tables
      ≡ true
confirm-canceled_run id label (err e) s c = c
confirm-canceled_run id label (ok a) s c = faulty s.faults
  where
    faulty :
        (faults : List (Option Error))
        → canceled_run id
            (continue
              (relabel label (attempt faults (λ t. ok (t, tt)) s))
              (λ _. lift {T = RunRows} (affected_or_no_rows a))).1.tables
          ≡ true
    faulty [] = c
    faulty (none ∷ faults) = c
    faulty (some e ∷ faults) = c

-- One call of the run store.
pub data StoreStep (s : Session RunRows) : Session RunRows → Type 0 where
  starts_run : (x : RunRecord) → StoreStep s (sql_start_run x s).1
  completes_run :
      (now : ℕ) (id : String) (status : RunStatus) (reason : TerminationReason)
      → StoreStep s (sql_complete_run now id status reason s).1
  requests_cancel : (now : ℕ) (id : String) → StoreStep s (request_cancel_run now id s).1

pub data StoreRun (s : Session RunRows) : Session RunRows → Type 0 where
  unchanged : StoreRun s s
  then_step : {t v : Session RunRows} → StoreRun s t → StoreStep t v → StoreRun s v

if_canceled :
    (id : String) {A : Type 0} (b : Bool) (x y : Exec RunRows A) (s : Session RunRows)
    → canceled_run id (x s).1.tables ≡ true
    → canceled_run id (y s).1.tables ≡ true
    → canceled_run id ((if b then x else y) s).1.tables ≡ true
if_canceled id true x y s p q = p
if_canceled id false x y s p q = q

StoreStep-canceled_run :
    (id : String) {s t : Session RunRows}
    → StoreStep s t
    → canceled_run id s.tables ≡ true
    → canceled_run id t.tables ≡ true
unfolding sql_start_run sql_complete_run request_cancel_run
StoreStep-canceled_run id {s} (starts_run x) c = if_canceled id (is_empty (trim x.id)) _ _ s c (
    labelled-canceled_run id s.faults "start agent run" (upsert_run (new_run_row x)) (λ t. tt) s c
      (upsert-canceled_run id (new_run_row x) s.tables c))
StoreStep-canceled_run id {s} (completes_run now i status reason) c =
    if_canceled id (is_empty (trim i)) _ _ s c (
      labelled-canceled_run id s.faults "complete agent run"
        (update_runs (λ r. r.id == trim i) (ended now status reason)) (λ t. tt) s c
        (update-canceled_run (λ r. r.id == trim i) (ended now status reason)
          (ended-id now status reason) (ended-is_canceled now status reason) id s.tables c))
StoreStep-canceled_run id {s} (requests_cancel now i) c =
    if_canceled id (is_empty (trim i)) _ _ s c (
      confirm-canceled_run id "request cancel agent run rows affected" _ _ (
        labelled-canceled_run id s.faults "request cancel agent run"
          (update_runs (can_cancel (trim i)) (cancel_requested now))
          (λ t. any (can_cancel (trim i)) t) s c
          (update-canceled_run (can_cancel (trim i)) (cancel_requested now)
            (cancel_requested-id now) (cancel_requested-is_canceled now) id s.tables c)))

-- Once a run is cancelled or its cancellation requested, no sequence of starts, completions and
-- requests, on this or other runs and with any faults of the driver, makes it uncancelled.
pub StoreRun-canceled_run :
    (id : String) {s t : Session RunRows}
    → StoreRun s t
    → canceled_run id s.tables ≡ true
    → canceled_run id t.tables ≡ true
StoreRun-canceled_run id unchanged c = c
StoreRun-canceled_run id (then_step r x) c =
    StoreStep-canceled_run id x (StoreRun-canceled_run id r c)
