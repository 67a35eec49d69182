-- ===== src/Agent/Store.antt =====
-- internal/agent/run_store.go: the statements on the table of runs that cancellation depends on.
-- `now` is `now()`; the columns `updated_at` and `cancel_requested_by_user_id` are left
-- out, and so is the error of a store that was made without a database.
pub mod Canceled
pub mod Steps
pub mod Confirmations
mod Tests
use gigi_dc.Prelude.{
  ℕ, String, ◌==◌, Bool, true, false, ◌&&◌, ◌||◌, not, Option, none, some, List, [], ◌∷◌, Error,
  failure, no_rows, Result, ok, err, trim, is_empty, is_some, any, if◌then◌else◌,
}
use gigi_dc.Sql.{Session, Exec, lift, pure, call, statement, labelled, ◌>>=◌, ◌>>◌}
use gigi_dc.Agent.{RunRecord, RunStatus, TerminationReason, empty_run_status}

-- A row of `agent_runs`; `record` holds the columns that only the insertion writes.
pub record RunRow : Type 0 where
  pub id : String
  pub columns : RunRecord
  pub status : RunStatus
  pub termination_reason : Option TerminationReason
  pub cancel_requested_at : Option ℕ
  pub completed_at : Option ℕ
  pub canceled_at : Option ℕ

abbrev pub RunRows : Type 0
RunRows = List RunRow

abbrev pub is_status_canceled : RunStatus → Bool
is_status_canceled RunStatus.canceled = true
is_status_canceled _ = false

abbrev pub is_status_running : RunStatus → Bool
is_status_running RunStatus.running = true
is_status_running _ = false

-- `status = 'canceled' or cancel_requested_at is not null`.
abbrev pub is_canceled : RunRow → Bool
is_canceled r = is_status_canceled r.status || is_some r.cancel_requested_at

abbrev pub status_or_running : RunStatus → RunStatus
status_or_running empty_run_status = RunStatus.running
status_or_running status = status

unfoldable pub new_run_row : RunRecord → RunRow
new_run_row x = record {
  id = trim x.id;
  columns = record x {
    id = trim x.id;
    guild_id = trim x.guild_id;
    channel_id = trim x.channel_id;
    actor_user_id = trim x.actor_user_id;
    context_scope = trim x.context_scope;
    status = status_or_running x.status;
  };
  status = status_or_running x.status;
  termination_reason = none;
  cancel_requested_at = none;
  completed_at = none;
  canceled_at = none;
}

-- The update on a conflict.
unfoldable pub restarted : RunStatus → RunRow → RunRow
restarted status r =
    if is_canceled r
    then r
    else record r { status = status; termination_reason = none; completed_at = none }

unfoldable pub upsert_run : RunRow → RunRows → RunRows
upsert_run x [] = x ∷ []
upsert_run x (r ∷ rows) =
    let rest = upsert_run x rows in if r.id == x.id then restarted x.status r ∷ rows else r ∷ rest

unfoldable pub sql_start_run : RunRecord → Exec RunRows (Unit {0})
sql_start_run x =
    if is_empty (trim x.id)
    then lift (err (failure "agent run ID is required"))
    else labelled "start agent run" (statement (λ rows. ok (upsert_run (new_run_row x) rows, tt)))

unfoldable pub ended : ℕ → RunStatus → TerminationReason → RunRow → RunRow
ended now status reason r = record r {
  status = if is_canceled r then RunStatus.canceled else status;
  termination_reason = some (if is_canceled r then TerminationReason.canceled else reason);
  completed_at = some now;
  canceled_at =
      if is_status_canceled status || is_some r.cancel_requested_at
      then some now
      else r.canceled_at;
}

unfoldable pub update_runs : (RunRow → Bool) → (RunRow → RunRow) → RunRows → RunRows
update_runs p change [] = []
update_runs p change (r ∷ rows) =
    let rest = update_runs p change rows in if p r then change r ∷ rest else r ∷ rest

unfoldable pub sql_complete_run :
    ℕ → String → RunStatus → TerminationReason → Exec RunRows (Unit {0})
sql_complete_run now raw status reason =
    let run_id = trim raw in
    if is_empty run_id
    then lift (err (failure "agent run ID is required"))
    else labelled "complete agent run" (
        statement
          (λ rows. ok (update_runs (λ r. r.id == run_id) (ended now status reason) rows, tt)))

-- The row with a key, of which there is at most one.
unfoldable pub canceled_run : String → RunRows → Bool
canceled_run run_id [] = false
canceled_run run_id (r ∷ rows) =
    let rest = canceled_run run_id rows in if r.id == run_id then is_canceled r else rest

unfoldable pub sql_is_run_canceled : String → Exec RunRows Bool
sql_is_run_canceled raw =
    let run_id = trim raw in
    if is_empty run_id
    then pure false
    else labelled "check agent run cancellation"
        (statement (λ rows. ok (rows, canceled_run run_id rows)))

abbrev pub can_cancel : String → RunRow → Bool
can_cancel run_id r =
    r.id == run_id
    && is_status_running r.status
    && not (is_some r.completed_at)
    && not (is_some r.cancel_requested_at)

abbrev pub affected_or_no_rows : Bool → Result (Unit {0})
affected_or_no_rows true = ok tt
affected_or_no_rows false = err no_rows

unfoldable pub cancel_requested : ℕ → RunRow → RunRow
cancel_requested now r = record r { cancel_requested_at = some now }

unfoldable pub request_cancel_run : ℕ → String → Exec RunRows (Unit {0})
request_cancel_run now raw =
    let run_id = trim raw in
    if is_empty run_id then lift (err (failure "agent run ID is required")) else (do
      affected ← labelled "request cancel agent run" (
          statement (λ rows. ok (
            update_runs (can_cancel run_id) (cancel_requested now) rows,
            any (can_cancel run_id) rows,
          )))
      labelled "request cancel agent run rows affected" call
      lift (affected_or_no_rows affected))
