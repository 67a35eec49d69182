-- ===== src/Agent/Store/Confirmations.antt =====
-- internal/agent/run_store.go: the confirmations that a person is asked for. `now` is `now()`; the
-- time at which a confirmation expires, which no statement reads, is left out.
pub mod Resolved
pub mod Settled
use gigi_dc.Prelude.{
  ℕ, String, ◌==◌, Bool, true, false, ◌&&◌, not, Option, none, some, List, [], ◌∷◌, push, any,
  Error, failure, Result, ok, err, trim, is_empty, is_some, ltb, if◌then◌else◌,
}
use gigi_dc.Prelude.Unicode.{Unicode}
use gigi_dc.Sql.{Exec, lift, pure, call, statement, labelled, ◌>>=◌, ◌>>◌}
use gigi_dc.Agent.{ConfirmationRecord, ConfirmationStatus, pending, confirmed, canceled, expired}
use gigi_dc.Agent.Store.{affected_or_no_rows}
use gigi_dc.Agent.Store.Steps.{sanitize_step_observation}

pub record ConfirmationRow : Type 0 where
  pub confirmation : ConfirmationRecord
  pub resolved_by_user_id : Option String
  pub confirmed_at : Option ℕ
  pub canceled_at : Option ℕ
  pub created_at : ℕ

abbrev pub ConfirmationRows : Type 0
ConfirmationRows = List ConfirmationRow

abbrev pub is_pending : ConfirmationStatus → Bool
is_pending pending = true
is_pending _ = false

abbrev pub has_key : String → ConfirmationRow → Bool
has_key id r = r.confirmation.id == id

unfoldable pub insert_confirmation :
    ConfirmationRow → ConfirmationRows → Result (ConfirmationRows × Unit {0})
insert_confirmation x rows =
    if any (has_key x.confirmation.id) rows
    then err (failure "duplicate key value violates unique constraint")
    else ok (push rows x, tt)

unfoldable pub confirmation_row : Unicode → ℕ → ConfirmationRecord → ConfirmationRow
confirmation_row u now x = record {
  confirmation = record x {
    id = trim x.id;
    run_id = trim x.run_id;
    tool_name = trim x.tool_name;
    payload = sanitize_step_observation u x.payload;
    created_by_user_id = trim x.created_by_user_id;
  };
  resolved_by_user_id = none;
  confirmed_at = none;
  canceled_at = none;
  created_at = now;
}

unfoldable pub create_confirmation :
    Unicode → ℕ → ConfirmationRecord → Exec ConfirmationRows (Unit {0})
create_confirmation u now x =
    if is_empty (trim x.id)
    then lift (err (failure "agent confirmation ID is required"))
    else if is_empty (trim x.run_id)
    then lift (err (failure "agent run ID is required"))
    else labelled "create agent confirmation"
        (statement (insert_confirmation (confirmation_row u now x)))

abbrev pub is_pending_of : String → ConfirmationRow → Bool
is_pending_of run_id r = r.confirmation.run_id == run_id && is_pending r.confirmation.status

abbrev pub newer : ConfirmationRow → Option ConfirmationRow → Option ConfirmationRow
newer r none = some r
newer r (some q) = if ltb r.created_at q.created_at then some q else some r

-- `order by created_at desc limit 1`.
unfoldable pub newest_pending : String → ConfirmationRows → Option ConfirmationRow
newest_pending run_id [] = none
newest_pending run_id (r ∷ rows) =
    let rest = newest_pending run_id rows in if is_pending_of run_id r then newer r rest else rest

unfoldable pub pending_confirmation : String → Exec ConfirmationRows (Option ConfirmationRow)
pending_confirmation raw =
    let run_id = trim raw in
    if is_empty run_id
    then pure none
    else labelled "load pending agent confirmation"
        (statement (λ rows. ok (rows, newest_pending run_id rows)))

abbrev pub set_if : Bool → ℕ → Option ℕ → Option ℕ
set_if b now old = if b then some now else old

abbrev pub is_confirmed : ConfirmationStatus → Bool
is_confirmed confirmed = true
is_confirmed _ = false

abbrev pub is_canceled_status : ConfirmationStatus → Bool
is_canceled_status canceled = true
is_canceled_status _ = false

unfoldable pub resolved_row : ℕ → ConfirmationStatus → String → ConfirmationRow → ConfirmationRow
resolved_row now status actor r = record r {
  confirmation = record (r.confirmation) { status = status };
  resolved_by_user_id = some actor;
  confirmed_at = set_if (is_confirmed status) now r.confirmed_at;
  canceled_at = set_if (is_canceled_status status) now r.canceled_at;
}

abbrev pub can_resolve : String → ConfirmationRow → Bool
can_resolve id r = has_key id r && is_pending r.confirmation.status

unfoldable pub resolve_rows :
    ℕ → String → ConfirmationStatus → String → ConfirmationRows → ConfirmationRows
resolve_rows now id status actor [] = []
resolve_rows now id status actor (r ∷ rows) =
    let rest = resolve_rows now id status actor rows in
    if can_resolve id r then resolved_row now status actor r ∷ rest else r ∷ rest

unfoldable pub resolve_confirmation :
    ℕ → String → ConfirmationStatus → String → Exec ConfirmationRows (Unit {0})
resolve_confirmation now raw status raw_actor =
    let id = trim raw in
    if is_empty id
    then lift (err (failure "agent confirmation ID is required"))
    else if is_pending status
    then lift (err (failure "unsupported agent confirmation status"))
    else (do
      affected ← labelled "resolve agent confirmation" (
          statement (λ rows.
            ok (resolve_rows now id status (trim raw_actor) rows, any (can_resolve id) rows)))
      labelled "resolve agent confirmation rows affected" call
      lift (affected_or_no_rows affected))
