-- ===== src/Agent/Store/Confirmations/Resolved.antt =====
-- internal/agent/run_store.go: a confirmation is resolved once.
use gigi_dc.Prelude.{
  ℕ, ◌≡◌, refl, sym, subst, failure, ◌≢◌, String, Bool, true, false, Option, none, some, List, [],
  ◌∷◌, any, Error, Result, ok, err, trim, is_empty, arith, if◌then◌else◌,
}
use gigi_dc.Prelude.Unicode.{Unicode}
use gigi_dc.Sql.{Session, attempt, relabel, continue, call, lift, labelled, ◌>>=◌}
use gigi_dc.Agent.{ConfirmationRecord, ConfirmationStatus}
use gigi_dc.Agent.Store.{affected_or_no_rows}
use gigi_dc.Agent.Store.Confirmations.{
  ConfirmationRows, has_key, can_resolve, is_pending, create_confirmation, resolve_rows,
  resolve_confirmation,
}
use gigi_dc.Agent.Store.Confirmations.Settled.{
  IsSettled, resolve_rows-has_key, resolve_rows-resolved, create_confirmation-IsSettled,
  resolve_confirmation-IsSettled, resolve_statement,
}

module _ (now : ℕ) (id : String) (status : ConfirmationStatus) (actor : String) where
  confirmed_rows :
      (faults : List (Option Error)) (b : Bool) (s : Session ConfirmationRows)
      → (continue
          (relabel "resolve agent confirmation rows affected"
            (attempt faults (λ rows. ok (rows, tt)) s))
          (λ x. lift {T = ConfirmationRows} (affected_or_no_rows b))).0
        ≡ ok tt
      → (b ≡ true)
        × ((continue
              (relabel "resolve agent confirmation rows affected"
                (attempt faults (λ rows. ok (rows, tt)) s))
              (λ x. lift {T = ConfirmationRows} (affected_or_no_rows b))).1.tables
            ≡ s.tables)
  confirmed_rows [] true s e = (refl, refl)
  confirmed_rows [] false s e = cc
  confirmed_rows (none ∷ faults) true s e = (refl, refl)
  confirmed_rows (none ∷ faults) false s e = cc
  confirmed_rows (some x ∷ faults) b s e = cc

  abbrev resolution :
      List (Option Error) → Session ConfirmationRows → Result (Unit {0}) × Session ConfirmationRows
  resolution faults s =
      continue
        (relabel "resolve agent confirmation"
          (attempt faults (resolve_statement now id status actor) s))
        (λ affected. labelled "resolve agent confirmation rows affected" call >>= λ x.
          lift (affected_or_no_rows affected))

  resolution_ok :
      (faults : List (Option Error)) (s : Session ConfirmationRows)
      → (resolution faults s).0 ≡ ok tt
      → (any (can_resolve id) s.tables ≡ true)
        × ((resolution faults s).1.tables ≡ resolve_rows now id status actor s.tables)
  resolution_ok [] s e = confirmed_rows s.faults _ _ e
  resolution_ok (none ∷ faults) s e = confirmed_rows faults _ _ e
  resolution_ok (some x ∷ faults) s e = cc

can_resolve-has_key :
    (id : String) (rows : ConfirmationRows)
    → any (can_resolve id) rows ≡ true
    → any (has_key id) rows ≡ true
can_resolve-has_key id [] h = h
can_resolve-has_key id (r ∷ rows) h = ground (arith, h, can_resolve-has_key id rows)

-- A resolution that succeeds found a pending row, and leaves none with its key.
resolve_confirmation_ok :
    (now : ℕ) (raw : String) (status : ConfirmationStatus) (actor : String)
    (s : Session ConfirmationRows)
    → (resolve_confirmation now raw status actor s).0 ≡ ok tt
    → (any (can_resolve (trim raw)) s.tables ≡ true)
      × IsSettled (trim raw) (resolve_confirmation now raw status actor s).1.tables
unfolding resolve_confirmation
resolve_confirmation_ok now raw status actor s =
    by_tests (is_empty (trim raw)) (is_pending status) refl
  where
    by_tests :
        (unnamed waiting : Bool)
        → is_pending status ≡ waiting
        → ((if unnamed
              then lift (err (failure "agent confirmation ID is required"))
              else if waiting
              then lift (err (failure "unsupported agent confirmation status"))
              else (λ t. resolution now (trim raw) status (trim actor) t.faults t))
            s).0
          ≡ ok tt
        → (any (can_resolve (trim raw)) s.tables ≡ true)
          × IsSettled
              (trim raw)
              ((if unnamed
                  then lift (err (failure "agent confirmation ID is required"))
                  else if waiting
                  then lift (err (failure "unsupported agent confirmation status"))
                  else (λ t. resolution now (trim raw) status (trim actor) t.faults t))
                s).1.tables
    by_tests true waiting p e = cc
    by_tests false true p e = cc
    by_tests false false p e =
        let done = resolution_ok now (trim raw) status (trim actor) s.faults s e in
        (
          done.0,
          subst (IsSettled (trim raw)) (sym done.1) (
              ground (
                arith,
                done.0,
                can_resolve-has_key (trim raw) s.tables done.0,
                resolve_rows-has_key now (trim raw) status (trim actor) (trim raw) s.tables,
                resolve_rows-resolved now status (trim actor) (trim raw) s.tables p,
              )),
        )

-- One call that changes the confirmations, at a time of the database.
pub data ConfirmationCall : Type 0 where
  creates : ℕ → ConfirmationRecord → ConfirmationCall
  resolves : ℕ → String → ConfirmationStatus → String → ConfirmationCall

abbrev pub after_confirmation_calls :
    Unicode → List ConfirmationCall → Session ConfirmationRows → Session ConfirmationRows
after_confirmation_calls u [] s = s
after_confirmation_calls u (creates now x ∷ calls) s =
    after_confirmation_calls u calls (create_confirmation u now x s).1
after_confirmation_calls u (resolves now id status actor ∷ calls) s =
    after_confirmation_calls u calls (resolve_confirmation now id status actor s).1

after_confirmation_calls-IsSettled :
    (u : Unicode) (id : String) (calls : List ConfirmationCall) (s : Session ConfirmationRows)
    → IsSettled id s.tables
    → IsSettled id (after_confirmation_calls u calls s).tables
after_confirmation_calls-IsSettled u id [] s h = h
after_confirmation_calls-IsSettled u id (creates now x ∷ calls) s h =
    after_confirmation_calls-IsSettled u id calls _ (create_confirmation-IsSettled u id now x s h)
after_confirmation_calls-IsSettled u id (resolves now raw status actor ∷ calls) s h =
    after_confirmation_calls-IsSettled u id calls _
      (resolve_confirmation-IsSettled id now raw status actor s h)

-- Once a confirmation is resolved, no later resolution of it succeeds, whatever is created and resolved between them and whatever faults the driver has.
pub resolved_once :
    (u : Unicode) (now : ℕ) (raw : String) (status : ConfirmationStatus) (actor : String)
    (s : Session ConfirmationRows)
    → (resolve_confirmation now raw status actor s).0 ≡ ok tt
    → (calls : List ConfirmationCall) (later : ℕ) (again : ConfirmationStatus) (other : String)
    → (resolve_confirmation later raw again other
        (after_confirmation_calls u calls (resolve_confirmation now raw status actor s).1)).0
      ≢ ok tt
resolved_once u now raw status actor s done calls later again other e =
    let resolved = (resolve_confirmation now raw status actor s).1 in
    let settled =
      after_confirmation_calls-IsSettled u (trim raw) calls resolved
        (resolve_confirmation_ok now raw status actor s done).1 in
    let found =
      (resolve_confirmation_ok later raw again other (after_confirmation_calls u calls resolved)
        e).0 in
    absurd (ground (arith, settled, found))
