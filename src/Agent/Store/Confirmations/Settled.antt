-- ===== src/Agent/Store/Confirmations/Settled.antt =====
-- internal/agent/run_store.go: a confirmation that is settled stays so.
use gigi_dc.Prelude.{
  ℕ, ◌≡◌, refl, subst, String, ◌==◌, eq_iff, Bool, true, false, ◌&&◌, not, [], ◌∷◌, any, any-push,
  Result, ok, trim, is_empty, arith, inl, inr, Bool-cases, if◌then◌else◌,
}
use gigi_dc.Prelude.Unicode.{Unicode}
use gigi_dc.Sql.{Session, Exec, tables_after, statement_holds, confirm_holds}
use gigi_dc.Agent.{ConfirmationRecord, ConfirmationStatus}
use gigi_dc.Agent.Store.{affected_or_no_rows}
use gigi_dc.Agent.Store.Confirmations.{
  ConfirmationRow, ConfirmationRows, has_key, can_resolve, is_pending, insert_confirmation,
  confirmation_row, create_confirmation, resolved_row, resolve_rows, resolve_confirmation,
}

-- The confirmation exists and nothing can resolve it any more: there is a row with its key, and no row with its key is pending.
abbrev is_settled : String → ConfirmationRows → Bool
is_settled id rows = any (has_key id) rows && not (any (can_resolve id) rows)

pub resolve_rows-has_key :
    (now : ℕ) (other : String) (status : ConfirmationStatus) (actor id : String)
    (rows : ConfirmationRows)
    → any (has_key id) (resolve_rows now other status actor rows) ≡ any (has_key id) rows
unfolding resolve_rows resolved_row
resolve_rows-has_key now other status actor id [] = refl
resolve_rows-has_key now other status actor id (r ∷ rows) =
    elim (Bool-cases (can_resolve other r)) [
      | inl b ↦ rw b (ground (arith, resolve_rows-has_key now other status actor id rows))
      | inr b ↦ rw b (ground (arith, resolve_rows-has_key now other status actor id rows))
    ]

resolve_rows-can_resolve :
    (now : ℕ) (other : String) (status : ConfirmationStatus) (actor id : String)
    (rows : ConfirmationRows)
    → is_pending status ≡ false
    → any (can_resolve id) rows ≡ false
    → any (can_resolve id) (resolve_rows now other status actor rows) ≡ false
unfolding resolve_rows resolved_row
resolve_rows-can_resolve now other status actor id [] p n = refl
resolve_rows-can_resolve now other status actor id (r ∷ rows) p n =
    elim (Bool-cases (can_resolve other r)) [
      | inl b ↦
          rw b (ground (arith, p, n, resolve_rows-can_resolve now other status actor id rows p))
      | inr b ↦ rw b (ground (arith, n, resolve_rows-can_resolve now other status actor id rows p))
    ]

-- The row that a resolution takes is pending no longer.
pub resolve_rows-resolved :
    (now : ℕ) (status : ConfirmationStatus) (actor id : String) (rows : ConfirmationRows)
    → is_pending status ≡ false
    → any (can_resolve id) (resolve_rows now id status actor rows) ≡ false
unfolding resolve_rows resolved_row
resolve_rows-resolved now status actor id [] p = refl
resolve_rows-resolved now status actor id (r ∷ rows) p = elim (Bool-cases (can_resolve id r)) [
  | inl b ↦ rw b (ground (arith, p, resolve_rows-resolved now status actor id rows p))
  | inr b ↦ rw b (ground (arith, b, resolve_rows-resolved now status actor id rows p))
]

abbrev pub IsSettled : String → ConfirmationRows → Type 0
IsSettled id rows = is_settled id rows ≡ true

insert_confirmation-IsSettled :
    (id : String) (x : ConfirmationRow) (rows : ConfirmationRows)
    → IsSettled id rows
    → IsSettled id (tables_after (IsSettled id) rows (insert_confirmation x rows))
unfolding insert_confirmation
insert_confirmation-IsSettled id x rows s =
    elim (Bool-cases (any (has_key x.confirmation.id) rows)) [
      | inl b ↦ rw b s
      | inr b ↦
          let other : (x.confirmation.id == id) ≡ false =
            elim (Bool-cases (x.confirmation.id == id)) [
              | inl same ↦ absurd (
                  ground (
                    arith,
                    s,
                    subst (λ k. any (has_key k) rows ≡ false) ((eq_iff x.confirmation.id id).0 same)
                        b,
                  ))
              | inr differs ↦ differs
            ] in
          rw b (
            ground
              (arith, s, other, any-push (has_key id) rows x, any-push (can_resolve id) rows x))
    ]

if_IsSettled :
    (id : String) {A : Type 0} (b : Bool) (x y : Exec ConfirmationRows A)
    (s : Session ConfirmationRows)
    → IsSettled id (x s).1.tables
    → (b ≡ false → IsSettled id (y s).1.tables)
    → IsSettled id ((if b then x else y) s).1.tables
if_IsSettled id true x y s p q = p
if_IsSettled id false x y s p q = q refl

pub create_confirmation-IsSettled :
    (u : Unicode) (id : String) (now : ℕ) (x : ConfirmationRecord) (s : Session ConfirmationRows)
    → IsSettled id s.tables
    → IsSettled id (create_confirmation u now x s).1.tables
unfolding create_confirmation
create_confirmation-IsSettled u id now x s h =
    if_IsSettled id (is_empty (trim x.id)) _ _ s h (λ named.
      if_IsSettled id (is_empty (trim x.run_id)) _ _ s h (λ running.
        statement_holds (IsSettled id) "create agent confirmation"
          (insert_confirmation (confirmation_row u now x)) s h
          (insert_confirmation-IsSettled id (confirmation_row u now x) s.tables h)))

-- The statement of a resolution, with the number of rows that it changed.
abbrev pub resolve_statement :
    ℕ → String → ConfirmationStatus → String → ConfirmationRows → Result (ConfirmationRows × Bool)
resolve_statement now id status actor rows =
    ok (resolve_rows now id status actor rows, any (can_resolve id) rows)

pub resolve_confirmation-IsSettled :
    (id : String) (now : ℕ) (raw : String) (status : ConfirmationStatus) (actor : String)
    (s : Session ConfirmationRows)
    → IsSettled id s.tables
    → IsSettled id (resolve_confirmation now raw status actor s).1.tables
unfolding resolve_confirmation
resolve_confirmation-IsSettled id now raw status actor s h =
    if_IsSettled id (is_empty (trim raw)) _ _ s h (λ named.
      if_IsSettled id (is_pending status) _ _ s h (λ p.
        confirm_holds (IsSettled id) "resolve agent confirmation rows affected" affected_or_no_rows
          _
          (statement_holds (IsSettled id) "resolve agent confirmation"
            (resolve_statement now (trim raw) status (trim actor)) s h
            (ground (
              arith,
              h,
              resolve_rows-has_key now (trim raw) status (trim actor) id s.tables,
              resolve_rows-can_resolve now (trim raw) status (trim actor) id s.tables p,
            )))))
