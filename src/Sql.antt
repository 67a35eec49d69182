-- ===== src/Sql.antt =====
-- What the source relies on of `database/sql`: statements that fail or take effect whole, and
-- transactions. A session carries the tables, the faults that the driver is going to report (one
-- entry for each call, none of them an error when the list has run out), and how many identifiers
-- have been made.
use gigi_dc.Prelude.{
  ℕ, ◌≡◌, refl, Option, none, some, List, [], ◌∷◌, Error, wrap, Result, ok, err, String,
}

pub record Session (T : Type 0) : Type 0 where
  pub tables : T
  pub faults : List (Option Error)
  pub made : ℕ

abbrev pub Exec : Type 0 → Type 0 → Type 0
Exec T A = Session T → Result A × Session T

module _ {T A : Type 0} where
  abbrev pub pure : A → Exec T A
  pure a s = (ok a, s)

  abbrev pub lift : Result A → Exec T A
  lift r s = (r, s)

  abbrev pub finish : Session T → Result (T × A) → Result A × Session T
  finish s (err e) = (err e, s)
  finish s (ok (t, a)) = (ok a, record s { tables = t })

  abbrev pub attempt : List (Option Error) → (T → Result (T × A)) → Exec T A
  attempt [] run s = finish s (run s.tables)
  attempt (none ∷ fs) run s = finish (record s { faults = fs }) (run s.tables)
  attempt (some e ∷ fs) run s = (err e, record s { faults = fs })

  -- One call of `ExecContext` or `QueryContext`.
  abbrev pub statement : (T → Result (T × A)) → Exec T A
  statement run s = attempt s.faults run s

  -- `fmt.Errorf(label, err)` on the error of an action.
  abbrev pub relabel : String → Result A × Session T → Result A × Session T
  relabel label (ok a, s) = (ok a, s)
  relabel label (err e, s) = (err (wrap label e), s)

  abbrev pub labelled : String → Exec T A → Exec T A
  labelled label m s = relabel label (m s)

module _ {T A B : Type 0} where
  abbrev pub continue : Result A × Session T → (A → Exec T B) → Result B × Session T
  continue (ok a, s) f = f a s
  continue (err e, s) f = (err e, s)

  infixl 5 ◌>>=◌ ◌>>◌
  abbrev pub ◌>>=◌ : Exec T A → (A → Exec T B) → Exec T B
  ◌>>=◌ m f s = continue (m s) f

  abbrev pub ◌>>◌ : Exec T A → Exec T B → Exec T B
  m >> k = m >>= λ _. k

-- A call that changes no table: `BeginTx`, `Commit`.
abbrev pub call : {T : Type 0} → Exec T (Unit {0})
call = statement (λ t. ok (t, tt))

-- What holds of the tables over a call, whether it fails or not.
module _ {T A : Type 0} (P : T → Type 0) where
  abbrev pub tables_after : T → Result (T × A) → T
  tables_after t (ok (n, a)) = n
  tables_after t (err e) = t

  finish_holds :
      (label : String) (s : Session T) (r : Result (T × A))
      → P (tables_after s.tables r)
      → P (relabel label (finish s r)).1.tables
  finish_holds label s (ok (n, a)) h = h
  finish_holds label s (err e) h = h

  pub statement_holds :
      (label : String) (run : T → Result (T × A)) (s : Session T)
      → P s.tables
      → P (tables_after s.tables (run s.tables))
      → P (labelled label (statement run) s).1.tables
  statement_holds label run s before after = under s.faults
    where
      under : (faults : List (Option Error)) → P (relabel label (attempt faults run s)).1.tables
      under [] = finish_holds label s (run s.tables) after
      under (none ∷ faults) = finish_holds label (record s { faults = faults }) (run s.tables) after
      under (some e ∷ faults) = before

module _ {T A B : Type 0} (P : T → Type 0) where
  -- A statement whose answer is confirmed by a call that changes nothing.
  pub confirm_holds :
      (label : String) (answer : A → Result B) (r : Result A × Session T)
      → P r.1.tables
      → P (continue r (λ a. labelled label call >>= λ _. lift (answer a))).1.tables
  confirm_holds label answer (err e, s) h = h
  confirm_holds label answer (ok a, s) h = under s.faults
    where
      under :
          (faults : List (Option Error))
          → P
              (continue
                (relabel label (attempt faults (λ t. ok (t, tt)) s))
                (λ _. lift {T = T} (answer a))).1.tables
      under [] = h
      under (none ∷ faults) = h
      under (some e ∷ faults) = h

-- A test of Go code between the calls.
module _ {T B : Type 0} where
  pub lift_holds :
      (P : T → Type 0) (r : Result (Unit {0})) (k : Exec T B) (s : Session T)
      → P s.tables
      → (r ≡ ok tt → P (k s).1.tables)
      → P (continue (r, s) (λ _. k)).1.tables
  lift_holds P (ok a) k s before after = after refl
  lift_holds P (err e) k s before after = before

  pub lift_ok :
      (r : Result (Unit {0})) (k : Exec T B) (s : Session T) (b : B)
      → (continue (r, s) (λ _. k)).0 ≡ ok b
      → (r ≡ ok tt) × ((continue (r, s) (λ _. k) ≡ k s) × ((k s).0 ≡ ok b))
  lift_ok (ok a) k s b h = (refl, (refl, h))
  lift_ok (err e) k s b h = cc
