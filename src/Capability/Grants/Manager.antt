-- ===== src/Capability/Grants/Manager.antt =====
-- internal/capability/manager.go: granting and revoking, one at a time and in a transaction.
-- `has_db` and `has_begin_tx` say whether the manager's fields are set; `new_id` is the generator,
-- whose n-th identifier is `new_id n`.
pub mod Keys
pub mod Atomic
pub mod Effects
use gigi_dc.Prelude.{
  ℕ, suc, String, Bool, true, false, not, Option, none, some, List, [], ◌∷◌, Result, ok, err,
  failure, refuse_if, trim, is_blank, is_nil, if◌then◌else◌,
}
use gigi_dc.Prelude.Unicode.{Unicode}
use gigi_dc.Sql.{Session, Exec, pure, lift, statement, labelled, continue, call, ◌>>=◌, ◌>>◌}
use gigi_dc.Capability.{Capability}
use gigi_dc.Capability.Validation.{validate_grant, normalize_capabilities}
use gigi_dc.Capability.Grants.{
  Grant, GrantTable, GrantTables, role_capability_grants, user_capability_grants, rows, with_rows,
  insert_guild, insert_grant, delete_grants,
}

pub record SqlGrantManager : Type 0 where
  pub has_db : Bool
  pub has_begin_tx : Bool
  pub new_id : Option (ℕ → String)

abbrev pub GrantExec : Type 0
GrantExec = Exec GrantTables (Unit {0})

unfoldable pub ensure_guild : String → GrantExec
ensure_guild guild = labelled "ensure guild" (statement (λ t. ok (insert_guild (trim guild) t, tt)))

abbrev pub inserted :
    GrantTable → GrantTables → Result (List Grant) → Result (GrantTables × Unit {0})
inserted table t (ok rs) = ok (with_rows table rs t, tt)
inserted table t (err e) = err e

-- The identifier is the empty text where no generator is set.
abbrev pub make_id : Option (ℕ → String) → Exec GrantTables String
make_id none s = (ok "", s)
make_id (some f) s = (ok (f s.made), record s { made = suc s.made })

-- The insertion of one row.
unfoldable pub insert_row : GrantTable → Grant → GrantExec
insert_row table row =
    labelled "grant capability"
      (statement (λ t. inserted table t (insert_grant t.guilds row (rows table t))))

unfoldable pub grant_with_executor :
    SqlGrantManager → GrantTable → String → String → Capability → String → GrantExec
grant_with_executor m table guild target c actor = do
  id ← make_id m.new_id
  lift (refuse_if (is_blank id) "capability grant ID is required")
  insert_row table (record {
    id = id;
    guild_id = trim guild;
    target_id = trim target;
    capability = c;
    created_by = trim actor;
  })

unfoldable pub revoke_with_executor : GrantTable → String → String → Capability → GrantExec
revoke_with_executor table guild target c = labelled "revoke capability" (
    statement
      (λ t. ok (with_rows table (delete_grants (trim guild) (trim target) c (rows table t)) t, tt)))

module _ (u : Unicode) where
  unfoldable pub grant :
      SqlGrantManager → GrantTable → String → String → Capability → String → GrantExec
  grant m table guild target c actor = do
    lift (validate_grant u guild target c)
    lift (refuse_if (not m.has_db) "capability grant database is required")
    ensure_guild guild
    grant_with_executor m table guild target c actor

  unfoldable pub revoke : SqlGrantManager → GrantTable → String → String → Capability → GrantExec
  revoke m table guild target c = do
    lift (validate_grant u guild target c)
    lift (refuse_if (not m.has_db) "capability grant database is required")
    revoke_with_executor table guild target c

  abbrev pub grant_role : SqlGrantManager → String → String → Capability → String → GrantExec
  grant_role m = grant m role_capability_grants

  abbrev pub revoke_role : SqlGrantManager → String → String → Capability → GrantExec
  revoke_role m = revoke m role_capability_grants

  abbrev pub grant_user : SqlGrantManager → String → String → Capability → String → GrantExec
  grant_user m = grant m user_capability_grants

  abbrev pub revoke_user : SqlGrantManager → String → String → Capability → GrantExec
  revoke_user m = revoke m user_capability_grants

-- The two loops of `applyRoleCapabilities`.
unfoldable pub grant_each : SqlGrantManager → String → String → List Capability → String → GrantExec
grant_each m guild role [] actor = pure tt
grant_each m guild role (c ∷ cs) actor = do
  grant_with_executor m role_capability_grants guild role c actor
  grant_each m guild role cs actor

unfoldable pub revoke_each : String → String → List Capability → GrantExec
revoke_each guild role [] = pure tt
revoke_each guild role (c ∷ cs) = do
  revoke_with_executor role_capability_grants guild role c
  revoke_each guild role cs

-- The deferred rollback: it runs unless the commit succeeded.
abbrev pub roll_back :
    GrantTables → Result (Unit {0}) × Session GrantTables → Result (Unit {0}) × Session GrantTables
roll_back before (ok a, s) = (ok a, s)
roll_back before (err e, s) = (err e, record s { tables = before })

unfoldable pub in_transaction : GrantExec → GrantExec
in_transaction body = do
  labelled "begin capability grant transaction" call
  λ s. roll_back s.tables ((do body; labelled "commit capability grant transaction" call) s)

abbrev pub change_each :
    Bool → SqlGrantManager → String → String → List Capability → String → GrantExec
change_each true m guild role caps actor = do ensure_guild guild; grant_each m guild role caps actor
change_each false m guild role caps actor = revoke_each guild role caps

module _ (u : Unicode) where
  unfoldable pub apply_role_capabilities :
      SqlGrantManager → Bool → String → String → List Capability → String → GrantExec
  apply_role_capabilities m granting guild role raw actor = do
    caps ← lift (normalize_capabilities u raw)
    lift (refuse_if (is_blank guild) "guild ID is required")
    lift (refuse_if (is_blank role) "target ID is required")
    lift (refuse_if (not m.has_begin_tx) "capability grant transaction is required")
    in_transaction (change_each granting m guild role caps actor)

  abbrev pub grant_role_capabilities :
      SqlGrantManager → String → String → List Capability → String → GrantExec
  grant_role_capabilities m = apply_role_capabilities m true

  abbrev pub revoke_role_capabilities :
      SqlGrantManager → String → String → List Capability → GrantExec
  revoke_role_capabilities m guild role caps = apply_role_capabilities m false guild role caps ""
