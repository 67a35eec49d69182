-- ===== src/Capability/Grants/Manager/Atomic.antt =====
-- internal/capability/manager.go: `applyRoleCapabilities` as a whole.
use gigi_dc.Prelude.{String, ◌≡◌, refl, Bool, List, Error, Result, ok, err, arith}
use gigi_dc.Prelude.Unicode.{Unicode}
use gigi_dc.Sql.{Session}
use gigi_dc.Capability.{Capability}
use gigi_dc.Capability.Validation.{normalize_capabilities}
use gigi_dc.Capability.Grants.{GrantTables}
use gigi_dc.Capability.Grants.Manager.{
  SqlGrantManager, GrantExec, in_transaction, apply_role_capabilities, change_each,
}

in_transaction_atomic :
    (body : GrantExec) (s : Session GrantTables) (e : Error)
    → (in_transaction body s).0 ≡ err e
    → (in_transaction body s).1.tables ≡ s.tables
unfolding in_transaction
in_transaction_atomic body s e h = ground arith

module _ (u : Unicode) where
  -- If `applyRoleCapabilities` returns an error, wherever it arose, no table has changed.
  pub apply_atomic :
      (m : SqlGrantManager) (granting : Bool) (guild role : String) (caps : List Capability)
      → (actor : String) (s : Session GrantTables) (e : Error)
      → (apply_role_capabilities u m granting guild role caps actor s).0 ≡ err e
      → (apply_role_capabilities u m granting guild role caps actor s).1.tables ≡ s.tables
  unfolding apply_role_capabilities
  apply_atomic m granting guild role caps actor s e h = go (normalize_capabilities u caps) refl
    where
      go :
          (r : Result (List Capability))
          → normalize_capabilities u caps ≡ r
          → (apply_role_capabilities u m granting guild role caps actor s).1.tables ≡ s.tables
      go (err x) n = rw n refl
      go (ok clean) n =
          ground (arith, in_transaction_atomic (change_each granting m guild role clean actor) s e)
