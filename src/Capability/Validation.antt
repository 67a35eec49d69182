-- ===== src/Capability/Validation.antt =====
-- internal/capability/manager.go: the checks before any statement.
use gigi_dc.Prelude.{String, List, [], ◌∷◌, Result, ok, refuse_if, ◌>>=◌, ◌>>◌, is_blank, is_nil}
use gigi_dc.Prelude.Unicode.{Unicode}
use gigi_dc.Capability.{Capability, normalize}

module _ (u : Unicode) where
  unfoldable pub validate_grant : String → String → Capability → Result (Unit {0})
  validate_grant guild target c = do
    refuse_if (is_blank guild) "guild ID is required"
    refuse_if (is_blank target) "target ID is required"
    normalize u c
    ok tt

  unfoldable pub normalize_each : List Capability → Result (List Capability)
  normalize_each [] = ok []
  normalize_each (c ∷ cs) = do
    cleaned ← normalize u c
    rest ← normalize_each cs
    ok (cleaned ∷ rest)

  unfoldable pub normalize_capabilities : List Capability → Result (List Capability)
  unfolding normalize_each
  normalize_capabilities caps = do
    refuse_if (is_nil caps) "capabilities are required"
    normalize_each caps
