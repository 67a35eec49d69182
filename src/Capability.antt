-- ===== src/Capability.antt =====
-- internal/capability/evaluator.go: capability names, subjects and decisions.
pub mod Evaluator
mod Validation
pub mod Presets
pub mod Grants
mod Tests
use Prim.Native.Char.{code}
use Prim.Native.String.{len}
use gigi_dc.Prelude.{
  ℕ, String, Bool, true, false, ◌||◌, ◌&&◌, List, [], ◌∷◌, Result, ok, err, failure, refuse_if,
  ◌>>=◌, ◌>>◌, trim, is_empty, all, ltb, eqb, not,
}
use gigi_dc.Prelude.Unicode.{Unicode, codes}

-- The source's string type `Capability`.
abbrev pub Capability : Type 0
Capability = String

pub record Subject : Type 0 where
  pub guild_id : String
  pub user_id : String
  pub role_ids : List String
  pub is_guild_owner : Bool
  pub has_administrator : Bool

pub data Reason : Type 0 where
  admin_override user_grant role_grant public_action : Reason
  missing_capability store_error unknown_identity : Reason

pub record Decision : Type 0 where
  pub allowed : Bool
  pub capability : Capability
  pub reason : Reason

-- The characters that a capability may have: lower case letters, digits and four signs.
abbrev pub capability_rune : Unicode → ℕ → Bool
capability_rune u r =
    (u.is_lower r || u.is_digit r) || (eqb r b'.' || eqb r b':' || eqb r b'_' || eqb r b'-')

-- The text of a `%q` is left out of the error.
unfoldable pub normalize : Unicode → String → Result Capability
normalize u raw = do
  let value = trim raw
  refuse_if (is_empty value) "capability is required"
  refuse_if (ltb 128 (len value)) "capability is too long"
  refuse_if (not (all (capability_rune u) (codes value)))
      "capability contains unsupported character"
  ok value
