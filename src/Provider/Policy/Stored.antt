-- ===== src/Provider/Policy/Stored.antt =====
-- internal/llm/provider/policy.go: policies that are set and read.
use gigi_dc.Prelude.{
  ℕ, String, ◌==◌, ◌≡◌, refl, Bool, true, false, ◌&&◌, Option, some, List, [], ◌∷◌, or_else,
  Option-cases, All, Error, Result, ok, err, refuse_if, is_ok, arith, inl, inr, Bool-cases, subst,
  ◌∙◌, ap, if◌then◌else◌, trim, is_empty, is_blank,
}
use gigi_dc.Prelude.Maps.{lookup, insert, lookup-insert, All-insert}
use gigi_dc.Sql.{Session, statement_holds, lift_holds, lift_ok}
use gigi_dc.Provider.Policy.{
  GuildPolicyInput, PolicyRows, default_guild_policy, validate_personal_keys_mode,
  validate_tool_routing_mode, policy_row, guild_policy, mode_or_off, set_guild_policy,
}

-- A database that is not going to fail.
abbrev pub healthy : PolicyRows → Session PolicyRows
healthy rows = record { tables = rows; faults = []; made = 0 }

abbrev pub is_valid_row : String × (String × String) → Bool
is_valid_row row =
    is_ok (validate_personal_keys_mode (row.1.0)) && is_ok (validate_tool_routing_mode (row.1.1))

abbrev pub AllValid : PolicyRows → Type 0
AllValid rows = All (λ row. is_valid_row row ≡ true) rows

abbrev rows_with : GuildPolicyInput → PolicyRows → PolicyRows
rows_with input rows =
    insert (trim input.guild_id)
      (mode_or_off input.personal_keys_mode, mode_or_off input.tool_routing_mode) rows

set_guild_policy-AllValid :
    (input : GuildPolicyInput) (s : Session PolicyRows)
    → AllValid s.tables
    → AllValid (set_guild_policy input s).1.tables
unfolding set_guild_policy
set_guild_policy-AllValid input s v =
    lift_holds AllValid (refuse_if (is_empty (trim input.guild_id)) "guild ID is required") _ s v
      (λ named.
        lift_holds AllValid (validate_personal_keys_mode (mode_or_off input.personal_keys_mode)) _ s
          v
          (λ keys.
            lift_holds AllValid (validate_tool_routing_mode (mode_or_off input.tool_routing_mode)) _
              s v
              (λ routing.
                lift_holds AllValid
                  (refuse_if (is_blank input.actor_user_id) "actor user ID is required") _ s v
                  (λ acted.
                    statement_holds AllValid "upsert guild llm policy"
                      (λ rows. ok (rows_with input rows, tt)) s v
                      (All-insert _ (trim input.guild_id) _ s.tables (ground (arith, keys, routing))
                        v)))))

abbrev pub set_policies : List GuildPolicyInput → Session PolicyRows → Session PolicyRows
set_policies [] s = s
set_policies (input ∷ inputs) s = set_policies inputs (set_guild_policy input s).1

set_policies-AllValid :
    (inputs : List GuildPolicyInput) (s : Session PolicyRows)
    → AllValid s.tables
    → AllValid (set_policies inputs s).tables
set_policies-AllValid [] s v = v
set_policies-AllValid (input ∷ inputs) s v =
    set_policies-AllValid inputs _ (set_guild_policy-AllValid input s v)

lookup-AllValid :
    (guild_id : String) (rows : PolicyRows) (modes : String × String)
    → AllValid rows
    → lookup guild_id rows ≡ some modes
    → is_valid_row (guild_id, modes) ≡ true
unfolding lookup
lookup-AllValid guild_id [] modes v e = cc
lookup-AllValid guild_id (row ∷ rows) modes v e = elim (Bool-cases (guild_id == row.0)) [
  | inl b ↦
      let same : some row.1 ≡ some modes = rw b at e in
      subst (λ o. is_valid_row (guild_id, or_else o modes) ≡ true) same v.0
  | inr b ↦ lookup-AllValid guild_id rows modes v.1 (ground (arith, b, e))
]

is_ok_tt : (r : Result (Unit {0})) → is_ok r ≡ true → r ≡ ok tt
is_ok_tt (ok a) h = refl
is_ok_tt (err e) h = cc

-- The policy that is read of valid rows.
read_policy :
    (raw : String) (rows : PolicyRows)
    → is_blank raw ≡ false
    → AllValid rows
    → (guild_policy raw (healthy rows)).0 ≡ ok (policy_row (trim raw) (lookup (trim raw) rows))
unfolding guild_policy default_guild_policy validate_personal_keys_mode validate_tool_routing_mode
read_policy raw rows named v = rw named (elim (Option-cases (lookup (trim raw) rows)) [
  | inl e ↦ rw e refl
  | inr (modes, e) ↦
      let valid = lookup-AllValid (trim raw) rows modes v e in
      let keys = is_ok_tt (validate_personal_keys_mode (modes.0)) (ground (arith, valid)) in
      let routing = is_ok_tt (validate_tool_routing_mode (modes.1)) (ground (arith, valid)) in
      rw (e, keys, routing) refl
])

-- A write that succeeds in a healthy database.
set_guild_policy_ok :
    (input : GuildPolicyInput) (rows : PolicyRows)
    → (set_guild_policy input (healthy rows)).0 ≡ ok tt
    → (set_guild_policy input (healthy rows)).1 ≡ healthy (rows_with input rows)
unfolding set_guild_policy
set_guild_policy_ok input rows done =
    let named =
      lift_ok (refuse_if (is_empty (trim input.guild_id)) "guild ID is required") _ (healthy rows)
        tt done in
    let keys =
      lift_ok (validate_personal_keys_mode (mode_or_off input.personal_keys_mode)) _ (healthy rows)
        tt named.1.1 in
    let routing =
      lift_ok (validate_tool_routing_mode (mode_or_off input.tool_routing_mode)) _ (healthy rows) tt
        keys.1.1 in
    let acted =
      lift_ok (refuse_if (is_blank input.actor_user_id) "actor user ID is required") _
        (healthy rows) tt routing.1.1 in
    ap (λ r. r.1) (named.1.0 ∙ keys.1.0 ∙ routing.1.0 ∙ acted.1.0)

-- Whatever policies are set in an empty table, and whatever faults the driver has then, a healthy database gives the policy of every named guild: the modes of its row or, without a row, off.
pub set_policies_then_read :
    (inputs : List GuildPolicyInput) (faults : List (Option Error)) (made : ℕ) (raw : String)
    → is_blank raw ≡ false
    → let rows =
        (set_policies inputs (record { tables = []; faults = faults; made = made })).tables in
      (guild_policy raw (healthy rows)).0 ≡ ok (policy_row (trim raw) (lookup (trim raw) rows))
set_policies_then_read inputs faults made raw named =
    read_policy raw _ named
      (set_policies-AllValid inputs (record { tables = []; faults = faults; made = made }) tt)

-- A policy that is set in a healthy database with valid rows is read again for its guild, with the modes trimmed and off for a blank one, and the policies of other guilds stay.
pub set_then_read :
    (input : GuildPolicyInput) (rows : PolicyRows) (raw : String)
    → AllValid rows
    → is_blank raw ≡ false
    → (set_guild_policy input (healthy rows)).0 ≡ ok tt
    → (guild_policy raw (set_guild_policy input (healthy rows)).1).0 ≡ (
        if trim input.guild_id == trim raw
        then ok (record {
          guild_id = trim raw;
          personal_keys_mode = mode_or_off input.personal_keys_mode;
          tool_routing_mode = mode_or_off input.tool_routing_mode;
        })
        else (guild_policy raw (healthy rows)).0)
set_then_read input rows raw v named done =
    let wrote = set_guild_policy_ok input rows done in
    let kept =
      subst AllValid (ap (λ s. s.tables) wrote)
        (set_guild_policy-AllValid input (healthy rows) v) in
    rw wrote (
      rw (read_policy raw (rows_with input rows) named kept) (
        rw (read_policy raw rows named v) (
          rw
            (lookup-insert (trim input.guild_id) (trim raw)
              (mode_or_off input.personal_keys_mode, mode_or_off input.tool_routing_mode) rows)
            (elim (Bool-cases (trim input.guild_id == trim raw)) [
              | inl b ↦ rw b refl
              | inr b ↦ rw b refl
            ]))))
