-- ===== src/Capability/Grants/RoundTrip.antt =====
-- internal/capability: a grant that was written is seen by the evaluator.
use gigi_dc.Prelude.{
  String, ◌≡◌, refl, ap, ◌∙◌, ◌==◌, eq_iff, eq_refl, true, false, ◌||◌, some, List, [], ◌∷◌, ok,
  arith, trim, trim-trim, is_blank, any, Bool-cases, inl, inr,
}
use gigi_dc.Prelude.Unicode.{Unicode}
use gigi_dc.Sql.{Session}
use gigi_dc.Capability.{Capability, Subject}
use gigi_dc.Capability.Validation.{normalize_capabilities}
use gigi_dc.Capability.Evaluator.{check}
use gigi_dc.Capability.Grants.{Grant, GrantTables, held, has_key}
use gigi_dc.Capability.Grants.Manager.{SqlGrantManager, grant_role_capabilities}
use gigi_dc.Capability.Grants.Manager.Effects.{names, apply_held}
use gigi_dc.Capability.Grants.Store.{clean_strings, sql_grant_store, select}
use gigi_dc.Capability.Grants.Store.Visible.{role_row, check-select}

names-any :
    (m : SqlGrantManager) (guild role actor : String) (k : Capability) (cs : List Capability)
    → names m guild role actor (trim guild) (trim role) k cs ≡ any (λ c. c == k) cs
names-any m guild role actor k [] = refl
names-any m guild role actor k (c ∷ cs) =
    rw (names-any m guild role actor k cs, eq_refl (trim guild), eq_refl (trim role)) refl

any_listed :
    (role : String) (roles : List String) (t : String)
    → t ≡ role
    → any (λ r. r == role) roles ≡ true
    → any (λ r. t == r) roles ≡ true
any_listed role [] t e h = cc
any_listed role (r ∷ rs) t e h = ground (arith, any_listed role rs t e, eq_iff r role, eq_iff t r)

-- A row with the key, trimmed as it is, is one that the evaluator counts.
key→role_row :
    (s : Subject) (raw role : String) (r : Grant)
    → any (λ r. r == role) (clean_strings s.role_ids) ≡ true
    → has_key (trim s.guild_id) role (trim raw) r ≡ true
    → role_row s raw r ≡ true
key→role_row s raw role r l k =
    let target : r.target_id ≡ role = (eq_iff r.target_id role).0 (ground arith) in
    let same : r.capability ≡ trim raw = (eq_iff r.capability (trim raw)).0 (ground arith) in
    let cut : trim r.capability ≡ trim raw = ap trim same ∙ trim-trim raw in
    let listed = any_listed role (clean_strings s.role_ids) r.target_id target l in
    ground (arith, eq_iff (trim r.capability) (trim raw))

held→role_row :
    (s : Subject) (raw role : String) (rs : List Grant)
    → any (λ r. r == role) (clean_strings s.role_ids) ≡ true
    → held rs (trim s.guild_id) role (trim raw) ≡ true
    → any (role_row s raw) rs ≡ true
held→role_row s raw role [] l h = cc
held→role_row s raw role (r ∷ rs) l h =
    elim (Bool-cases (has_key (trim s.guild_id) role (trim raw) r)) [
      | inl k ↦ rw (key→role_row s raw role r l k) refl
      | inr n ↦ ground (arith, held→role_row s raw role rs l)
    ]

-- A subject is allowed, as an administrator or by a row for the role.
check_of_role_row :
    (t : GrantTables) (s : Subject) (raw : Capability)
    → is_blank s.guild_id ≡ false
    → is_blank s.user_id ≡ false
    → is_blank raw ≡ false
    → any (role_row s raw) t.role_grants ≡ true
    → (check (some (sql_grant_store (select t))) s raw).0.allowed ≡ true
check_of_role_row t s raw g v solid row =
    elim (Bool-cases (s.is_guild_owner || s.has_administrator)) [
      | inl a ↦ unfold check in rw a refl
      | inr a ↦ ground (arith, check-select t s raw solid (ground arith) (ground arith) g v)
    ]

-- After `GrantRoleCapabilities` succeeds, `Check` on the tables that it left allows each capability
-- of the call, for every identified user of the guild who has the role.
pub grant_then_check :
    (u : Unicode) (m : SqlGrantManager) (guild role actor : String) (caps clean : List Capability)
    → (before : Session GrantTables) (s : Subject) (raw : Capability)
    → normalize_capabilities u caps ≡ ok clean
    → (grant_role_capabilities u m guild role caps actor before).0 ≡ ok tt
    → any (λ c. c == trim raw) clean ≡ true
    → trim s.guild_id ≡ trim guild
    → any (λ r. r == trim role) (clean_strings s.role_ids) ≡ true
    → is_blank s.guild_id ≡ false
    → is_blank s.user_id ≡ false
    → is_blank raw ≡ false
    → (check
        (some (
          sql_grant_store
            (select (grant_role_capabilities u m guild role caps actor before).1.tables)))
        s
        raw).0.allowed
      ≡ true
grant_then_check u m guild role actor caps clean before s raw n done inside same_guild listed g v
      solid =
    let after = (grant_role_capabilities u m guild role caps actor before).1.tables in
    let now =
      apply_held m guild role actor (trim guild) (trim role) (trim raw) u true caps clean before n
        done in
    let named = names-any m guild role actor (trim raw) clean in
    let key : held after.role_grants (trim guild) (trim role) (trim raw) ≡ true =
      now ∙ rw (named, inside) refl in
    check_of_role_row after s raw g v solid
      (held→role_row s raw (trim role) after.role_grants listed (rw same_guild key))
