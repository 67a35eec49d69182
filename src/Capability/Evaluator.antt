-- ===== src/Capability/Evaluator.antt =====
-- internal/capability/evaluator.go: the permission check. The grant store is an interface of the
-- source, so it is an argument here: `none` is the nil store.
pub mod Decisions
use gigi_dc.Prelude.{
  String, ◌==◌, Bool, true, false, ◌||◌, Option, none, some, List, [], ◌∷◌, Error, wrap, Result, ok,
  err, trim, is_empty, is_blank, if◌then◌else◌,
}
use gigi_dc.Capability.{
  Capability, Subject, Decision, admin_override, user_grant, role_grant, missing_capability,
  store_error, unknown_identity,
}

pub record GrantStore : Type 0 where
  pub user_capabilities : String → String → Result (List Capability)
  pub role_capabilities : String → List String → Result (List Capability)

unfoldable pub contains : List Capability → Capability → Bool
contains [] want = false
contains (capability ∷ rest) want = trim capability == want || contains rest want

abbrev pub Answer : Type 0
Answer = Decision × Option Error

abbrev pub deny : Capability → Answer
deny cap = (record { allowed = false; capability = cap; reason = missing_capability }, none)

abbrev pub broken : Capability → String → Error → Answer
broken cap label e =
    (record { allowed = false; capability = cap; reason = store_error }, some (wrap label e))

unfoldable pub check_roles : Capability → Result (List Capability) → Answer
check_roles cap (err e) = broken cap "load role capabilities" e
check_roles cap (ok caps) =
    if contains caps cap
    then (record { allowed = true; capability = cap; reason = role_grant }, none)
    else deny cap

unfoldable pub check_users :
    Capability → Result (List Capability) → Result (List Capability) → Answer
check_users cap (err e) roles = broken cap "load user capabilities" e
check_users cap (ok caps) roles =
    if contains caps cap
    then (record { allowed = true; capability = cap; reason = user_grant }, none)
    else check_roles cap roles

unfoldable pub check_store : Option GrantStore → Subject → Capability → Answer
check_store none subject cap = deny cap
check_store (some store) subject cap =
    check_users cap (store.user_capabilities subject.guild_id subject.user_id)
      (store.role_capabilities subject.guild_id subject.role_ids)

unfoldable pub check : Option GrantStore → Subject → Capability → Answer
check store subject raw =
    let cap = trim raw in
    if subject.is_guild_owner || subject.has_administrator
    then (record { allowed = true; capability = cap; reason = admin_override }, none)
    else if is_blank subject.guild_id || is_blank subject.user_id || is_empty cap
    then (record { allowed = false; capability = cap; reason = unknown_identity }, none)
    else check_store store subject cap
