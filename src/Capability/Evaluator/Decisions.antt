-- ===== src/Capability/Evaluator/Decisions.antt =====
-- internal/capability/evaluator.go: when the permission check allows, and that it fails closed.
use gigi_dc.Prelude.{
  ◌≡◌, refl, subst, ◌↔◌, ◌⊎◌, inl, inr, ◌==◌, true, false, ◌||◌, Option, some, List, [], ◌∷◌, Error,
  Result, ok, err, arith, eq_iff, trim, is_blank, Bool-cases,
}
use gigi_dc.Capability.{
  Capability, Subject, Reason, admin_override, user_grant, role_grant, store_error,
}
use gigi_dc.Capability.Evaluator.{
  GrantStore, contains, check, check_store, check_users, check_roles,
}

-- A capability stands in a list, up to white space round it.
pub data Granted (want : Capability) : List Capability → Type 0 where
  here : {c : Capability} {cs : List Capability} → trim c ≡ want → Granted want (c ∷ cs)
  there : {c : Capability} {cs : List Capability} → Granted want cs → Granted want (c ∷ cs)

contains→Granted :
    (cs : List Capability) (want : Capability) → contains cs want ≡ true → Granted want cs
unfolding contains
contains→Granted [] want h = cc
contains→Granted (c ∷ cs) want h = elim (Bool-cases (trim c == want)) [
  | inl same ↦ here ((eq_iff (trim c) want).0 same)
  | inr other ↦ there (contains→Granted cs want (rw other at h))
]

Granted→contains :
    (want : Capability) {cs : List Capability} → Granted want cs → contains cs want ≡ true
unfolding contains
Granted→contains want (here {c = c} e) = rw ((eq_iff (trim c) want).1 e) refl
Granted→contains want (there g) = ground (arith, Granted→contains want g)

-- The subject is named and the capability is not blank.
abbrev pub IsIdentified : Subject → Capability → Type 0
IsIdentified s raw =
    (is_blank s.guild_id ≡ false) × (is_blank s.user_id ≡ false) × (is_blank raw ≡ false)

-- Why a subject may have a capability, with the reason that the decision gives.
pub data Permits (store : GrantStore) (s : Subject) (raw : Capability) : Reason → Type 0 where
  as_admin :
      (s.is_guild_owner ≡ true) ⊎ (s.has_administrator ≡ true) → Permits store s raw admin_override
  as_user :
      {caps : List Capability}
      → s.is_guild_owner ≡ false
      → s.has_administrator ≡ false
      → IsIdentified s raw
      → store.user_capabilities s.guild_id s.user_id ≡ ok caps
      → Granted (trim raw) caps
      → Permits store s raw user_grant
  as_role :
      {own caps : List Capability}
      → s.is_guild_owner ≡ false
      → s.has_administrator ≡ false
      → IsIdentified s raw
      → store.user_capabilities s.guild_id s.user_id ≡ ok own
      → ¬ Granted (trim raw) own
      → store.role_capabilities s.guild_id s.role_ids ≡ ok caps
      → Granted (trim raw) caps
      → Permits store s raw role_grant

not-Granted :
    (cs : List Capability) (want : Capability) → contains cs want ≡ false → ¬ Granted want cs
not-Granted cs want h g = cc (Granted→contains want g)

-- The two loads of `Check`, for a subject that is identified and no administrator.
check_users_sound :
    (store : GrantStore) (s : Subject) (raw : Capability) (own roles : Result (List Capability))
    → s.is_guild_owner ≡ false
    → s.has_administrator ≡ false
    → IsIdentified s raw
    → store.user_capabilities s.guild_id s.user_id ≡ own
    → store.role_capabilities s.guild_id s.role_ids ≡ roles
    → (check_users (trim raw) own roles).0.allowed ≡ true
    → Permits store s raw (check_users (trim raw) own roles).0.reason
unfolding check_users check_roles
check_users_sound store s raw (err e) roles ho ha hi hu hr h = cc
check_users_sound store s raw (ok own) (err e) ho ha hi hu hr h =
    elim (Bool-cases (contains own (trim raw))) [
      | inl c ↦ rw c (as_user ho ha hi hu (contains→Granted own (trim raw) c))
      | inr c ↦ absurd (ground arith)
    ]
check_users_sound store s raw (ok own) (ok caps) ho ha hi hu hr h =
    elim (Bool-cases (contains own (trim raw))) [
      | inl c ↦ rw c (as_user ho ha hi hu (contains→Granted own (trim raw) c))
      | inr c ↦ elim (Bool-cases (contains caps (trim raw))) [
        | inl d ↦
            rw (c, d)
              (as_role ho ha hi hu (not-Granted own (trim raw) c) hr
                (contains→Granted caps (trim raw) d))
        | inr d ↦ absurd (ground arith)
      ]
    ]

pub check_sound :
    (store : GrantStore) (s : Subject) (raw : Capability)
    → (check (some store) s raw).0.allowed ≡ true
    → Permits store s raw (check (some store) s raw).0.reason
unfolding check check_store
check_sound store s raw h = elim (Bool-cases (s.is_guild_owner || s.has_administrator)) [
  | inl a ↦ rw a (as_admin (ground arith))
  | inr a ↦ elim (Bool-cases (is_blank s.guild_id || is_blank s.user_id || is_blank raw)) [
    | inl b ↦ absurd (ground arith)
    | inr b ↦
        rw (a, b)
          (check_users_sound store s raw (store.user_capabilities s.guild_id s.user_id)
            (store.role_capabilities s.guild_id s.role_ids) (ground arith) (ground arith)
            (ground arith) refl refl (rw (a, b) at h))
  ]
]

pub check_complete :
    (store : GrantStore) (s : Subject) (raw : Capability) {r : Reason}
    → Permits store s raw r
    → ((check (some store) s raw).0.allowed ≡ true) × ((check (some store) s raw).0.reason ≡ r)
unfolding check check_store check_users check_roles
check_complete store s raw (as_admin a) = ground arith
check_complete store s raw (as_user o a i u g) = ground (arith, Granted→contains (trim raw) g)
check_complete store s raw (as_role {own = own} o a i u n v g) =
    elim (Bool-cases (contains own (trim raw))) [
      | inl c ↦ absurd (n (contains→Granted own (trim raw) c))
      | inr c ↦ ground (arith, Granted→contains (trim raw) g)
    ]

-- `Check` allows a capability, with a given reason, exactly when the subject is an administrator,
-- or is identified and a list that the store loads for the user, or else for the roles, has it.
pub check_exact :
    (store : GrantStore) (s : Subject) (raw : Capability) (r : Reason)
    → (((check (some store) s raw).0.allowed ≡ true) × ((check (some store) s raw).0.reason ≡ r))
      ↔ Permits store s raw r
check_exact store s raw r =
    (λ h. subst (Permits store s raw) h.1 (check_sound store s raw h.0), check_complete store s raw)

-- A check that reports an error, with any store or none, does not allow.
pub check_fails_closed :
    (store : Option GrantStore) (s : Subject) (raw : Capability) (e : Error)
    → (check store s raw).1 ≡ some e
    → ((check store s raw).0.allowed ≡ false) × ((check store s raw).0.reason ≡ store_error)
unfolding check check_store check_users check_roles
check_fails_closed store s raw e h = ground arith
