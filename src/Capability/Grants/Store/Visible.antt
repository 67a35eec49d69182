-- ===== src/Capability/Grants/Store/Visible.antt =====
-- internal/capability: what the managers write is what the evaluator sees.
use gigi_dc.Prelude.{
  ◌≡◌, refl, sym, inl, inr, ◌==◌, eq_iff, Bool, true, false, ◌&&◌, ◌||◌, none, some, List, [], ◌∷◌,
  map, ok, arith, trim, trim-trim, is_empty, is_blank, is_nil, any, keep, Bool-cases,
}
use gigi_dc.Capability.{Capability, Subject}
use gigi_dc.Capability.Evaluator.{contains, check, check_store, check_users, check_roles}
use gigi_dc.Capability.Grants.{Grant, GrantTables}
use gigi_dc.Capability.Grants.Store.{
  collect, clean_strings, query_capabilities, sql_grant_store, select,
}

-- The capability of a row that the query keeps is in the answer, trimmed.
module _ (p : Grant → Bool) (want : Capability) (solid : is_empty want ≡ false) where
  collect_total :
      (rs : List Grant)
      → (caps : List Capability) × (collect (map (λ (r : Grant). ok r.capability) (keep p rs)) none
          ≡ ok caps)
        × (contains caps want ≡ any (λ (r : Grant). p r && (trim r.capability == want)) rs)
  unfolding collect contains
  collect_total [] = ([], refl, refl)
  collect_total (r ∷ rs) =
      let (caps, e, h) = collect_total rs in
      elim (Bool-cases (p r)) [
        | inl a ↦ elim (Bool-cases (is_blank r.capability)) [
          | inl b ↦ (caps, rw (a, e, b) refl, ground (arith, eq_iff (trim r.capability) want))
          | inr b ↦ (trim r.capability ∷ caps, rw (a, e, b) refl, rw (a, trim-trim, h) refl)
        ]
        | inr a ↦ (caps, rw a e, rw a h)
      ]

-- The rows of the two tables that give a subject a capability.
abbrev pub user_row : Subject → Capability → Grant → Bool
user_row s raw r =
    (r.guild_id == trim s.guild_id && r.target_id == trim s.user_id)
    && trim r.capability == trim raw

abbrev pub role_row : Subject → Capability → Grant → Bool
role_row s raw r =
    (r.guild_id == trim s.guild_id && any (λ role. r.target_id == role) (clean_strings s.role_ids))
    && trim r.capability == trim raw

any_never : (p : Grant → Bool) (rs : List Grant) → ((r : Grant) → p r ≡ false) → any p rs ≡ false
any_never p [] h = refl
any_never p (r ∷ rs) h = rw (h r) (any_never p rs h)

role_row_no_roles :
    (s : Subject) (raw : Capability) (r : Grant)
    → is_nil (clean_strings s.role_ids) ≡ true
    → role_row s raw r ≡ false
role_row_no_roles s raw r h = ground arith

module _ (t : GrantTables) (s : Subject) (raw : Capability) (solid : is_blank raw ≡ false) where
  users_read :
      (caps : List Capability) × ((sql_grant_store (select t)).user_capabilities s.guild_id
          s.user_id
        ≡ ok caps)
      × (contains caps (trim raw) ≡ any (user_row s raw) t.user_grants)
  unfolding sql_grant_store query_capabilities select
  users_read =
      collect_total (λ r. r.guild_id == trim s.guild_id && r.target_id == trim s.user_id) (trim raw)
        solid t.user_grants

  roles_read :
      (caps : List Capability) × ((sql_grant_store (select t)).role_capabilities s.guild_id
          s.role_ids
        ≡ ok caps)
      × (contains caps (trim raw) ≡ any (role_row s raw) t.role_grants)
  unfolding sql_grant_store query_capabilities select contains
  roles_read = elim (Bool-cases (is_nil (clean_strings s.role_ids))) [
    | inl n ↦ (
      [],
      rw n refl,
      sym (any_never (role_row s raw) t.role_grants (λ r. role_row_no_roles s raw r n)),
    )
    | inr n ↦
        let (caps, e, h) =
          collect_total
            (λ r.
              r.guild_id == trim s.guild_id
              && any (λ role. r.target_id == role) (clean_strings s.role_ids))
            (trim raw) solid t.role_grants in
        (caps, rw n e, h)
  ]

  -- For a subject that has a guild and a user and neither owns nor administers the guild, and a capability that is not blank, Check over a healthy database allows exactly what some row grants to the user, or to one of the subject's roles, in that guild.
  pub check-select :
      s.is_guild_owner ≡ false
      → s.has_administrator ≡ false
      → is_blank s.guild_id ≡ false
      → is_blank s.user_id ≡ false
      → (check (some (sql_grant_store (select t))) s raw).0.allowed
        ≡ (any (user_row s raw) t.user_grants || any (role_row s raw) t.role_grants)
  unfolding check check_store check_users check_roles
  check-select o a g v =
      let (own, p, q) = users_read in let (caps, p', q') = roles_read in ground (arith)
