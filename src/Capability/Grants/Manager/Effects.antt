-- ===== src/Capability/Grants/Manager/Effects.antt =====
-- internal/capability/manager.go: what `applyRoleCapabilities` does when it succeeds.
use gigi_dc.Prelude.{
  String, ◌≡◌, refl, Bool, true, false, ◌&&◌, ◌||◌, not, List, [], ◌∷◌, Result, ok, err, arith, any,
  Bool-cases, Option-cases, inl, inr, trim, is_blank, suc,
}
use gigi_dc.Prelude.Unicode.{Unicode}
use gigi_dc.Sql.{Session, call}
use gigi_dc.Capability.Grants.Manager.Keys.{same_key, held-insert_grant, held-delete_grants}
use gigi_dc.Capability.{Capability}
use gigi_dc.Capability.Validation.{normalize_capabilities}
use gigi_dc.Capability.Grants.{
  Grant, GrantTables, held, has_key, insert_guild, role_capability_grants, insert_grant,
}
use gigi_dc.Capability.Grants.Manager.{
  SqlGrantManager, GrantExec, in_transaction, apply_role_capabilities, change_each, grant_each,
  revoke_each, ensure_guild, grant_with_executor, insert_row, revoke_with_executor,
}

-- The tables that a transaction leaves are those that its body leaves, begun on the same tables.
in_transaction_ok :
    (body : GrantExec) (s : Session GrantTables)
    → (in_transaction body s).0 ≡ ok tt
    → (s0 : Session GrantTables) × (s0.tables ≡ s.tables)
      × ((body s0).0 ≡ ok tt)
      × ((in_transaction body s).1.tables ≡ (body s0).1.tables)
unfolding in_transaction
in_transaction_ok body s h = ((call s).1, ground arith, ground arith, ground arith)

-- A row that `insert_row` puts in adds its key to the role grants.
held-insert_row :
    (row : Grant) (g t : String) (k : Capability) (s : Session GrantTables)
    → (insert_row role_capability_grants row s).0 ≡ ok tt
    → held (insert_row role_capability_grants row s).1.tables.role_grants g t k
      ≡ (has_key g t k row || held s.tables.role_grants g t k)
unfolding insert_row
held-insert_row row g t k s h = go (insert_grant s.tables.guilds row s.tables.role_grants) refl
  where
    go :
        (r : Result (List Grant))
        → insert_grant s.tables.guilds row s.tables.role_grants ≡ r
        → held (insert_row role_capability_grants row s).1.tables.role_grants g t k
          ≡ (has_key g t k row || held s.tables.role_grants g t k)
    go (ok rs) e =
        ground
          (arith, held-insert_grant g t k s.tables.guilds row s.tables.role_grants {rs' = rs} e)
    go (err x) e = absurd (ground arith)

module _ (m : SqlGrantManager) (guild role actor : String) (g t : String) (k : Capability) where
  -- What a table holds after the key of `c` was added.
  held-grant_with_executor :
      (c : Capability) (s : Session GrantTables)
      → (grant_with_executor m role_capability_grants guild role c actor s).0 ≡ ok tt
      → held
          (grant_with_executor m role_capability_grants guild role c actor s).1.tables.role_grants
          g
          t
          k
        ≡ (same_key (trim guild) (trim role) c g t k || held s.tables.role_grants g t k)
  unfolding grant_with_executor
  held-grant_with_executor c s h = elim (Option-cases m.new_id) [
    | inl e ↦ absurd (unfold trim in ground arith)
    | inr (f, e) ↦ elim (Bool-cases (is_blank (f s.made))) [
      | inl b ↦ absurd (ground arith)
      | inr b ↦ ground (
        arith,
        held-insert_row
            (record {
              id = f s.made;
              guild_id = trim guild;
              target_id = trim role;
              capability = c;
              created_by = trim actor;
            })
            g t k (record s { made = suc s.made }),
      )
    ]
  ]

  -- The keys that a list of capabilities stands for, in one guild and for one role.
  abbrev pub names : List Capability → Bool
  names cs = any (λ c. same_key (trim guild) (trim role) c g t k) cs

  held-grant_each :
      (cs : List Capability) (s : Session GrantTables)
      → (grant_each m guild role cs actor s).0 ≡ ok tt
      → held (grant_each m guild role cs actor s).1.tables.role_grants g t k
        ≡ (names cs || held s.tables.role_grants g t k)
  unfolding grant_each
  held-grant_each [] s h = refl
  held-grant_each (c ∷ cs) s h = ground (
    arith,
    held-grant_with_executor c s,
    held-grant_each cs (grant_with_executor m role_capability_grants guild role c actor s).1,
  )

  held-revoke_with_executor :
      (c : Capability) (s : Session GrantTables)
      → (revoke_with_executor role_capability_grants guild role c s).0 ≡ ok tt
      → held (revoke_with_executor role_capability_grants guild role c s).1.tables.role_grants g t k
        ≡ (not (same_key (trim guild) (trim role) c g t k) && held s.tables.role_grants g t k)
  unfolding revoke_with_executor
  held-revoke_with_executor c s h =
      ground (arith, held-delete_grants g t k (trim guild) (trim role) c s.tables.role_grants)

  held-revoke_each :
      (cs : List Capability) (s : Session GrantTables)
      → (revoke_each guild role cs s).0 ≡ ok tt
      → held (revoke_each guild role cs s).1.tables.role_grants g t k
        ≡ (not (names cs) && held s.tables.role_grants g t k)
  unfolding revoke_each
  held-revoke_each [] s h = refl
  held-revoke_each (c ∷ cs) s h = ground (
    arith,
    held-revoke_with_executor c s,
    held-revoke_each cs (revoke_with_executor role_capability_grants guild role c s).1,
  )

  -- What the table holds after either loop, run on tables that held `before`.
  abbrev pub changed : Bool → List Capability → Bool → Bool
  changed true cs before = names cs || before
  changed false cs before = not (names cs) && before

  held-change_each :
      (granting : Bool) (cs : List Capability) (s : Session GrantTables)
      → (change_each granting m guild role cs actor s).0 ≡ ok tt
      → held (change_each granting m guild role cs actor s).1.tables.role_grants g t k
        ≡ changed granting cs (held s.tables.role_grants g t k)
  unfolding ensure_guild insert_guild
  held-change_each true cs s h = ground (arith, held-grant_each cs (ensure_guild guild s).1)
  held-change_each false cs s h = held-revoke_each cs s h

  -- A call that succeeds has run the transaction.
  apply_runs :
      (u : Unicode) (granting : Bool) (caps clean : List Capability) (s : Session GrantTables)
      → normalize_capabilities u caps ≡ ok clean
      → (apply_role_capabilities u m granting guild role caps actor s).0 ≡ ok tt
      → apply_role_capabilities u m granting guild role caps actor s
        ≡ in_transaction (change_each granting m guild role clean actor) s
  unfolding apply_role_capabilities
  apply_runs u granting caps clean s n h = ground arith

  -- When `applyRoleCapabilities` succeeds on capabilities that normalise to `clean`, the role holds
  -- exactly those and what it held before (granting), or what it held before without those
  -- (revoking); every other key of the table is held as before.
  pub apply_held :
      (u : Unicode) (granting : Bool) (caps clean : List Capability) (s : Session GrantTables)
      → normalize_capabilities u caps ≡ ok clean
      → (apply_role_capabilities u m granting guild role caps actor s).0 ≡ ok tt
      → held
          (apply_role_capabilities u m granting guild role caps actor s).1.tables.role_grants
          g
          t
          k
        ≡ changed granting clean (held s.tables.role_grants g t k)
  apply_held u granting caps clean s n h =
      let runs = apply_runs u granting caps clean s n h in
      let (s0, same, done, left) =
        in_transaction_ok (change_each granting m guild role clean actor) s (rw runs at h) in
      rw runs (rw left (rw (← same) (held-change_each granting clean s0 done)))
