-- ===== src/Capability/Grants/Store.antt =====
-- internal/capability/store.go: the grant store that the evaluator reads, over the answers of the
-- database to its two queries. A row is what `Scan` makes of it.
pub mod Visible
use gigi_dc.Prelude.{
  String, ◌==◌, Bool, ◌&&◌, Option, none, some, List, [], ◌∷◌, map, Error, wrap, Result, ok, err,
  ◌>>=◌, trim, is_empty, is_nil, any, keep, if◌then◌else◌,
}
use gigi_dc.Capability.{Capability}
use gigi_dc.Capability.Evaluator.{GrantStore}
use gigi_dc.Capability.Grants.{Grant, GrantTables}

-- The statements, with their arguments.
pub data Query : Type 0 where
  user_query : String → String → Query
  role_query : String → List String → Query

-- `final` is `rows.Err()` after the last row.
pub record Rows : Type 0 where
  pub scanned : List (Result String)
  pub final : Option Error

unfoldable pub clean_strings : List String → List String
clean_strings [] = []
clean_strings (v ∷ vs) =
    let rest = clean_strings vs in
    let value = trim v in if is_empty value then rest else value ∷ rest

unfoldable pub collect : List (Result String) → Option Error → Result (List Capability)
collect [] none = ok []
collect [] (some e) = err e
collect (err e ∷ rest) final = err (wrap "scan capability" e)
collect (ok raw ∷ rest) final = do
  caps ← collect rest final
  let value = trim raw
  ok (if is_empty value then caps else value ∷ caps)

unfoldable pub query_capabilities : (Query → Result Rows) → Query → Result (List Capability)
query_capabilities query q = do rows ← query q; collect rows.scanned rows.final

unfoldable pub sql_grant_store : (Query → Result Rows) → GrantStore
sql_grant_store query = record {
  user_capabilities = λ guild user. query_capabilities query (user_query (trim guild) (trim user));
  role_capabilities = λ guild roles.
      let cleaned = clean_strings roles in
      if is_nil cleaned then ok [] else query_capabilities query (role_query (trim guild) cleaned);
}

-- The rows that a database without faults answers with.
unfoldable pub select : GrantTables → Query → Result Rows
select t (user_query guild user) = ok (record {
  scanned =
      map (λ (r : Grant). ok r.capability)
        (keep (λ (r : Grant). r.guild_id == guild && r.target_id == user) t.user_grants);
  final = none;
})
select t (role_query guild roles) = ok (record {
  scanned =
      map (λ (r : Grant). ok r.capability)
        (keep (λ (r : Grant). r.guild_id == guild && any (λ role. r.target_id == role) roles)
          t.role_grants);
  final = none;
})
