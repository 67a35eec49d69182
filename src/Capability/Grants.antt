-- ===== src/Capability/Grants.antt =====
-- internal/capability/manager.go and store.go: the grant tables, the statements on them, and the
-- store that the evaluator reads. A row's target is a role or a user. The unique keys and the
-- foreign key are those of db/migrations/000001_initial_schema.sql.
pub mod Manager
pub mod Store
pub mod RoundTrip
use gigi_dc.Prelude.{
  String, ◌==◌, Bool, true, false, ◌&&◌, not, List, [], ◌∷◌, Result, ok, err, failure, any, keep,
  if◌then◌else◌,
}
use gigi_dc.Capability.{Capability}

pub record Grant : Type 0 where
  pub id : String
  pub guild_id : String
  pub target_id : String
  pub capability : Capability
  pub created_by : String

pub record GrantTables : Type 0 where
  pub guilds : List String
  pub role_grants : List Grant
  pub user_grants : List Grant

-- The table that a statement names.
pub data GrantTable : Type 0 where
  role_capability_grants user_capability_grants : GrantTable

abbrev pub rows : GrantTable → GrantTables → List Grant
rows role_capability_grants t = t.role_grants
rows user_capability_grants t = t.user_grants

abbrev pub with_rows : GrantTable → List Grant → GrantTables → GrantTables
with_rows role_capability_grants rs t = record t { role_grants = rs }
with_rows user_capability_grants rs t = record t { user_grants = rs }

abbrev pub has_key : String → String → Capability → Grant → Bool
has_key guild target cap row =
    row.guild_id == guild && row.target_id == target && row.capability == cap

abbrev pub held : List Grant → String → String → Capability → Bool
held rs guild target cap = any (has_key guild target cap) rs

-- `insert into guilds (id) values ($1) on conflict (id) do nothing`.
unfoldable pub insert_guild : String → GrantTables → GrantTables
insert_guild guild t =
    if any (λ g. g == guild) t.guilds then t else record t { guilds = guild ∷ t.guilds }

-- `insert into … on conflict (guild_id, …, capability) do nothing`; the primary key and the
-- reference to `guilds` are checked for a row that goes in.
unfoldable pub insert_grant : List String → Grant → List Grant → Result (List Grant)
insert_grant guilds row rs =
    if held rs row.guild_id row.target_id row.capability
    then ok rs
    else if any (λ (r : Grant). r.id == row.id) rs
    then err (failure "duplicate key value violates unique constraint")
    else if any (λ g. g == row.guild_id) guilds
    then ok (row ∷ rs)
    else err (failure "insert violates foreign key constraint")

-- `delete from … where guild_id = $1 and … = $2 and capability = $3`.
unfoldable pub delete_grants : String → String → Capability → List Grant → List Grant
delete_grants guild target cap rs = keep (λ row. not (has_key guild target cap row)) rs
