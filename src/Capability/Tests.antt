-- ===== src/Capability/Tests.antt =====
-- The capability modules at a small database.
use gigi_dc.Prelude.{
  ◌≡◌, ◌↔◌, refl, true, false, ◌||◌, some, none, List, [], ◌∷◌, failure, wrap, ok, err, trim, any,
  All,
}
use gigi_dc.Prelude.Unicode.{ascii}
use gigi_dc.Sql.{Session}
use gigi_dc.Capability.{Capability, Subject, user_grant, store_error, normalize}
use gigi_dc.Capability.Validation.{normalize_capabilities, normalize_each}
use gigi_dc.Capability.Evaluator.{GrantStore, check, check_store, check_users, contains}
use gigi_dc.Capability.Evaluator.Decisions.{Permits, check_exact, check_fails_closed}
use gigi_dc.Capability.Presets.{preset_capabilities, find_preset, known_presets}
use gigi_dc.Capability.Presets.Sound.{IsGrantable, preset_capabilities-IsGrantable}
use gigi_dc.Capability.Grants.{GrantTables, held, insert_grant, insert_guild}
use gigi_dc.Capability.Grants.Manager.{
  SqlGrantManager, apply_role_capabilities, in_transaction, grant_each, ensure_guild,
  grant_with_executor, insert_row,
}
use gigi_dc.Capability.Grants.Manager.Atomic.{apply_atomic}
use gigi_dc.Capability.Grants.Manager.Effects.{apply_held, changed}
use gigi_dc.Capability.Grants.Store.{clean_strings, sql_grant_store, select}
use gigi_dc.Capability.Grants.Store.Visible.{user_row, role_row, check-select}
use gigi_dc.Capability.Grants.RoundTrip.{grant_then_check}

abbrev member : Subject
member = record {
  guild_id = "g1";
  user_id = "u1";
  role_ids = " r1 " ∷ [];
  is_guild_owner = false;
  has_administrator = false;
}

abbrev by_user : GrantStore
by_user = record {
  user_capabilities = λ g u. ok (" web.fetch" ∷ []);
  role_capabilities = λ g rs. ok [];
}

abbrev broken_store : GrantStore
broken_store = record {
  user_capabilities = λ g u. err (failure "down");
  role_capabilities = λ g rs. ok ("web.fetch" ∷ []);
}

check_exact_example :
    (((check (some by_user) member "web.fetch").0.allowed ≡ true)
      × ((check (some by_user) member "web.fetch").0.reason ≡ user_grant))
    ↔ Permits by_user member "web.fetch" user_grant
check_exact_example = check_exact by_user member "web.fetch" user_grant

check-by_user : (check (some by_user) member "web.fetch").0.reason ≡ user_grant
unfolding check check_store check_users contains trim
check-by_user = refl

check_broken :
    (check (some broken_store) member "web.fetch").1
    ≡ some (wrap "load user capabilities" (failure "down"))
unfolding check check_store check_users trim
check_broken = refl

check_fails_closed_example :
    ((check (some broken_store) member "web.fetch").0.allowed ≡ false)
    × ((check (some broken_store) member "web.fetch").0.reason ≡ store_error)
check_fails_closed_example =
    check_fails_closed (some broken_store) member "web.fetch"
      (wrap "load user capabilities" (failure "down")) check_broken

preset_capabilities-IsGrantable_example : All (IsGrantable ascii) ("web.search" ∷ "web.fetch" ∷ [])
unfolding preset_capabilities find_preset known_presets
preset_capabilities-IsGrantable_example =
    preset_capabilities-IsGrantable ascii "web-reader" ("web.search" ∷ "web.fetch" ∷ []) refl

abbrev manager : SqlGrantManager
manager = record { has_db = true; has_begin_tx = true; new_id = some (λ n. "grant") }

abbrev empty_session : Session GrantTables
empty_session = record {
  tables = record { guilds = []; role_grants = []; user_grants = [] };
  faults = [];
  made = 0;
}

-- The commit is the call that fails: begin, the guild and the grant come before it.
abbrev failing_commit : Session GrantTables
failing_commit = record empty_session { faults = none ∷ none ∷ none ∷ some (failure "lost") ∷ [] }

abbrev one : List Capability
one = " web.fetch " ∷ []

one_normal : normalize_capabilities ascii one ≡ ok ("web.fetch" ∷ [])
unfolding normalize_capabilities normalize_each normalize trim
one_normal = refl

one_granted :
    (apply_role_capabilities ascii manager true "g1" "r1" one "admin" empty_session).0 ≡ ok tt
unfolding apply_role_capabilities normalize_capabilities normalize_each normalize trim
    in_transaction grant_each ensure_guild grant_with_executor insert_row insert_guild insert_grant
one_granted = refl

commit_lost :
    (apply_role_capabilities ascii manager true "g1" "r1" one "admin" failing_commit).0
    ≡ err (wrap "commit capability grant transaction" (failure "lost"))
unfolding apply_role_capabilities normalize_capabilities normalize_each normalize trim
    in_transaction grant_each ensure_guild grant_with_executor insert_row insert_guild insert_grant
commit_lost = refl

apply_atomic_example :
    (apply_role_capabilities ascii manager true "g1" "r1" one "admin" failing_commit).1.tables
    ≡ failing_commit.tables
apply_atomic_example =
    apply_atomic ascii manager true "g1" "r1" one "admin" failing_commit
      (wrap "commit capability grant transaction" (failure "lost")) commit_lost

apply_held_example :
    held
      (apply_role_capabilities ascii manager true "g1" "r1" one "admin"
        empty_session).1.tables.role_grants
      "g1"
      "r1"
      "web.fetch"
    ≡ changed manager "g1" "r1" "admin" "g1" "r1" "web.fetch" true ("web.fetch" ∷ []) false
apply_held_example =
    apply_held manager "g1" "r1" "admin" "g1" "r1" "web.fetch" ascii true one ("web.fetch" ∷ [])
      empty_session one_normal one_granted

abbrev granted_tables : GrantTables
granted_tables = record {
  guilds = "g1" ∷ [];
  role_grants =
      record {
        id = "1";
        guild_id = "g1";
        target_id = "r1";
        capability = "web.fetch";
        created_by = "";
      }
      ∷ [];
  user_grants = [];
}

check-select_example :
    (check (some (sql_grant_store (select granted_tables))) member "web.fetch").0.allowed ≡ (
      any (user_row member "web.fetch") granted_tables.user_grants
      || any (role_row member "web.fetch") granted_tables.role_grants)
unfolding trim
check-select_example = check-select granted_tables member "web.fetch" refl refl refl refl refl

grant_then_check_example :
    (check
      (some (
        sql_grant_store (
          select
            (apply_role_capabilities ascii manager true "g1" "r1" one "admin"
              empty_session).1.tables)))
      member
      "web.fetch").0.allowed
    ≡ true
unfolding trim clean_strings
grant_then_check_example =
    grant_then_check ascii manager "g1" "r1" "admin" one ("web.fetch" ∷ []) empty_session member
      "web.fetch" one_normal one_granted refl refl refl refl refl refl
