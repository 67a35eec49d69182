-- ===== src/Identity.antt =====
-- internal/identity/resolver.go: who an event comes from. `empty_reason` and `empty_source` are the
-- empty texts.
pub mod Clean
mod Tests
use gigi_dc.Prelude.{
  String, ◌==◌, Bool, true, false, ◌&&◌, ◌||◌, not, Option, none, some, List, [], ◌∷◌, push, any,
  is_nil, Error, failure, wrap, Result, ok, err, trim, is_empty, is_blank, if◌then◌else◌,
}
use gigi_dc.Capability.{Subject}

pub data Source : Type 0 where
  event fetched empty_source : Source

pub data Reason : Type 0 where
  guild_required member_lookup_failed user_required empty_reason : Reason

pub record Event : Type 0 where
  pub guild_id : String
  pub channel_id : String
  pub user_id : String
  pub role_ids : List String
  pub is_guild_owner : Bool
  pub has_administrator : Bool
  pub require_guild : Bool

pub record Member : Type 0 where
  pub user_id : String
  pub role_ids : List String
  pub is_guild_owner : Bool
  pub has_administrator : Bool

pub record Resolution : Type 0 where
  pub resolved : Bool
  pub ambiguous : Bool
  pub reason : Reason
  pub source : Source
  pub subject : Subject
  pub channel_id : String

abbrev pub MemberSource : Type 0
MemberSource = String → String → Result Member

abbrev pub nobody : Subject
nobody = record {
  guild_id = "";
  user_id = "";
  role_ids = [];
  is_guild_owner = false;
  has_administrator = false;
}

-- The loop of `cleanRoleIDs`, with what it has kept so far, which `seen` holds too.
unfoldable pub clean_onto : List String → List String → List String
clean_onto cleaned [] = cleaned
clean_onto cleaned (raw ∷ role_ids) =
    clean_onto
      (if is_blank raw || any (λ kept. kept == trim raw) cleaned
        then cleaned
        else push cleaned (trim raw))
      role_ids

unfoldable pub clean_role_ids : List String → List String
clean_role_ids role_ids = clean_onto [] role_ids

abbrev pub refused : String → Reason → Resolution
refused channel_id reason = record {
  resolved = false;
  ambiguous = true;
  reason = reason;
  source = empty_source;
  subject = nobody;
  channel_id = channel_id;
}

abbrev pub resolved_as : String → Source → Subject → Resolution
resolved_as channel_id source subject = record {
  resolved = true;
  ambiguous = false;
  reason = empty_reason;
  source = source;
  subject = subject;
  channel_id = channel_id;
}

abbrev pub event_subject : Event → Subject
event_subject e = record {
  guild_id = trim e.guild_id;
  user_id = trim e.user_id;
  role_ids = clean_role_ids e.role_ids;
  is_guild_owner = e.is_guild_owner;
  has_administrator = e.has_administrator;
}

abbrev pub member_subject : Event → Member → Subject
member_subject e m = record {
  guild_id = trim e.guild_id;
  user_id = trim e.user_id;
  role_ids = clean_role_ids m.role_ids;
  is_guild_owner = m.is_guild_owner;
  has_administrator = m.has_administrator;
}

abbrev pub after_lookup : Event → Result Member → Resolution × Option Error
after_lookup e (ok m) = (resolved_as (trim e.channel_id) fetched (member_subject e m), none)
after_lookup e (err x) =
    (refused (trim e.channel_id) member_lookup_failed, some (wrap "lookup guild member" x))

abbrev pub speaks_for_itself : Event → Bool
speaks_for_itself e =
    is_blank e.guild_id
    || not (is_nil (clean_role_ids e.role_ids))
    || e.is_guild_owner
    || e.has_administrator

-- The resolution of an event that names what it must, with a source or none.
abbrev pub resolve_named : Option MemberSource → Event → Resolution × Option Error
resolve_named none e = (resolved_as (trim e.channel_id) event (event_subject e), none)
resolve_named (some source) e =
    if speaks_for_itself e
    then (resolved_as (trim e.channel_id) event (event_subject e), none)
    else after_lookup e (source (trim e.guild_id) (trim e.user_id))

-- `Resolver.Resolve`: the result and the error, which come together.
unfoldable pub resolve : Option MemberSource → Event → Resolution × Option Error
resolve source e =
    if is_blank e.user_id
    then (refused (trim e.channel_id) user_required, some (failure "identity user ID is required"))
    else if e.require_guild && is_blank e.guild_id
    then (refused (trim e.channel_id) guild_required, some (failure "guild identity is required"))
    else resolve_named source e
