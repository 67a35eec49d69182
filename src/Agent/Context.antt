-- ===== src/Agent/Context.antt =====
-- internal/agent/context.go: the context of a channel, for a subject that may read it.
pub mod Allowed
mod Tests
use gigi_dc.Prelude.{
  ℕ, String, Bool, true, false, ◌||◌, not, Option, none, some, [], Error, failure,
  context_permission_denied, Result, ok, err, refuse_if, ◌>>=◌, ◌>>◌, is_empty, eqb, if◌then◌else◌,
}
use gigi_dc.Capability.{Subject, Capability, Decision}
use gigi_dc.ContextBroker.{Pack}
use gigi_dc.ContextBroker.Packer.{empty_pack}
use gigi_dc.ContextBroker.Fetcher.{ChannelRecentRequest}
use gigi_dc.Agent.{Request, Surface, guild_mention}
use gigi_dc.Agent.Runner.{is_channel_context_scope}

-- A limit of 0 stands for one below 1, and so for the default.
pub record ChannelContextFetcher : Type 0 where
  pub source : Option (ChannelRecentRequest → Result Pack)
  pub checker : Option (Subject → Capability → Decision × Option Error)
  pub limit : ℕ
  pub max_chars : ℕ

abbrev pub is_guild_mention : Surface → Bool
is_guild_mention guild_mention = true
is_guild_mention _ = false

abbrev pub context_subject : Request → Subject
context_subject r = record {
  guild_id = r.guild_id;
  user_id = r.actor_user_id;
  role_ids = r.role_ids;
  is_guild_owner = false;
  has_administrator = r.has_administrator;
}

abbrev pub allowed_or_denied : Decision × Option Error → Result (Unit {0})
allowed_or_denied (d, some e) = err e
allowed_or_denied (d, none) = if d.allowed then ok tt else err context_permission_denied

abbrev pub or_default : ℕ → ℕ → ℕ
or_default n d = if eqb n 0 then d else n

abbrev pub checked_by :
    Option (Subject → Capability → Decision × Option Error) → Request → Result (Unit {0})
checked_by none r = err (failure "capability checker is required")
checked_by (some check) r = allowed_or_denied (check (context_subject r) "memory.read.guild")

abbrev pub fetch_from :
    ChannelContextFetcher → Option (ChannelRecentRequest → Result Pack) → Request → Result Pack
fetch_from f none r = err (failure "context source is required")
fetch_from f (some source) r = do
  checked_by f.checker r
  source record {
    guild_id = r.guild_id;
    channel_id = r.channel_id;
    author_user_id = "";
    limit = or_default f.limit 10;
    max_chars = or_default f.max_chars 2500;
  }

unfoldable pub fetch_context : ChannelContextFetcher → Request → Result Pack
fetch_context f r =
    if not (is_channel_context_scope r.context_scope) then ok (empty_pack []) else (do
      refuse_if (not (is_guild_mention r.surface) || is_empty r.guild_id || is_empty r.channel_id)
          "guild channel context is required"
      fetch_from f f.source r)
