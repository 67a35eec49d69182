-- ===== src/Agent/Context/Tests.antt =====
-- The context of a channel with one message, for a user with a grant.
use gigi_dc.Prelude.{ℕ, String, ◌≡◌, ◌⊎◌, refl, false, none, [], ◌∷◌, ok, map, trim}
use gigi_dc.Capability.Evaluator.{GrantStore, check, check_store, check_users, contains}
use gigi_dc.Capability.Evaluator.Decisions.{Permits}
use gigi_dc.ContextBroker.{Pack}
use gigi_dc.ContextBroker.Packer.{pack_snippets, empty_pack}
use gigi_dc.ContextBroker.Packer.Budget.{IsWithin}
use gigi_dc.ContextBroker.Fetcher.{
  RecentMemoryStore, SearchResult, snippet_of, fetch_recent, normalize_channel_recent_request,
  clamp_limit,
}
use gigi_dc.Agent.{Request, guild_mention}
use gigi_dc.Agent.Runner.{is_channel_context_scope}
use gigi_dc.Agent.Context.{context_subject, fetch_context}
use gigi_dc.Agent.Context.Allowed.{IsRecent, fetch_context-IsWithin}

abbrev request : Request
request = record {
  surface = guild_mention;
  guild_id = "g1";
  channel_id = "c1";
  actor_user_id = "u1";
  role_ids = [];
  has_administrator = false;
  context_scope = "channel";
  text = "";
  raw_text = "";
  prior_run = none;
  context_pack = none;
}

abbrev grants : GrantStore
grants = record {
  user_capabilities = λ g u. ok ("memory.read.guild" ∷ []);
  role_capabilities = λ g rs. ok [];
}

abbrev said : SearchResult
said = record {
  message_id = "m1";
  channel_id = "c1";
  author_user_id = "u2";
  text = "hello";
  created_at = 0;
}

abbrev messages : RecentMemoryStore
messages asked = ok (said ∷ [])

abbrev plain : String → String
plain s = s

abbrev no_time : ℕ → String
no_time n = ""

abbrev pack : Pack
pack = pack_snippets plain (map (snippet_of plain no_time) (said ∷ [])) 2500

fetch_context-IsWithin_example :
    ((is_channel_context_scope "channel" ≡ false) × (pack ≡ empty_pack []))
    ⊎ (((reason : _) × Permits grants (context_subject request) "memory.read.guild" reason)
        × (IsWithin 2500 pack × IsRecent plain no_time messages grants "g1" "c1" 2500 pack))
unfolding fetch_context fetch_recent normalize_channel_recent_request clamp_limit check check_store
    check_users contains trim is_channel_context_scope
fetch_context-IsWithin_example =
    fetch_context-IsWithin plain no_time messages grants 0 0 request pack refl
