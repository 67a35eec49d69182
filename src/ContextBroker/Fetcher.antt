-- ===== src/ContextBroker/Fetcher.antt =====
-- internal/contextbroker/fetcher.go: the recent messages of a channel as a pack. The store of messages
-- and the printing of a time are arguments; a time is a number, 0 for the zero time.
use gigi_dc.Prelude.{
  ℕ, String, false, Option, none, some, List, map, failure, Result, ok, err, refuse_if, ◌>>=◌, ◌>>◌,
  trim, is_empty, ltb, eqb, if◌then◌else◌,
}
use gigi_dc.ContextBroker.{Snippet, Pack}
use gigi_dc.ContextBroker.Packer.{pack_snippets}

-- What the fetcher reads of a message.
pub record SearchResult : Type 0 where
  pub message_id : String
  pub channel_id : String
  pub author_user_id : String
  pub text : String
  pub created_at : ℕ

-- The fields of `memory.RecentRequest` that the fetcher fills.
pub record RecentRequest : Type 0 where
  pub guild_id : String
  pub channel_id : String
  pub author_user_id : String
  pub limit : ℕ

pub record ChannelRecentRequest : Type 0 where
  pub guild_id : String
  pub channel_id : String
  pub author_user_id : String
  pub limit : ℕ
  pub max_chars : ℕ

abbrev pub RecentMemoryStore : Type 0
RecentMemoryStore = RecentRequest → Result (List SearchResult)

-- A limit of 0 stands for one below 1.
unfoldable pub clamp_limit : ℕ → ℕ
clamp_limit limit = if eqb limit 0 then 10 else if ltb 25 limit then 25 else limit

unfoldable pub normalize_channel_recent_request : ChannelRecentRequest → ChannelRecentRequest
normalize_channel_recent_request r = record r {
  guild_id = trim r.guild_id;
  channel_id = trim r.channel_id;
  author_user_id = trim r.author_user_id;
  limit = clamp_limit r.limit;
}

abbrev pub recent_of : ChannelRecentRequest → RecentRequest
recent_of r = record {
  guild_id = r.guild_id;
  channel_id = r.channel_id;
  author_user_id = r.author_user_id;
  limit = r.limit;
}

module _ (hash : String → String) (format_time : ℕ → String) where
  unfoldable pub format_created_at : ℕ → String
  format_created_at created_at = if eqb created_at 0 then "" else format_time created_at

  unfoldable pub snippet_of : SearchResult → Snippet
  snippet_of r = record {
    id = r.message_id;
    source = "memory.current_channel";
    channel_id = r.channel_id;
    author_id = r.author_user_id;
    text = r.text;
    created_at = format_created_at r.created_at;
    pinned = false;
    stale = false;
  }

  abbrev pub recent_messages : Option RecentMemoryStore → RecentRequest → Result (List SearchResult)
  recent_messages none request = err (failure "memory store is required")
  recent_messages (some store) request = store request

  unfoldable pub fetch_recent : Option RecentMemoryStore → ChannelRecentRequest → Result Pack
  fetch_recent store raw =
      let request = normalize_channel_recent_request raw in
      (do
        refuse_if (is_empty request.guild_id) "guild ID is required"
        refuse_if (is_empty request.channel_id) "channel ID is required"
        results ← recent_messages store (recent_of request)
        ok (pack_snippets hash (map snippet_of results) request.max_chars))
