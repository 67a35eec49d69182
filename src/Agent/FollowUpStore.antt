-- ===== src/Agent/FollowUpStore.antt =====
-- internal/agent/followup.go: the store of the last runs, by guild, channel and user. Times are
-- nanoseconds, with 0 for the zero time. `CreatedAt` of a snapshot, which nothing reads, is left out.
pub mod Trimmed
pub mod Kept
pub mod Saved
pub mod Sound
mod Tests
use gigi_dc.Prelude.{
  ℕ, suc, zero, ◌+◌, ◌-◌, ◌*◌, ◌%◌, String, ◌++◌, ◌==◌, Bool, ◌&&◌, ◌||◌, not, Option, none, some,
  List, [], ◌∷◌, map, trim, is_empty, is_blank, is_nil, ltb, eqb, length, if◌then◌else◌,
}
use gigi_dc.Prelude.Maps.{lookup, insert, delete}
use gigi_dc.ContextBroker.{Seen}
use gigi_dc.Agent.{Request, RunSnapshot}
use gigi_dc.Agent.Executor.FollowUp.{copy_tool_result}

unfoldable pub copy_context_state : Seen → Seen
copy_context_state [] = []
copy_context_state ((key, value) ∷ seen) =
    let rest = copy_context_state seen in
    if is_blank key || is_blank value then rest else insert (trim key) (trim value) rest

-- `RunSnapshot.copy`.
unfoldable pub copy_snapshot : RunSnapshot → RunSnapshot
copy_snapshot s = record {
  run_id = trim s.run_id;
  intent = trim s.intent;
  results = map copy_tool_result s.results;
  response_text = trim s.response_text;
  context_state = copy_context_state s.context_state;
}

pub record FollowUpEntry : Type 0 where
  pub snapshot : RunSnapshot
  pub saved_at : ℕ
  pub sequence : ℕ

abbrev pub Entries : Type 0
Entries = List (String × FollowUpEntry)

-- A limit of 0 stands for none, as one below 0 does in the source.
pub record MemoryFollowUpStore : Type 0 where
  pub ttl : ℕ
  pub max_entries : ℕ
  pub sequence : ℕ
  pub items : Entries

abbrev pub new_memory_follow_up_store : MemoryFollowUpStore
new_memory_follow_up_store = record {
  ttl = 1800 * 1000000000;
  max_entries = 1000;
  sequence = 0;
  items = [];
}

unfoldable pub follow_up_key : Request → String
follow_up_key r =
    if is_blank r.guild_id || is_blank r.channel_id || is_blank r.actor_user_id
    then ""
    else r.guild_id ++ (":" ++ (r.channel_id ++ (":" ++ r.actor_user_id)))

unfoldable pub is_expired : ℕ → ℕ → FollowUpEntry → Bool
is_expired ttl now entry =
    not (eqb ttl 0) && (not (eqb entry.saved_at 0) && ltb ttl (now - entry.saved_at))

unfoldable pub purge : ℕ → ℕ → Entries → Entries
purge ttl now [] = []
purge ttl now (item ∷ items) =
    let rest = purge ttl now items in if is_expired ttl now item.1 then rest else item ∷ rest

abbrev pub older : String × ℕ → String → FollowUpEntry → String × ℕ
older best key entry =
    if is_empty best.0 || ltb entry.sequence best.1 then (key, entry.sequence) else best

-- The loop that looks for the oldest key, from the best one so far.
unfoldable pub oldest : Entries → String × ℕ → String × ℕ
oldest [] best = best
oldest ((key, entry) ∷ items) best = oldest items (older best key entry)

-- The loop of `trimLocked`, on fuel.
unfoldable pub trim_items : ℕ → ℕ → Entries → Entries
trim_items zero limit items = items
trim_items (suc fuel) limit items =
    let key = (oldest items ("", 0)).0 in
    let rest = trim_items fuel limit (delete key items) in
    if not (ltb limit (length items)) || is_empty key then items else rest

unfoldable pub trim_locked : ℕ → Entries → Entries
trim_locked limit items = if eqb limit 0 then items else trim_items (length items) limit items

abbrev pub uint64 : ℕ
uint64 = 0x10000000000000000

-- The part of `Save` under the lock.
unfoldable pub save_entry : ℕ → String → RunSnapshot → MemoryFollowUpStore → MemoryFollowUpStore
save_entry now key snapshot s =
    let sequence = (s.sequence + 1) % uint64 in
    let saved : FollowUpEntry = record {
      snapshot = snapshot;
      saved_at = now;
      sequence = sequence;
    } in
    record s {
      sequence = sequence;
      items = trim_locked s.max_entries (purge s.ttl now (insert key saved s.items));
    }

abbrev pub is_void : RunSnapshot → Bool
is_void s = is_empty s.intent && is_nil s.results && is_empty s.response_text

unfoldable pub save : ℕ → Request → RunSnapshot → MemoryFollowUpStore → MemoryFollowUpStore
save now request snapshot s =
    let key = follow_up_key request in
    if is_empty key || is_void (copy_snapshot snapshot)
    then s
    else save_entry now key (copy_snapshot snapshot) s

-- What `Load` does with the entry that it finds under its key.
abbrev pub load_entry :
    ℕ
    → String
    → MemoryFollowUpStore
    → Option FollowUpEntry
    → Option RunSnapshot × MemoryFollowUpStore
load_entry now key s none = (none, s)
load_entry now key s (some entry) =
    if is_expired s.ttl now entry
    then (none, record s { items = delete key s.items })
    else (some (copy_snapshot entry.snapshot), s)

unfoldable pub load : ℕ → Request → MemoryFollowUpStore → Option RunSnapshot × MemoryFollowUpStore
load now request s =
    let key = follow_up_key request in
    if is_empty key then (none, s) else load_entry now key s (lookup key s.items)
