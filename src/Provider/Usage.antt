-- ===== src/Provider/Usage.antt =====
-- internal/llm/provider/usage.go: the events of model usage and their sums for a guild. A count of
-- tokens that is below 0 is told by `negative_tokens` alone.
pub mod Summed
use gigi_dc.Prelude.{
  ℕ, suc, ◌+◌, String, ◌==◌, Bool, true, false, ◌&&◌, ◌||◌, not, Option, none, some, List, [], ◌∷◌,
  push, any, Error, failure, Result, ok, err, refuse_if, ◌>>=◌, ◌>>◌, trim, is_empty, is_blank,
  if◌then◌else◌,
}
use gigi_dc.Prelude.Unicode.{Unicode}
use gigi_dc.Sql.{Exec, lift, statement, labelled}
use gigi_dc.Provider.{
  default_registry, validate_owner_type, validate_provider, validate_model_id, validate_purpose,
  supports_purpose,
}

pub record UsageEvent : Type 0 where
  pub request_id : String
  pub guild_id : String
  pub channel_id : String
  pub actor_user_id : String
  pub billing_owner_type : String
  pub billing_owner_id : String
  pub provider_id : String
  pub model_id : String
  pub purpose : String
  pub input_tokens : ℕ
  pub output_tokens : ℕ
  pub negative_tokens : Bool
  pub status : String
  pub error_class : String

pub record UsageSummary : Type 0 where
  pub billing_owner_type : String
  pub billing_owner_id : String
  pub input_tokens : ℕ
  pub output_tokens : ℕ
  pub total_events : ℕ
  pub failed_events : ℕ

-- The columns that can be null stand beside the event.
pub record UsageRow : Type 0 where
  pub id : String
  pub guild_id : Option String
  pub channel_id : Option String
  pub event : UsageEvent

abbrev pub UsageRows : Type 0
UsageRows = List UsageRow

unfoldable pub normalize_usage_event : UsageEvent → UsageEvent
normalize_usage_event e = record e {
  request_id = trim e.request_id;
  guild_id = trim e.guild_id;
  channel_id = trim e.channel_id;
  actor_user_id = trim e.actor_user_id;
  billing_owner_type = trim e.billing_owner_type;
  billing_owner_id = trim e.billing_owner_id;
  provider_id = trim e.provider_id;
  model_id = trim e.model_id;
  purpose = trim e.purpose;
  status = trim e.status;
  error_class = trim e.error_class;
}

unfoldable pub null_usage_string_arg : String → Option String
null_usage_string_arg value = if is_empty value then none else some value

unfoldable pub usage_row : String → UsageEvent → UsageRow
usage_row id e = record {
  id = id;
  guild_id = null_usage_string_arg e.guild_id;
  channel_id = null_usage_string_arg e.channel_id;
  event = e;
}

unfoldable pub insert_usage : UsageRow → UsageRows → Result (UsageRows × Unit {0})
insert_usage x rows =
    if any (λ r. r.id == x.id) rows
    then err (failure "duplicate key value violates unique constraint")
    else ok (push rows x, tt)

module _ (u : Unicode) where
  unfoldable pub validate_usage_event : UsageEvent → Result (Unit {0})
  validate_usage_event e = do
    refuse_if (is_empty e.request_id) "request ID is required"
    refuse_if (is_empty e.actor_user_id) "actor user ID is required"
    validate_owner_type e.billing_owner_type
    refuse_if (is_empty e.billing_owner_id) "billing owner ID is required"
    validate_provider default_registry e.provider_id
    validate_model_id u e.model_id
    validate_purpose e.purpose
    refuse_if (not (supports_purpose default_registry e.provider_id e.purpose))
        "provider does not support purpose"
    refuse_if e.negative_tokens "usage tokens must be nonnegative"
    refuse_if (not (e.status == "succeeded") && not (e.status == "failed")) "unknown usage status"

  -- What is wrong with an event and its new identifier.
  abbrev pub check_usage : String → UsageEvent → Result (Unit {0})
  check_usage new_id e = do
    validate_usage_event (normalize_usage_event e)
    refuse_if (is_blank new_id) "usage event ID is required"

  abbrev pub then_insert : Result (Unit {0}) → UsageRow → Exec UsageRows (Unit {0})
  then_insert (err e) x = lift (err e)
  then_insert (ok a) x = labelled "insert usage event" (statement (insert_usage x))

  -- `RecordUsage`, with what `newID` gives; without a generator it is the empty text.
  unfoldable pub record_usage : String → UsageEvent → Exec UsageRows (Unit {0})
  record_usage new_id e =
      then_insert (check_usage new_id e) (usage_row (trim new_id) (normalize_usage_event e))

abbrev pub is_of_guild : String → Option String → Bool
is_of_guild guild_id none = false
is_of_guild guild_id (some g) = g == guild_id

abbrev pub count_if : Bool → ℕ
count_if b = if b then 1 else 0

abbrev pub add_row : UsageRow → UsageSummary → UsageSummary
add_row r s = record s {
  input_tokens = s.input_tokens + r.event.input_tokens;
  output_tokens = s.output_tokens + r.event.output_tokens;
  total_events = suc s.total_events;
  failed_events = s.failed_events + count_if (r.event.status == "failed");
}

abbrev pub no_usage : String → UsageSummary
no_usage guild_id = record {
  billing_owner_type = "guild";
  billing_owner_id = guild_id;
  input_tokens = 0;
  output_tokens = 0;
  total_events = 0;
  failed_events = 0;
}

-- The sums of the query, row by row.
unfoldable pub sum_usage : String → UsageRows → UsageSummary
sum_usage guild_id [] = no_usage guild_id
sum_usage guild_id (r ∷ rows) =
    let rest = sum_usage guild_id rows in
    if is_of_guild guild_id r.guild_id then add_row r rest else rest

unfoldable pub guild_usage_summary : String → Exec UsageRows UsageSummary
guild_usage_summary raw =
    let guild_id = trim raw in
    if is_empty guild_id
    then lift (err (failure "guild ID is required"))
    else labelled "query guild usage summary"
        (statement (λ rows. ok (rows, sum_usage guild_id rows)))
