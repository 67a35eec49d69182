-- ===== src/Provider/Tests.antt =====
-- Policies of one guild, and the models of one provider.
use gigi_dc.Prelude.{false, ◌≡◌, refl, none, some, [], ◌∷◌, ok, failure, trim}
use gigi_dc.Prelude.Maps.{lookup}
use gigi_dc.Prelude.Unicode.{ascii}
use gigi_dc.Provider.{
  supports_purpose, validate_owner_type, validate_provider, validate_model_id, validate_purpose,
}
use gigi_dc.Provider.Usage.{
  UsageEvent, UsageSummary, record_usage, validate_usage_event, normalize_usage_event, usage_row,
  insert_usage, null_usage_string_arg, guild_usage_summary, sum_usage,
}
use gigi_dc.Provider.Usage.Summed.{record_then_sum, healthy as healthy_usage}
use gigi_dc.Provider.Policy.{
  GuildPolicyInput, policy_row, guild_policy, set_guild_policy, validate_personal_keys_mode,
  validate_tool_routing_mode,
}
use gigi_dc.Provider.Policy.Stored.{healthy, set_policies, set_policies_then_read, set_then_read}

abbrev input : GuildPolicyInput
input = record {
  guild_id = "g1 ";
  personal_keys_mode = "";
  tool_routing_mode = " dry-run";
  actor_user_id = "u1";
}

set_policies_then_read_example :
    (guild_policy " g1" (
      healthy
        (set_policies
          (input ∷ input ∷ [])
          (record { tables = []; faults = none ∷ some (failure "down") ∷ []; made = 0 })).tables)).0
    ≡ ok (
        policy_row "g1" (
          lookup "g1"
            (set_policies (input ∷ input ∷ []) (record {
              tables = [];
              faults = none ∷ some (failure "down") ∷ [];
              made = 0;
            })).tables))
unfolding trim
set_policies_then_read_example =
    set_policies_then_read (input ∷ input ∷ []) (none ∷ some (failure "down") ∷ []) 0 " g1" refl

set_then_read_example :
    (guild_policy "g1" (set_guild_policy input (healthy [])).1).0
    ≡ ok (record { guild_id = "g1"; personal_keys_mode = "off"; tool_routing_mode = "dry-run" })
unfolding trim set_guild_policy validate_personal_keys_mode validate_tool_routing_mode
set_then_read_example = set_then_read input [] "g1" tt refl refl

abbrev answer : UsageEvent
answer = record {
  request_id = "q1";
  guild_id = " g1";
  channel_id = "";
  actor_user_id = "u1";
  billing_owner_type = "guild";
  billing_owner_id = "g1";
  provider_id = "openai";
  model_id = "gpt-5.5";
  purpose = "chat";
  input_tokens = 7;
  output_tokens = 3;
  negative_tokens = false;
  status = "failed";
  error_class = "timeout";
}

abbrev summed : UsageSummary
summed = record {
  billing_owner_type = "guild";
  billing_owner_id = "g1";
  input_tokens = 0;
  output_tokens = 0;
  total_events = 0;
  failed_events = 0;
}

record_then_sum_example :
    (guild_usage_summary "g1" (record_usage ascii "e1" answer (healthy_usage [])).1).0
    ≡ ok
        (record summed { input_tokens = 7; output_tokens = 3; total_events = 1; failed_events = 1 })
unfolding trim record_usage validate_usage_event normalize_usage_event usage_row insert_usage
    validate_owner_type validate_provider validate_model_id validate_purpose supports_purpose lookup
    null_usage_string_arg guild_usage_summary sum_usage
record_then_sum_example = record_then_sum ascii "e1" answer [] "g1" summed refl refl refl
