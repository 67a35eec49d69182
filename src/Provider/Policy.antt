-- ===== src/Provider/Policy.antt =====
-- internal/llm/provider/policy.go: the policies of guilds, in a table with one row for each guild.
-- The columns of who changed a row and when are left out.
pub mod Stored
use gigi_dc.Prelude.{
  String, ◌==◌, Bool, ◌&&◌, not, Option, none, some, List, [], ◌∷◌, Error, failure, Result, ok, err,
  refuse_if, trim, is_empty, is_blank, if◌then◌else◌,
}
use gigi_dc.Prelude.Maps.{lookup, insert}
use gigi_dc.Sql.{Exec, lift, statement, labelled, ◌>>=◌, ◌>>◌}

pub record GuildPolicy : Type 0 where
  pub guild_id : String
  pub personal_keys_mode : String
  pub tool_routing_mode : String

pub record GuildPolicyInput : Type 0 where
  pub guild_id : String
  pub personal_keys_mode : String
  pub tool_routing_mode : String
  pub actor_user_id : String

-- The two modes of each guild.
abbrev pub PolicyRows : Type 0
PolicyRows = List (String × (String × String))

unfoldable pub default_guild_policy : String → GuildPolicy
default_guild_policy guild_id = record {
  guild_id = trim guild_id;
  personal_keys_mode = "off";
  tool_routing_mode = "off";
}

unfoldable pub validate_personal_keys_mode : String → Result (Unit {0})
validate_personal_keys_mode mode =
    refuse_if (not (mode == "off") && not (mode == "dm-only") && not (mode == "guild-allowed"))
      "unknown personal keys mode"

unfoldable pub validate_tool_routing_mode : String → Result (Unit {0})
validate_tool_routing_mode mode =
    refuse_if (not (mode == "off") && not (mode == "dry-run") && not (mode == "enabled"))
      "unknown tool routing mode"

abbrev pub policy_row : String → Option (String × String) → GuildPolicy
policy_row guild_id none = default_guild_policy guild_id
policy_row guild_id (some modes) = record {
  guild_id = guild_id;
  personal_keys_mode = modes.0;
  tool_routing_mode = modes.1;
}

-- A row that is missing gives the default, whose modes pass the tests that follow.
unfoldable pub guild_policy : String → Exec PolicyRows GuildPolicy
guild_policy raw =
    let guild_id = trim raw in
    if is_empty guild_id then lift (err (failure "guild ID is required")) else (do
      policy ←
          labelled "query guild llm policy"
            (statement (λ rows. ok (rows, policy_row guild_id (lookup guild_id rows))))
      lift (validate_personal_keys_mode policy.personal_keys_mode)
      lift (validate_tool_routing_mode policy.tool_routing_mode)
      lift (ok policy))

abbrev pub mode_or_off : String → String
mode_or_off raw = if is_blank raw then "off" else trim raw

unfoldable pub set_guild_policy : GuildPolicyInput → Exec PolicyRows (Unit {0})
set_guild_policy input =
    let guild_id = trim input.guild_id in
    let keys = mode_or_off input.personal_keys_mode in
    let routing = mode_or_off input.tool_routing_mode in
    (do
      lift (refuse_if (is_empty guild_id) "guild ID is required")
      lift (validate_personal_keys_mode keys)
      lift (validate_tool_routing_mode routing)
      lift (refuse_if (is_blank input.actor_user_id) "actor user ID is required")
      labelled "upsert guild llm policy"
          (statement (λ rows. ok (insert guild_id (keys, routing) rows, tt))))
