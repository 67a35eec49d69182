-- ===== src/Agent/Policy.antt =====
-- internal/agent/policy.go: the routing mode and the capability checks of a run. The policy manager
-- and the checker are interfaces; `none` is the nil one.
use gigi_dc.Prelude.{
  String, true, false, Option, none, some, Error, failure, Result, ok, is_empty, if◌then◌else◌,
}
use gigi_dc.Capability.{Capability, Subject, Decision, public_action, store_error}
use gigi_dc.Agent.{Request, ToolSpec}
use gigi_dc.Agent.Tools.{normalize_tool_spec}
use gigi_dc.Agent.Effects.{History, Act, give, ask, policy_read, capability_checked}

pub data ToolRoutingMode : Type 0 where
  routing_off routing_dry_run routing_enabled : ToolRoutingMode
  other_mode : String → ToolRoutingMode

abbrev pub Verdict : Type 0
Verdict = Decision × Option Error

abbrev pub Checker : Type 0
Checker = History → Subject → Capability → Verdict

pub record RoutingPolicy : Type 0 where
  pub policy : Option (History → String → Result ToolRoutingMode)
  pub checker : Option Checker
  pub required_before_plan : Capability

unfoldable pub mode : RoutingPolicy → String → Act (Result ToolRoutingMode)
mode p guild = elim p.policy [
  | none ↦ give (ok routing_off)
  | some guild_policy ↦ ask (policy_read guild) (λ h. guild_policy h guild)
]

-- The subject that a request stands for; ownership of the guild is not passed on.
abbrev pub subject_of : Request → Subject
subject_of r = record {
  guild_id = r.guild_id;
  user_id = r.actor_user_id;
  role_ids = r.role_ids;
  is_guild_owner = false;
  has_administrator = r.has_administrator;
}

abbrev pub allow_public : Verdict
allow_public = (record { allowed = true; capability = ""; reason = public_action }, none)

abbrev pub no_checker : Capability → Verdict
no_checker required = (
  record { allowed = false; capability = required; reason = store_error },
  some (failure "capability checker is required"),
)

unfoldable pub check_capability : RoutingPolicy → Request → Capability → Act Verdict
check_capability p request required = elim p.checker [
  | none ↦ give (no_checker required)
  | some check ↦
      ask (capability_checked (subject_of request) required)
        (λ h. check h (subject_of request) required)
]

unfoldable pub check_before_plan : RoutingPolicy → Request → Act Verdict
check_before_plan p request =
    if is_empty p.required_before_plan
    then give allow_public
    else check_capability p request p.required_before_plan

unfoldable pub check_before_tool : RoutingPolicy → Request → ToolSpec → Act Verdict
check_before_tool p request raw =
    let spec = normalize_tool_spec raw in
    if is_empty spec.capability
    then give allow_public
    else check_capability p request spec.capability
