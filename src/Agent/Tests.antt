-- ===== src/Agent/Tests.antt =====
-- The agent's runtime with one tool, a checker that allows it, and a planner that calls it once.
use gigi_dc.Prelude.{◌+◌, ◌≤◌, ◌≡◌, refl, true, false, none, some, [], ◌∷◌, ok}
use gigi_dc.Prelude.Unicode.{ascii}
use gigi_dc.Capability.{role_grant}
use gigi_dc.Agent.{Request, Plan, read, guild_mention}
use gigi_dc.Agent.Effects.{tool_runs, ask}
use gigi_dc.Agent.Trace.{Trace, RunStore}
use gigi_dc.Agent.Tools.{Tool}
use gigi_dc.Agent.Policy.{
  RoutingPolicy, ToolRoutingMode, routing_enabled, routing_dry_run, subject_of, mode,
}
use gigi_dc.Agent.Executor.{Executor}
use gigi_dc.Agent.Executor.Authorized.{IsAuthorized}
use gigi_dc.Sql.{Session}
use gigi_dc.Agent.{RunRecord, RunStatus, TerminationReason}
use gigi_dc.Agent.Store.{RunRows, canceled_run, sql_start_run, sql_complete_run}
use gigi_dc.Agent.Store.Canceled.{
  unchanged, then_step, starts_run, completes_run, StoreRun-canceled_run,
}
use gigi_dc.Agent.Runner.{Runner, run_id_of, max_tool_calls, is_ignored}
use gigi_dc.Agent.Runner.Run.{run}
use gigi_dc.Agent.Runner.Safe.{run-IsAuthorized, run-IsAtMost, run_without_tools}
use gigi_dc.Agent.Runner.Once.{IsEnded, run-IsEnded}

abbrev recent : Tool
recent = record {
  spec = record {
    name = "memory.recent";
    description = "recent";
    kind = read;
    capability = "memory.read.guild";
  };
  execute =
      λ h request call. ok (record { name = call.name; summary = "3 messages"; results = none });
}

abbrev untraced : Trace
untraced = record {
  has_recorder = true;
  store = none;
  sink = none;
  source = "agent";
  run_id = "";
  step = 0;
}

abbrev policy_of : ToolRoutingMode → RoutingPolicy
policy_of m = record {
  policy = some (λ h guild. ok m);
  checker = some (λ h s c. (record { allowed = true; capability = c; reason = role_grant }, none));
  required_before_plan = "";
}

abbrev executor_of : ToolRoutingMode → Executor
executor_of m = record {
  tools = ("memory.recent", recent) ∷ [];
  answerer = none;
  skip_answer_reason = "";
  policy = policy_of m;
  trace = untraced;
  trace_step_offset = 0;
  has_follow_ups = false;
  errors = record {
    message = λ e. "failed";
    is_provider_challenge = λ e. false;
    is_blocked_host = λ e. false;
    search_provider = λ e. none;
  };
  new_confirmation_id = λ h. "confirmation-1";
}

abbrev one_call : Plan
one_call = record {
  intent = "recent";
  context_scopes = [];
  tool_calls = record { name = "memory.recent"; args = [] } ∷ [];
  clarifying_question = "";
  requires_confirmation = false;
  trace = [];
}

abbrev run_rows : RunStore
run_rows = record {
  start_run = λ h x. none;
  is_run_canceled = λ h id. ok false;
  create_confirmation = λ h c. none;
}

abbrev runner_of : ToolRoutingMode → Runner
runner_of m = record {
  planner = some (λ h request specs. ok (one_call, true));
  context_fetcher = none;
  policy = policy_of m;
  executor = executor_of m;
  trace = untraced;
  limits = record {
    max_steps = 8;
    max_tool_calls = 2;
    budget = record { max_input_tokens = 0; max_output_tokens = 0; max_llm_calls = 0 };
  };
  run_store = some run_rows;
  new_run_id = some (λ h. "run-1");
  storage_id = λ h. "run-2";
}

abbrev question : Request
question = record {
  surface = guild_mention;
  guild_id = "g1";
  channel_id = "c1";
  actor_user_id = "u1";
  role_ids = "r1" ∷ [];
  has_administrator = false;
  context_scope = "";
  text = "what is new?";
  raw_text = "what is new?";
  prior_run = none;
  context_pack = none;
}

abbrev some_run : RunRecord
some_run = record {
  id = "run-1";
  guild_id = "g1";
  channel_id = "c1";
  actor_user_id = "u1";
  surface = guild_mention;
  context_scope = "";
  status = RunStatus.running;
  max_steps = 8;
  max_tool_calls = 2;
  max_llm_calls = 0;
  max_input_tokens = 0;
  max_output_tokens = 0;
}

-- A run whose cancellation has been requested.
abbrev runs : Session RunRows
runs = record {
  tables =
      record {
        id = "run-1";
        columns = some_run;
        status = RunStatus.running;
        termination_reason = none;
        cancel_requested_at = some 7;
        completed_at = none;
        canceled_at = none;
      }
      ∷ [];
  faults = [];
  made = 0;
}

StoreRun-canceled_run_example :
    canceled_run "run-1"
      (sql_complete_run 9 "run-1" RunStatus.succeeded TerminationReason.completed
        (sql_start_run some_run runs).1).1.tables
    ≡ true
unfolding canceled_run
StoreRun-canceled_run_example =
    StoreRun-canceled_run "run-1"
      (then_step (then_step unchanged (starts_run some_run))
        (completes_run 9 "run-1" RunStatus.succeeded TerminationReason.completed))
      refl

run-IsAuthorized_example :
    IsAuthorized
      (("memory.recent", recent) ∷ [])
      (policy_of routing_enabled).checker
      (subject_of question)
      (run ascii (runner_of routing_enabled) question []).1
run-IsAuthorized_example = run-IsAuthorized ascii (runner_of routing_enabled) question [] tt

run-IsAtMost_example :
    tool_runs (run ascii (runner_of routing_enabled) question []).1
    ≤ tool_runs [] + max_tool_calls (runner_of routing_enabled).limits
run-IsAtMost_example = run-IsAtMost ascii (runner_of routing_enabled) question []

run_without_tools_example : tool_runs (run ascii (runner_of routing_dry_run) question []).1 ≡ 0
unfolding mode ask
run_without_tools_example =
    run_without_tools ascii (runner_of routing_dry_run) question (λ h. refl) []

run-IsEnded_example :
    IsEnded 1 0
      (run_id_of (runner_of routing_enabled) [])
      (run ascii (runner_of routing_enabled) question []).0
      (run ascii (runner_of routing_enabled) question []).1
unfolding is_ignored
run-IsEnded_example =
    run-IsEnded ascii (runner_of routing_enabled) run_rows question [] refl refl refl
