-- ===== src/Agent/Store/Steps.antt =====
-- internal/agent/run_store.go: the steps of runs and the counts that the rows of runs keep of them.
-- The observation is a map here, of which the column holds the JSON text; that a step refers to a
-- run is a key of the database, whose refusals are faults of the driver.
pub mod Counted
use gigi_dc.Prelude.{
  ℕ, suc, String, ◌==◌, Bool, ◌&&◌, ◌||◌, List, [], ◌∷◌, push, any, Error, failure, Result, ok, err,
  trim, is_empty, eqb, if◌then◌else◌,
}
use gigi_dc.Prelude.Unicode.{Unicode}
use gigi_dc.Sql.{Exec, lift, statement, labelled}
use gigi_dc.Audit.{Metadata, sanitize_entries}
use gigi_dc.Agent.{StepRecord}
use gigi_dc.Agent.Trace.{safe_entries}

-- The columns of `agent_runs` that count.
pub record RunUsage : Type 0 where
  pub run_id : String
  pub steps_used : ℕ
  pub tool_calls_used : ℕ
  pub llm_calls_used : ℕ

pub record StepTables : Type 0 where
  pub steps : List StepRecord
  pub usage : List RunUsage

-- The unique index on the run and the index of a step.
abbrev pub is_step : String → ℕ → StepRecord → Bool
is_step run_id index x = x.run_id == run_id && eqb x.step_index index

abbrev pub is_tool_step : StepRecord → Bool
is_tool_step x = x.kind == "agent.tool"

abbrev pub is_llm_step : StepRecord → Bool
is_llm_step x = x.kind == "agent.plan" || x.kind == "agent.answer"

abbrev pub one_if : Bool → ℕ → ℕ
one_if b n = if b then suc n else n

unfoldable pub counted : StepRecord → RunUsage → RunUsage
counted x r = record r {
  steps_used = suc r.steps_used;
  tool_calls_used = one_if (is_tool_step x) r.tool_calls_used;
  llm_calls_used = one_if (is_llm_step x) r.llm_calls_used;
}

unfoldable pub count_step : StepRecord → List RunUsage → List RunUsage
count_step x [] = []
count_step x (r ∷ rows) =
    let rest = count_step x rows in if r.run_id == x.run_id then counted x r ∷ rest else r ∷ rest

-- The statement: one insertion, and the counts of its run.
unfoldable pub insert_step : StepRecord → StepTables → Result (StepTables × Unit {0})
insert_step x t =
    if any (is_step x.run_id x.step_index) t.steps
    then err (failure "duplicate key value violates unique constraint")
    else ok (record { steps = push t.steps x; usage = count_step x t.usage }, tt)

module _ (u : Unicode) where
  unfoldable pub sanitize_step_observation : Metadata → Metadata
  sanitize_step_observation observation = safe_entries (sanitize_entries u observation)

  unfoldable pub step_row : StepRecord → StepRecord
  step_row x = record x {
    run_id = trim x.run_id;
    kind = trim x.kind;
    reason = trim x.reason;
    observation = sanitize_step_observation x.observation;
  }

  unfoldable pub sql_record_step : StepRecord → Exec StepTables (Unit {0})
  sql_record_step x =
      if is_empty (trim x.run_id)
      then lift (err (failure "agent run ID is required"))
      else labelled "record agent run step" (statement (insert_step (step_row x)))
