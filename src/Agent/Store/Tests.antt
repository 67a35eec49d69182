-- ===== src/Agent/Store/Tests.antt =====
-- The tables of steps and of confirmations, with a few rows.
use gigi_dc.Prelude.{◌≢◌, refl, none, some, List, [], ◌∷◌, ok, failure, trim}
use gigi_dc.Prelude.Unicode.{ascii}
use gigi_dc.Sql.{Session}
use gigi_dc.Audit.{succeeded}
use gigi_dc.Agent.{StepRecord, ConfirmationRecord, pending, confirmed, canceled}
use gigi_dc.Agent.Store.Steps.{StepTables}
use gigi_dc.Agent.Store.Steps.Counted.{IsCounted, record_steps, record_steps-IsCounted}
use gigi_dc.Agent.Store.Confirmations.{ConfirmationRows, resolve_confirmation}
use gigi_dc.Agent.Store.Confirmations.Resolved.{
  ConfirmationCall, creates, resolves, after_confirmation_calls, resolved_once,
}

abbrev step : StepRecord
step = record {
  run_id = "r1";
  step_index = 1;
  kind = "agent.tool";
  status = succeeded;
  reason = "";
  observation = [];
}

abbrev steps : Session StepTables
steps = record {
  tables = record {
    steps = [];
    usage = record { run_id = "r1"; steps_used = 0; tool_calls_used = 0; llm_calls_used = 0 } ∷ [];
  };
  faults = none ∷ none ∷ some (failure "down") ∷ [];
  made = 0;
}

record_steps-IsCounted_example :
    IsCounted (record_steps ascii (step ∷ step ∷ step ∷ []) steps).tables
record_steps-IsCounted_example =
    record_steps-IsCounted ascii (step ∷ step ∷ step ∷ []) steps (((refl, (refl, refl)), tt), tt)

abbrev asked : ConfirmationRecord
asked = record {
  id = "c1";
  run_id = "r1";
  step_index = 1;
  status = pending;
  tool_name = "jobs.cancel";
  payload = [];
  created_by_user_id = "u1";
}

abbrev waiting : Session ConfirmationRows
waiting = record {
  tables =
      record {
        confirmation = asked;
        resolved_by_user_id = none;
        confirmed_at = none;
        canceled_at = none;
        created_at = 3;
      }
      ∷ [];
  faults = [];
  made = 0;
}

abbrev calls : List ConfirmationCall
calls = creates 5 asked ∷ resolves 6 "c1" canceled "u2" ∷ []

resolved_once_example :
    (resolve_confirmation 7 " c1" confirmed "u2" (
      after_confirmation_calls ascii calls
        (resolve_confirmation 4 " c1" confirmed "u1" waiting).1)).0
    ≢ ok tt
unfolding resolve_confirmation trim
resolved_once_example =
    resolved_once ascii 4 " c1" confirmed "u1" waiting refl calls 7 confirmed "u2"
