-- ===== src/Agent/Effects.antt =====
-- What a run does to the world, as a history with the newest effect first. The collaborators of
-- the runtime (run store, checker, tools, planner, …) are functions of the history so far, so they
-- may answer differently each time.
pub mod Keeps
use gigi_dc.Prelude.{ℕ, suc, String, Bool, true, false, Option, none, some, List, [], ◌∷◌}
use gigi_dc.Audit.{Event}
use gigi_dc.Capability.{Capability, Subject}
use gigi_dc.Agent.{
  Request, Plan, ToolSpec, ToolCall, ToolResult, RunRecord, RunStatus, TerminationReason,
  StepRecord, ConfirmationRecord, TraceEvent, RunSnapshot,
}

pub data Effect : Type 0 where
  run_started : RunRecord → Effect
  run_completed : String → RunStatus → TerminationReason → Effect
  step_recorded : StepRecord → Effect
  cancel_checked : String → Effect
  confirmation_created : ConfirmationRecord → Effect
  sink_recorded : TraceEvent → Effect
  audit_recorded : Event → Effect
  policy_read : String → Effect
  capability_checked : Subject → Capability → Effect
  context_fetched : Request → Effect
  planned : Request → List ToolSpec → Effect
  tool_run : ToolSpec → ToolCall → Effect
  answered : Plan → List ToolResult → Effect
  follow_up_saved : RunSnapshot → Effect

abbrev pub History : Type 0
History = List Effect

abbrev pub Act : Type 0 → Type 0
Act A = History → A × History

module _ {A : Type 0} where
  unfoldable pub give : A → Act A
  give a h = (a, h)

  -- A call: the collaborator's answer, given the history, and the effect that stands for it.
  unfoldable pub ask : Effect → (History → A) → Act A
  ask e answer h = (answer h, e ∷ h)

unfoldable pub perform : Effect → Act (Unit {0})
perform e h = (tt, e ∷ h)

module _ {A B : Type 0} where
  infixl 5 ◌>>=◌ ◌>>◌
  unfoldable pub ◌>>=◌ : Act A → (A → Act B) → Act B
  ◌>>=◌ m f h = f (m h).0 (m h).1

  abbrev pub ◌>>◌ : Act A → Act B → Act B
  m >> k = m >>= λ _. k

abbrev pub tool_runs : History → ℕ
tool_runs [] = 0
tool_runs (tool_run spec call ∷ h) = suc (tool_runs h)
tool_runs (_ ∷ h) = tool_runs h

abbrev pub starts : History → ℕ
starts [] = 0
starts (run_started r ∷ h) = suc (starts h)
starts (_ ∷ h) = starts h

abbrev pub completions : History → ℕ
completions [] = 0
completions (run_completed id status reason ∷ h) = suc (completions h)
completions (_ ∷ h) = completions h

-- Neither a tool's run nor the start or the end of an agent's run.
abbrev pub is_quiet : Effect → Bool
is_quiet (tool_run spec call) = false
is_quiet (run_started r) = false
is_quiet (run_completed id status reason) = false
is_quiet _ = true
