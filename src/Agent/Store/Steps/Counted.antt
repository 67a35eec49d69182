-- ===== src/Agent/Store/Steps/Counted.antt =====
-- internal/agent/run_store.go: the counts of a run and its steps.
use gigi_dc.Prelude.{
  ℕ, ◌≡◌, refl, String, ◌==◌, eq_iff, Bool, true, false, ◌&&◌, List, [], ◌∷◌, push, keep, any,
  length, All, any-push, length-keep-push, trim, is_empty, arith, inl, inr, Bool-cases,
}
use gigi_dc.Prelude.Unicode.{Unicode}
use gigi_dc.Sql.{Session, tables_after, statement_holds}
use gigi_dc.Agent.{StepRecord}
use gigi_dc.Agent.Store.Steps.{
  RunUsage, StepTables, is_step, is_tool_step, is_llm_step, counted, count_step, insert_step,
  step_row, sql_record_step,
}

abbrev pub steps_of : String → (StepRecord → Bool) → List StepRecord → ℕ
steps_of run_id p steps = length (keep (λ x. x.run_id == run_id && p x) steps)

abbrev pub HasCounts : List StepRecord → RunUsage → Type 0
HasCounts steps r =
    (r.steps_used ≡ steps_of r.run_id (λ x. true) steps)
    × ((r.tool_calls_used ≡ steps_of r.run_id is_tool_step steps)
        × (r.llm_calls_used ≡ steps_of r.run_id is_llm_step steps))

abbrev pub IsDistinct : List StepRecord → Type 0
IsDistinct [] = Unit
IsDistinct (x ∷ steps) = (any (is_step x.run_id x.step_index) steps ≡ false) × IsDistinct steps

-- The counts of each run are those of its steps, and no two steps of a run have one index.
abbrev pub IsCounted : StepTables → Type 0
IsCounted t = All (HasCounts t.steps) t.usage × IsDistinct t.steps

counted-HasCounts :
    (x : StepRecord) (steps : List StepRecord) (r : RunUsage)
    → (r.run_id == x.run_id) ≡ true
    → HasCounts steps r
    → HasCounts (push steps x) (counted x r)
unfolding counted
counted-HasCounts x steps r same h = ground (
  arith,
  h,
  same,
  eq_iff r.run_id x.run_id,
  eq_iff x.run_id r.run_id,
  length-keep-push (λ y. y.run_id == r.run_id && true) steps x,
  length-keep-push (λ y. y.run_id == r.run_id && is_tool_step y) steps x,
  length-keep-push (λ y. y.run_id == r.run_id && is_llm_step y) steps x,
)

others-HasCounts :
    (x : StepRecord) (steps : List StepRecord) (r : RunUsage)
    → (r.run_id == x.run_id) ≡ false
    → HasCounts steps r
    → HasCounts (push steps x) r
others-HasCounts x steps r same h = ground (
  arith,
  h,
  same,
  eq_iff r.run_id x.run_id,
  eq_iff x.run_id r.run_id,
  length-keep-push (λ y. y.run_id == r.run_id && true) steps x,
  length-keep-push (λ y. y.run_id == r.run_id && is_tool_step y) steps x,
  length-keep-push (λ y. y.run_id == r.run_id && is_llm_step y) steps x,
)

count_step-HasCounts :
    (x : StepRecord) (steps : List StepRecord) (rows : List RunUsage)
    → All (HasCounts steps) rows
    → All (HasCounts (push steps x)) (count_step x rows)
unfolding count_step
count_step-HasCounts x steps [] h = tt
count_step-HasCounts x steps (r ∷ rows) h = elim (Bool-cases (r.run_id == x.run_id)) [
  | inl b ↦ rw b (counted-HasCounts x steps r b h.0, count_step-HasCounts x steps rows h.1)
  | inr b ↦ rw b (others-HasCounts x steps r b h.0, count_step-HasCounts x steps rows h.1)
]

push-IsDistinct :
    (x : StepRecord) (steps : List StepRecord)
    → any (is_step x.run_id x.step_index) steps ≡ false
    → IsDistinct steps
    → IsDistinct (push steps x)
push-IsDistinct x [] n d = (refl, tt)
push-IsDistinct x (y ∷ steps) n d = (
  ground (
    arith,
    n,
    d.0,
    any-push (is_step y.run_id y.step_index) steps x,
    eq_iff x.run_id y.run_id,
    eq_iff y.run_id x.run_id,
  ),
  push-IsDistinct x steps (ground (arith, n)) d.1,
)

insert_step-IsCounted :
    (x : StepRecord) (t : StepTables)
    → IsCounted t
    → IsCounted (tables_after IsCounted t (insert_step x t))
unfolding insert_step
insert_step-IsCounted x t c = elim (Bool-cases (any (is_step x.run_id x.step_index) t.steps)) [
  | inl b ↦ rw b c
  | inr b ↦ rw b (count_step-HasCounts x t.steps t.usage c.0, push-IsDistinct x t.steps b c.1)
]

sql_record_step-IsCounted :
    (u : Unicode) (x : StepRecord) (s : Session StepTables)
    → IsCounted s.tables
    → IsCounted (sql_record_step u x s).1.tables
unfolding sql_record_step
sql_record_step-IsCounted u x s c = elim (Bool-cases (is_empty (trim x.run_id))) [
  | inl b ↦ rw b c
  | inr b ↦ rw b (
      statement_holds IsCounted "record agent run step" (insert_step (step_row u x)) s c
        (insert_step-IsCounted (step_row u x) s.tables c))
]

abbrev pub record_steps : Unicode → List StepRecord → Session StepTables → Session StepTables
record_steps u [] s = s
record_steps u (x ∷ xs) s = record_steps u xs (sql_record_step u x s).1

-- Whatever steps are recorded, with any faults of the driver, the counts of a run stay those of its steps and no two steps of a run get one index.
pub record_steps-IsCounted :
    (u : Unicode) (xs : List StepRecord) (s : Session StepTables)
    → IsCounted s.tables
    → IsCounted (record_steps u xs s).tables
record_steps-IsCounted u [] s c = c
record_steps-IsCounted u (x ∷ xs) s c =
    record_steps-IsCounted u xs _ (sql_record_step-IsCounted u x s c)
