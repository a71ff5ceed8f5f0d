-- ===== src/Flows/Recovery/Resumed.antt =====
-- An execution that threw goes on where it stood.
use nodestack.Prelude.{
  ℕ, zero, suc, ◌<◌, String, true, false, List, Option, some, ◌≡◌, refl, arith, ◌=ₜ◌, is_some,
}
use nodestack.Prelude.Int.{ℤ}
use nodestack.Json.{Json}
use nodestack.Flows.Types.{FlowDefinition}
use nodestack.Flows.Runs.{Run, Resume, StepLog, is_lost, checkpoint, resume_run}
use nodestack.Flows.Engine.{find_state}
use nodestack.Flows.Recovery.{resumes, resume_at, stored_run, count_or_logs, resolve_resume_state}

abbrev saved_resume : String → Run → Resume
saved_resume name r = record {
  state_name = name;
  resumed_payload = r.snapshot;
  resumed_count = some (count_or_logs r.step_count r.logs);
  resumed_counters = r.counters;
  resumed_logs = r.logs;
}

checkpoint-named :
    (r : Run) (name : String)
    → r.current ≡ some name
    → (name =ₜ "") ≡ false
    → is_lost r.error ≡ false
    → checkpoint r ≡ some (name, r.snapshot, r.step_count, r.counters)
unfolding checkpoint
checkpoint-named r name h given kept = rw h (rw (given, kept) refl)

count_kept : (n : ℕ) (logs : List StepLog) → 0 < n → count_or_logs n logs ≡ n
count_kept zero logs h = absurd (omega arith)
count_kept (suc n) logs h = refl

-- The counts that a resumed execution begins with.
resumed_step_count :
    (name : String) (r : Run) (input : Option Json)
    → 0 < r.step_count
    → (resume_run (saved_resume name r) input).step_count ≡ r.step_count
resumed_step_count name r input h = rw (count_kept r.step_count r.logs h) (ground arith)

module _ (parse_number : Json → Option ℤ) (definition : FlowDefinition) where
  resolved :
      (r : Run) (name : String) (v : Json) (input : Option Json)
      → r.snapshot ≡ some v
      → (name =ₜ "") ≡ false
      → is_some (find_state name definition.all_states) ≡ true
      → checkpoint r ≡ some (name, r.snapshot, r.step_count, r.counters)
      → resolve_resume_state parse_number (stored_run input r) definition
        ≡ resumes (saved_resume name r)
  unfolding resolve_resume_state resume_at
  resolved r name v input snap given there e = rw e (rw given (rw there (rw snap refl)))

  -- An execution that threw at a step, and is stored with its checkpoint, goes on at the same state
  -- with the payload before that step, its count of steps, its loop counters and its logs; if the state
  -- is in the flow, the payload is not undefined, and the checkpoint was not lost.
  pub resume-checkpoint :
      (r : Run) (name : String) (v : Json) (input : Option Json)
      → r.current ≡ some name
      → (name =ₜ "") ≡ false
      → is_some (find_state name definition.all_states) ≡ true
      → r.snapshot ≡ some v
      → is_lost r.error ≡ false
      → 0 < r.step_count
      → (resume : Resume) × (resolve_resume_state parse_number (stored_run input r) definition
          ≡ resumes resume)
        × ((resume_run resume input).current ≡ some name)
        × ((resume_run resume input).payload ≡ some v)
        × ((resume_run resume input).step_count ≡ r.step_count)
        × ((resume_run resume input).counters ≡ r.counters)
        × ((resume_run resume input).logs ≡ r.logs)
  resume-checkpoint r name v input at given there snap kept begun = (
    saved_resume name r,
    resolved r name v input snap given there (checkpoint-named r name at given kept),
    refl,
    rw snap refl,
    resumed_step_count name r input begun,
    refl,
    refl,
  )
