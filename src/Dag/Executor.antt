-- ===== src/Dag/Executor.antt =====
-- `dag_execute` of src/dag/dag_executor.c: it runs the steps of a DAG in passes over the array, each
-- step once its dependencies are completed.
pub mod Passes
pub mod Order
pub mod Progress
pub mod Complete
pub mod Acyclic
pub mod Cycles
mod Tests
use roole.Base.{
  ℕ, zero, suc, ◌+◌, ◌≤◌, ◌<◌, ◌≡◌, Bool, true, false, not, Option, none, some, List, [], ◌∷◌, ◌==◌,
  ltb, leb, if◌then◌else◌, length, get_or, set, drop, ◌++◌, replicate,
}
use mathlib.Core.Option
use roole.Base.Status.{ResultStatus, ok, err_invalid}
use roole.Dag.{DagStep, Dag, max_dag_steps}

-- `dag_exec_status_t`.
pub data ExecStatus : Type 0 where
  pending running completed failed : ExecStatus

-- `dag_execution_context_t`. `output_data` is `none` for a null pointer; `calls` holds the
-- positions of the steps passed to `dag_execute_step`, the latest first, which the code logs.
pub record Context : Type 0 where
  pub exec_id : ℕ
  pub dag : Dag
  pub input_data : List ℕ
  pub output_data : Option (List ℕ)
  pub output_len : ℕ
  pub output_capacity : ℕ
  pub status : ExecStatus
  pub current_step : ℕ
  pub start_time_ms : ℕ
  pub end_time_ms : ℕ
  pub step_completed : List Bool
  pub calls : List ℕ

-- The position of the first step with an id.
pub index_of : ℕ → List DagStep → Option ℕ
index_of dep_id [] = none
index_of dep_id (s ∷ ss) =
    if s.step_id == dep_id then some 0 else Option.map (λ i. suc i) (index_of dep_id ss)

abbrev pub is_completed : List Bool → ℕ → Bool
is_completed done i = get_or done i false

pub dependency_met : List DagStep → List Bool → ℕ → Bool
dependency_met steps done dep_id = elim (index_of dep_id steps) [
  | some j ↦ is_completed done j
  | none ↦ false
]

-- `step_dependencies_met`, with the array of dependencies as the list.
pub dependencies_met : List DagStep → List Bool → List ℕ → Bool
unfolding dependency_met
dependencies_met steps done [] = true
dependencies_met steps done (d ∷ ds) =
    if dependency_met steps done d then dependencies_met steps done ds else false

-- `dag_execute_step`, which copies the input to the output buffer if it fits.
pub execute_step : Context → DagStep → ResultStatus × Context
execute_step ctx step = elim ctx.output_data [
  | none ↦ (ok, ctx)
  | some buffer ↦
      if leb (length ctx.input_data) ctx.output_capacity
      then (
        ok,
        record ctx {
          output_data = some (ctx.input_data ++ drop (length ctx.input_data) buffer);
          output_len = length ctx.input_data;
        },
      )
      else (ok, ctx)
]

-- The variables of `dag_execute`'s loops.
pub record Loop : Type 0 where
  pub ctx : Context
  pub completed_steps : ℕ
  pub progress_made : Bool

pub data Visited : Type 0 where
  going : Loop → Visited
  aborted : Context → Visited

abbrev pub is_ok : ResultStatus → Bool
is_ok ok = true
is_ok _ = false

pub mark : ℕ → Loop → Context → Loop
mark i st ctx = record {
  ctx = record ctx { step_completed = set ctx.step_completed i true };
  completed_steps = st.completed_steps + 1;
  progress_made = true;
}

pub run_one : ℕ → DagStep → Loop → Visited
run_one i step st =
    let (result, ctx) = execute_step (record (st.ctx) { calls = i ∷ st.ctx.calls }) step in
    if is_ok result then going (mark i st ctx) else aborted ctx

-- The body of the `for` loop.
pub visit : ℕ → DagStep → Loop → Visited
unfolding run_one mark
visit i step st =
    if is_completed st.ctx.step_completed i
    then going st
    else if dependencies_met st.ctx.dag.steps st.ctx.step_completed step.dependencies
    then run_one i step st
    else going st

-- The `for` loop from position `i` on.
pub pass : ℕ → List DagStep → Loop → Visited
pass i [] st = going st
pass i (s ∷ ss) st = elim (visit i s st) [
  | going st' ↦ pass (i + 1) ss st'
  | aborted ctx ↦ aborted ctx
]

pub finish : ExecStatus → ℕ → Context → Context
finish status now ctx = record ctx { status = status; end_time_ms = now }

-- The `while` loop, with fuel.
pub rounds : ℕ → ℕ → Loop → Option (ResultStatus × Context)
unfolding finish
rounds zero now st = none
rounds (suc fuel) now st =
    let steps = st.ctx.dag.steps in
    let round : Option (ResultStatus × Context) =
      elim (pass 0 steps (record st { progress_made = false })) [
        | aborted ctx ↦ some (err_invalid, finish failed now ctx)
        | going st' ↦
            let later = rounds fuel now st' in
            if st'.progress_made then later else some (err_invalid, finish failed now st'.ctx)
      ] in
    if ltb st.completed_steps (length steps) then round else some (ok, finish completed now st.ctx)

pub start : Context → ℕ → Loop
start ctx now = record {
  ctx = record ctx {
    status = running;
    start_time_ms = now;
    step_completed = replicate max_dag_steps false;
    calls = [];
  };
  completed_steps = 0;
  progress_made = false;
}

-- `dag_execute`, begun at the first time and ended at the second. Each round but the last completes
-- a step, so one round more than there are steps is fuel enough.
pub execute : Context → ℕ → ℕ → Option (ResultStatus × Context)
unfolding start rounds
execute ctx begun ended = rounds (suc (length ctx.dag.steps)) ended (start ctx begun)
