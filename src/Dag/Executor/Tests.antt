-- ===== src/Dag/Executor/Tests.antt =====
-- Runs of src/dag/dag_executor.c on a DAG of two steps, listed against their order, and on a step
-- that depends on itself.
use roole.Base.{ℕ, ◌<◌, ◌≤◌, ◌≡◌, ◌↔◌, refl, none, some, List, [], ◌∷◌, arith, length}
use roole.Base.Status.{ResultStatus, ok, err_invalid}
use roole.Dag.{Dag, DagStep, max_dag_steps}
use roole.Dag.Validate.{validate, AllFound, validate_iff}
use roole.Dag.Executor.{Context, pending, completed, failed, index_of, execute}
use roole.Dag.Executor.Passes.{Ordered}
use roole.Dag.Executor.Order.{execute-Ordered}
use roole.Dag.Executor.Acyclic.{IsRanked, execute-ranked}
use roole.Dag.Executor.Cycles.{self_dependency_fails}

abbrev plain_step : ℕ → List ℕ → DagStep
plain_step id dependencies = record {
  step_id = id;
  name = 97 ∷ [];
  function_name = 102 ∷ [];
  config_data = none;
  config_len = 0;
  dependencies = dependencies;
  timeout_ms = 1000;
  max_retries = 3;
}

abbrev dag_of : List DagStep → Dag
dag_of steps = record {
  dag_id = 4;
  name = 100 ∷ [];
  version = 1;
  steps = steps;
  created_at_ms = 10;
  updated_at_ms = 10;
}

abbrev context_of : Dag → Context
context_of dag = record {
  exec_id = 1;
  dag = dag;
  input_data = 1 ∷ 2 ∷ [];
  output_data = some (0 ∷ 0 ∷ 0 ∷ []);
  output_len = 0;
  output_capacity = 3;
  status = pending;
  current_step = 0;
  start_time_ms = 0;
  end_time_ms = 0;
  step_completed = [];
  calls = [];
}

-- Step 2 stands first and waits for step 1.
abbrev backwards : Context
backwards = context_of (dag_of (plain_step 2 (1 ∷ []) ∷ plain_step 1 [] ∷ []))

-- Step 2 waits for itself.
abbrev circular : Context
circular = context_of (dag_of (plain_step 1 [] ∷ plain_step 2 (2 ∷ []) ∷ []))

abbrev rank_of_step : ℕ → ℕ
rank_of_step id = id

execute-Ordered_example :
    (out : ResultStatus × Context) × (execute backwards 100 200 ≡ some out)
    × Ordered backwards.dag.steps out.1.calls
execute-Ordered_example = execute-Ordered backwards 100 200 (omega arith)

backwards-IsRanked : IsRanked rank_of_step backwards.dag.steps
backwards-IsRanked = (((refl, omega arith), tt), (tt, tt))

execute-ranked_example :
    (c : Context) × (execute backwards 100 200 ≡ some (ok, c)) × (c.status ≡ completed)
execute-ranked_example =
    execute-ranked rank_of_step backwards 100 200 (omega arith) backwards-IsRanked

validate_iff_example : (validate backwards.dag ≡ ok) ↔ (
    (0 < length backwards.dag.steps)
    × (length backwards.dag.steps ≤ max_dag_steps)
    × AllFound backwards.dag.steps backwards.dag.steps)
validate_iff_example = validate_iff backwards.dag

circular-validate : validate circular.dag ≡ ok
circular-validate = (validate_iff circular.dag).1 (omega arith, omega arith, (tt, ((refl, tt), tt)))

circular-index_of : index_of 2 circular.dag.steps ≡ some 1
unfolding index_of
circular-index_of = refl

self_dependency_fails_example :
    (c : Context) × (execute circular 100 200 ≡ some (err_invalid, c)) × (c.status ≡ failed)
self_dependency_fails_example =
    self_dependency_fails circular 100 200 1 2 (plain_step 2 (2 ∷ [])) circular-validate refl refl
      circular-index_of
