-- ===== src/Dag.antt =====
-- The workflows of include/roole/dag.h, and what src/dag/ does with them.
pub mod Validate
pub mod Executor
pub mod Wire
use roole.Base.{ℕ, List, Option}

-- `dag_step_t`. Names are the bytes before the end of the C string; `dependencies` is the first
-- `dependency_count` entries of its array; `config_data` is `none` for a null pointer.
pub record DagStep : Type 0 where
  pub step_id : ℕ
  pub name : List ℕ
  pub function_name : List ℕ
  pub config_data : Option (List ℕ)
  pub config_len : ℕ
  pub dependencies : List ℕ
  pub timeout_ms : ℕ
  pub max_retries : ℕ

-- `dag_t`. `steps` is the first `step_count` entries of its array.
pub record Dag : Type 0 where
  pub dag_id : ℕ
  pub name : List ℕ
  pub version : ℕ
  pub steps : List DagStep
  pub created_at_ms : ℕ
  pub updated_at_ms : ℕ

abbrev pub max_dag_name : ℕ
max_dag_name = 64

abbrev pub max_dag_steps : ℕ
max_dag_steps = 128

abbrev pub max_step_name : ℕ
max_step_name = 64

abbrev pub max_step_dependencies : ℕ
max_step_dependencies = 16
