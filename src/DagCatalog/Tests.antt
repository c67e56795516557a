-- ===== src/DagCatalog/Tests.antt =====
-- Runs of src/dag/dag_catalog.c on a catalog of two slots.
use roole.Base.{ℕ, refl, true, Bool, some, [], ◌∷◌, arith}
use roole.Table.{find}
use roole.Dag.{Dag, DagStep}
use roole.DagCatalog.{DagCatalog}
use roole.DagCatalog.Invariant.{IsValid, run, adds, updates, deletes, catalog_run-IsValid}

abbrev configured : DagStep
configured = record {
  step_id = 1;
  name = 97 ∷ [];
  function_name = 102 ∷ [];
  config_data = some (1 ∷ 2 ∷ []);
  config_len = 2;
  dependencies = [];
  timeout_ms = 1000;
  max_retries = 3;
}

abbrev dag_4 : Dag
dag_4 = record {
  dag_id = 4;
  name = 100 ∷ [];
  version = 1;
  steps = configured ∷ [];
  created_at_ms = 10;
  updated_at_ms = 10;
}

abbrev dag_5 : Dag
dag_5 = record dag_4 { dag_id = 5 }

abbrev one_dag : DagCatalog
one_dag = record { dags = dag_4 ∷ []; capacity = 2; watched = true }

one_dag-IsValid : IsValid one_dag
unfolding find
one_dag-IsValid = record { distinct = (refl, tt); bounded = omega arith }

abbrev always : ℕ → Bool
always i = true

catalog_run-IsValid_example :
    IsValid (run one_dag (adds always dag_5 ∷ updates always dag_4 20 ∷ deletes 4 ∷ []))
catalog_run-IsValid_example =
    catalog_run-IsValid one_dag (adds always dag_5 ∷ updates always dag_4 20 ∷ deletes 4 ∷ [])
      one_dag-IsValid
