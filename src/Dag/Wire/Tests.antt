-- ===== src/Dag/Wire/Tests.antt =====
-- Runs of the wire format of src/dag/dag_catalog.c on a DAG of one configured step.
use roole.Base.{ℕ, ◌≡◌, refl, true, Bool, some, List, [], ◌∷◌, ◌++◌, arith, length}
use roole.Dag.{Dag, DagStep}
use roole.Dag.Wire.{required_size, serialize, parsed, deserialize}
use roole.Dag.Wire.Steps.{IsWireStep}
use roole.Dag.Wire.RoundTrip.{IsWireDag, dag_deserialize-serialize}
use roole.Dag.Wire.Bounds.{Ensures, IsBounded, dag_deserialize-IsBounded}

abbrev resize_step : DagStep
resize_step = record {
  step_id = 1;
  name = 97 ∷ [];
  function_name = 102 ∷ 103 ∷ [];
  config_data = some (0 ∷ 255 ∷ []);
  config_len = 2;
  dependencies = 2 ∷ [];
  timeout_ms = 1000;
  max_retries = 3;
}

abbrev resize : Dag
resize = record {
  dag_id = 4;
  name = 100 ∷ [];
  version = 1;
  steps = resize_step ∷ [];
  created_at_ms = 10;
  updated_at_ms = 10;
}

resize_step-IsWireStep : IsWireStep resize_step
resize_step-IsWireStep = record {
  id_word = omega arith;
  name_fits = omega arith;
  name_text = ((omega arith, omega arith), tt);
  function_fits = omega arith;
  function_text = ((omega arith, omega arith), ((omega arith, omega arith), tt));
  few_dependencies = omega arith;
  dependency_words = (omega arith, tt);
  timeout_word = omega arith;
  retries_byte = omega arith;
  config_word = omega arith;
  configured = (omega arith, refl);
}

resize-IsWireDag : IsWireDag resize
resize-IsWireDag = record {
  id_word = omega arith;
  version_word = omega arith;
  name_fits = omega arith;
  name_text = ((omega arith, omega arith), tt);
  few_steps = omega arith;
  steps_wire = (resize_step-IsWireStep, tt);
  addressable = omega arith;
}

abbrev always_allocates : ℕ → Bool
always_allocates i = true

always_allocates_lem : (k : ℕ) → always_allocates k ≡ true
always_allocates_lem k = refl

dag_deserialize-serialize_example :
    (buffer : List ℕ) × (serialize resize 100 ≡ some buffer)
    × (length buffer ≡ required_size resize)
    × (deserialize always_allocates 50 (buffer ++ 9 ∷ [])
        ≡ parsed (record resize { created_at_ms = 50; updated_at_ms = 50 }) (9 ∷ []))
dag_deserialize-serialize_example =
    dag_deserialize-serialize always_allocates 50 100 resize (9 ∷ []) resize-IsWireDag
      always_allocates_lem (omega arith)

dag_deserialize-IsBounded_example :
    Ensures (IsBounded 50) (deserialize always_allocates 50 (0 ∷ 1 ∷ 2 ∷ []))
dag_deserialize-IsBounded_example = dag_deserialize-IsBounded always_allocates 50 (0 ∷ 1 ∷ 2 ∷ [])
