-- ===== src/Dag/Wire.antt =====
-- `dag_serialize` and `dag_deserialize` of src/dag/dag_catalog.c: DAGs on the network.
pub mod Steps
pub mod RoundTrip
pub mod Bounds
mod Tests
use roole.Base.{
  ℕ, zero, suc, ◌+◌, ◌*◌, ◌%◌, ◌^◌, Bool, Option, none, some, List, [], ◌∷◌, ◌++◌, ◌==◌, ltb, leb,
  if◌then◌else◌, length, take,
}
use roole.Base.Status.{ResultStatus, err_invalid, err_nomem}
use roole.Wire.{encode, number, bytes, c_string}
use roole.Dag.{DagStep, Dag, max_dag_name, max_dag_steps, max_step_name, max_step_dependencies}

-- What `dag_serialize` counts for a step.
abbrev pub step_size : DagStep → ℕ
step_size s =
    4
    + (4 + length s.name)
    + (4 + length s.function_name)
    + 4
    + length s.dependencies * 4
    + 4
    + 1
    + 4
    + s.config_len

abbrev pub steps_size : List DagStep → ℕ
steps_size [] = 0
steps_size (s ∷ ss) = step_size s + steps_size ss

-- `required_size`, which is a `size_t`.
abbrev pub required_size : Dag → ℕ
required_size dag = (4 + 8 + 4 + length dag.name + 4 + steps_size dag.steps) % 2 ^ 64

-- A text after its length.
abbrev pub write_text : List ℕ → List ℕ
write_text s = encode 4 (length s) ++ s

abbrev pub write_dependencies : List ℕ → List ℕ
write_dependencies [] = []
write_dependencies (d ∷ ds) = encode 4 d ++ write_dependencies ds

-- A configuration is written if there is one, and its length in any case.
abbrev pub config_bytes : DagStep → List ℕ
config_bytes s =
    if ltb 0 s.config_len
    then elim s.config_data [ none ↦ [] | some b ↦ take s.config_len b ]
    else []

-- The body of the loop over the steps.
pub write_step : DagStep → List ℕ
write_step s =
    encode 4 s.step_id
    ++ (write_text s.name
        ++ (write_text s.function_name
            ++ (encode 4 (length s.dependencies)
                ++ (write_dependencies s.dependencies
                    ++ (encode 4 s.timeout_ms
                        ++ (encode 1 s.max_retries
                            ++ (encode 4 s.config_len ++ config_bytes s)))))))

abbrev pub write_steps : List DagStep → List ℕ
write_steps [] = []
write_steps (s ∷ ss) = write_step s ++ write_steps ss

-- `dag_serialize` into a buffer of a size: the bytes written, `none` for 0.
pub serialize : Dag → ℕ → Option (List ℕ)
serialize dag size =
    if ltb size (required_size dag)
    then none
    else some (
        encode 4 dag.dag_id
        ++ (encode 8 dag.version
            ++ (write_text dag.name ++ (encode 4 (length dag.steps) ++ write_steps dag.steps))))

-- The result of a part of `dag_deserialize`: an early return, or a value and what is left between
-- `ptr` and `end`.
pub data Parsed (A : Type 0) : Type 0 where
  fails : ResultStatus → Parsed A
  parsed : A → List ℕ → Parsed A

abbrev pub Parse : Type 0 → Type 0
Parse A = List ℕ → Parsed A

infixl 5 ◌>>=◌
abbrev pub ◌>>=◌ : {A B : Type 0} → Parse A → (A → Parse B) → Parse B
◌>>=◌ m f bs = elim (m bs) [ fails e ↦ fails e | parsed a rest ↦ f a rest ]

abbrev pub pure : {A : Type 0} → A → Parse A
pure a bs = parsed a bs

abbrev pub refuse : {A : Type 0} → ResultStatus → Parse A
refuse e bs = fails e

-- `if (ptr + n > end) return RESULT_ERR_INVALID;`, then a number of `n` bytes.
pub field : ℕ → Parse ℕ
field n bs = elim (number n bs) [ none ↦ fails err_invalid | some (v, rest) ↦ parsed v rest ]

-- The same for `n` bytes that are copied.
pub chunk : ℕ → Parse (List ℕ)
chunk n bs = elim (bytes n bs) [ none ↦ fails err_invalid | some (b, rest) ↦ parsed b rest ]

-- A text of fewer than `limit` bytes after its length, as the C string that it then is.
pub read_text : ℕ → Parse (List ℕ)
unfolding field chunk
read_text limit = do
  len ← field 4
  let rest = do text ← chunk len; pure (c_string text)
  if leb limit len then refuse err_invalid else rest

pub read_dependencies : ℕ → Parse (List ℕ)
unfolding field
read_dependencies zero = pure []
read_dependencies (suc n) = do d ← field 4; ds ← read_dependencies n; pure (d ∷ ds)

-- The configuration of step `i`; `alloc` tells whether `safe_malloc` succeeds.
pub read_config : (ℕ → Bool) → ℕ → ℕ → Parse (Option (List ℕ))
unfolding chunk
read_config alloc i config_len = do
  let present = do b ← chunk config_len; if alloc i then pure (some b) else refuse err_nomem
  if ltb 0 config_len then present else pure none

-- The body of the loop over the steps.
pub read_step : (ℕ → Bool) → ℕ → Parse DagStep
unfolding field read_text read_dependencies read_config
read_step alloc i = do
  step_id ← field 4
  name ← read_text max_step_name
  function_name ← read_text max_step_name
  dependency_count ← field 4
  let rest = do
    dependencies ← read_dependencies dependency_count
    timeout_ms ← field 4
    max_retries ← field 1
    config_len ← field 4
    config_data ← read_config alloc i config_len
    pure (record {
      step_id = step_id;
      name = name;
      function_name = function_name;
      config_data = config_data;
      config_len = config_len;
      dependencies = dependencies;
      timeout_ms = timeout_ms;
      max_retries = max_retries;
    })
  if ltb max_step_dependencies dependency_count then refuse err_invalid else rest

-- The loop from step `i` on, with `n` steps to go.
pub read_steps : (ℕ → Bool) → ℕ → ℕ → Parse (List DagStep)
unfolding read_step
read_steps alloc i zero = pure []
read_steps alloc i (suc n) = do
  s ← read_step alloc i
  ss ← read_steps alloc (i + 1) n
  pure (s ∷ ss)

pub read_dag : (ℕ → Bool) → ℕ → Parse Dag
unfolding field read_text read_steps
read_dag alloc now = do
  dag_id ← field 4
  version ← field 8
  name ← read_text max_dag_name
  step_count ← field 4
  let rest = do
    steps ← read_steps alloc 0 step_count
    pure (record {
      dag_id = dag_id;
      name = name;
      version = version;
      steps = steps;
      created_at_ms = now;
      updated_at_ms = now;
    })
  if ltb max_dag_steps step_count then refuse err_invalid else rest

-- `dag_deserialize`.
pub deserialize : (ℕ → Bool) → ℕ → Parse Dag
unfolding read_dag
deserialize alloc now buffer =
    if ltb (length buffer) 16 then fails err_invalid else read_dag alloc now buffer
