-- ===== src/Dag/Wire/RoundTrip.antt =====
-- `dag_deserialize` of src/dag/dag_catalog.c on what `dag_serialize` writes.
use roole.Base.{
  ℕ, ◌+◌, ◌^◌, ◌≤◌, ◌<◌, ◌≡◌, ◌∙◌, Bool, true, false, some, List, ◌++◌, append_assoc, arith, length,
  length-append, ltb, All,
}
use roole.Wire.{encode}
use roole.Wire.Laws.{length-encode, IsText}
use roole.Dag.{Dag, max_dag_name, max_dag_steps}
use roole.Dag.Wire.{
  steps_size, required_size, write_text, write_steps, serialize, parsed, ◌>>=◌, read_dag,
  deserialize,
}
use roole.Dag.Wire.Steps.{
  IsWireStep, field-encode, read_text-write, read_steps-write, length-write_steps,
}

-- A DAG whose fields have the ranges of their C types, whose arrays are not overrun, and whose size
-- is a `size_t`.
pub record IsWireDag (dag : Dag) : Type 0 where
  pub id_word : dag.dag_id < 2 ^ 32
  pub version_word : dag.version < 2 ^ 64
  pub name_fits : length dag.name < max_dag_name
  pub name_text : IsText dag.name
  pub few_steps : length dag.steps ≤ max_dag_steps
  pub steps_wire : All IsWireStep dag.steps
  pub addressable : 20 + length dag.name + steps_size dag.steps < 2 ^ 64

abbrev dag_bytes : Dag → List ℕ
dag_bytes dag =
    encode 4 dag.dag_id
    ++ (encode 8 dag.version
        ++ (write_text dag.name ++ (encode 4 (length dag.steps) ++ write_steps dag.steps)))

length-dag_bytes :
    (dag : Dag)
    → IsWireDag dag
    → length (dag_bytes dag) ≡ 20 + length dag.name + steps_size dag.steps
length-dag_bytes dag v =
    omega
      (arith, length-append {0} {A = ℕ}, length-encode, length-write_steps dag.steps v.steps_wire)

read_dag-bytes :
    (alloc : ℕ → Bool) (now : ℕ) (dag : Dag) (rest : List ℕ)
    → IsWireDag dag
    → ((k : ℕ) → alloc k ≡ true)
    → read_dag alloc now (dag_bytes dag ++ rest)
      ≡ parsed (record dag { created_at_ms = now; updated_at_ms = now }) rest
unfolding read_dag
read_dag-bytes alloc now dag rest v a =
    let few : ltb max_dag_steps (length dag.steps) ≡ false = ground (arith, v.few_steps) in
    simp append_assoc (
      rw (
        ◌>>=◌,
        field-encode 4 dag.dag_id _ v.id_word,
        field-encode 8 dag.version _ v.version_word,
        read_text-write max_dag_name dag.name _ v.name_fits (omega arith) v.name_text,
        field-encode 4 (length dag.steps) _ (omega (arith, v.few_steps)),
        few,
        read_steps-write alloc 0 dag.steps rest v.steps_wire a,
      ))

-- A DAG with fields in their ranges, serialized into a buffer with at least the required size, gives
-- that many bytes, and `dag_deserialize` reads from them, whatever follows, the same DAG, with the
-- time of reading as both its times, if its allocations succeed.
pub dag_deserialize-serialize :
    (alloc : ℕ → Bool) (now size : ℕ) (dag : Dag) (rest : List ℕ)
    → IsWireDag dag
    → ((k : ℕ) → alloc k ≡ true)
    → required_size dag ≤ size
    → (buffer : List ℕ) × (serialize dag size ≡ some buffer)
      × (length buffer ≡ required_size dag)
      × (deserialize alloc now (buffer ++ rest)
          ≡ parsed (record dag { created_at_ms = now; updated_at_ms = now }) rest)
unfolding serialize deserialize
dag_deserialize-serialize alloc now size dag rest v a h =
    let long = length-dag_bytes dag v in
    let room : ltb size (required_size dag) ≡ false = ground arith in
    let enough : ltb (length (dag_bytes dag ++ rest)) 16 ≡ false =
      ground (arith, length-append (dag_bytes dag) rest) in
    (
      dag_bytes dag,
      rw room,
      long ∙ omega (arith, v.addressable),
      rw enough (read_dag-bytes alloc now dag rest v a),
    )
