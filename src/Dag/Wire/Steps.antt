-- ===== src/Dag/Wire/Steps.antt =====
-- The steps of a DAG in the wire format of src/dag/dag_catalog.c.
use roole.Base.{
  ℕ, ◌+◌, ◌*◌, ◌^◌, ◌≤◌, ◌<◌, ◌≡◌, refl, Bool, true, false, Option, none, some, List, [], ◌∷◌, ◌++◌,
  append_assoc, arith, length, length-append, take, ltb, leb, All, if◌then◌else◌, take_all,
}
use roole.Wire.{encode}
use roole.Wire.Laws.{length-encode, number-encode, bytes-append, IsText, c_string-text}
use roole.Dag.{DagStep, max_step_name, max_step_dependencies}
use roole.Dag.Wire.{
  step_size, steps_size, write_dependencies, config_bytes, write_step, write_steps, parsed, ◌>>=◌,
  field, chunk, read_text, read_dependencies, read_config, read_step, read_steps,
}

-- A configuration of the length that is stated, or none where that is 0.
abbrev pub HasConfig : ℕ → Option (List ℕ) → Type 0
HasConfig n none = n ≡ 0
HasConfig n (some b) = (0 < n) × (length b ≡ n)

-- A step whose fields have the ranges of their C types and whose arrays are not overrun.
pub record IsWireStep (s : DagStep) : Type 0 where
  pub id_word : s.step_id < 2 ^ 32
  pub name_fits : length s.name < max_step_name
  pub name_text : IsText s.name
  pub function_fits : length s.function_name < max_step_name
  pub function_text : IsText s.function_name
  pub few_dependencies : length s.dependencies ≤ max_step_dependencies
  pub dependency_words : All (λ d. d < 2 ^ 32) s.dependencies
  pub timeout_word : s.timeout_ms < 2 ^ 32
  pub retries_byte : s.max_retries < 2 ^ 8
  pub config_word : s.config_len < 2 ^ 32
  pub configured : HasConfig s.config_len s.config_data

pub field-encode :
    (n v : ℕ) (rest : List ℕ) → v < 256 ^ n → field n (encode n v ++ rest) ≡ parsed v rest
unfolding field
field-encode n v rest h = rw (number-encode n v rest h, field)

chunk-append : (n : ℕ) (xs rest : List ℕ) → length xs ≡ n → chunk n (xs ++ rest) ≡ parsed xs rest
unfolding chunk
chunk-append n xs rest e = rw (bytes-append n xs rest e, chunk)

pub read_text-write :
    (limit : ℕ) (s rest : List ℕ)
    → length s < limit
    → limit ≤ 2 ^ 32
    → IsText s
    → read_text limit (encode 4 (length s) ++ (s ++ rest)) ≡ parsed s rest
unfolding read_text
read_text-write limit s rest h small t =
    let short : leb limit (length s) ≡ false = ground arith in
    rw (
      ◌>>=◌,
      field-encode 4 (length s) (s ++ rest) (omega arith),
      short,
      chunk-append (length s) s rest refl,
      c_string-text s t,
    )

read_dependencies-write :
    (ds rest : List ℕ)
    → All (λ d. d < 2 ^ 32) ds
    → read_dependencies (length ds) (write_dependencies ds ++ rest) ≡ parsed ds rest
unfolding read_dependencies
read_dependencies-write [] rest h = refl
read_dependencies-write (d ∷ ds) rest h = simp append_assoc (
    rw (
      ◌>>=◌,
      field-encode 4 d (write_dependencies ds ++ rest) h.0,
      read_dependencies-write ds rest h.1,
    ))

read_config-write :
    (alloc : ℕ → Bool) (i : ℕ) (s : DagStep) (rest : List ℕ)
    → HasConfig s.config_len s.config_data
    → alloc i ≡ true
    → read_config alloc i s.config_len (config_bytes s ++ rest) ≡ parsed s.config_data rest
unfolding read_config
read_config-write alloc i s rest h a = go s.config_len s.config_data h
  where
    go :
        (n : ℕ) (c : Option (List ℕ))
        → HasConfig n c
        → read_config alloc i n
            ((if ltb 0 n then elim c [ none ↦ [] | some b ↦ take n b ] else []) ++ rest)
          ≡ parsed c rest
    go n none h = rw h
    go n (some b) h =
        let present : ltb 0 n ≡ true = ground (arith, h.0) in
        rw (present, take_all n b (omega (arith, h.1)), ◌>>=◌, chunk-append n b rest h.1, a)

pub read_step-write :
    (alloc : ℕ → Bool) (i : ℕ) (s : DagStep) (rest : List ℕ)
    → IsWireStep s
    → alloc i ≡ true
    → read_step alloc i (write_step s ++ rest) ≡ parsed s rest
unfolding read_step write_step
read_step-write alloc i s rest v a =
    let few : ltb max_step_dependencies (length s.dependencies) ≡ false =
      ground (arith, v.few_dependencies) in
    simp append_assoc (
      rw (
        ◌>>=◌,
        field-encode 4 s.step_id _ v.id_word,
        read_text-write max_step_name s.name _ v.name_fits (omega arith) v.name_text,
        read_text-write max_step_name s.function_name _ v.function_fits (omega arith)
            v.function_text,
        field-encode 4 (length s.dependencies) _ (omega (arith, v.few_dependencies)),
        few,
        read_dependencies-write s.dependencies _ v.dependency_words,
        field-encode 4 s.timeout_ms _ v.timeout_word,
        field-encode 1 s.max_retries _ v.retries_byte,
        field-encode 4 s.config_len _ v.config_word,
        read_config-write alloc i s rest v.configured a,
      ))

pub read_steps-write :
    (alloc : ℕ → Bool) (i : ℕ) (ss : List DagStep) (rest : List ℕ)
    → All IsWireStep ss
    → ((k : ℕ) → alloc k ≡ true)
    → read_steps alloc i (length ss) (write_steps ss ++ rest) ≡ parsed ss rest
unfolding read_steps
read_steps-write alloc i [] rest v a = refl
read_steps-write alloc i (s ∷ ss) rest v a = simp append_assoc (
    rw (
      ◌>>=◌,
      read_step-write alloc i s (write_steps ss ++ rest) v.0 (a i),
      read_steps-write alloc (i + 1) ss rest v.1 a,
    ))

length-dependencies : (ds : List ℕ) → length (write_dependencies ds) ≡ length ds * 4
length-dependencies [] = refl
length-dependencies (d ∷ ds) = omega (
  arith,
  length-append (encode 4 d) (write_dependencies ds),
  length-encode 4 d,
  length-dependencies ds,
)

length-config :
    (s : DagStep) → HasConfig s.config_len s.config_data → length (config_bytes s) ≡ s.config_len
length-config s h = go s.config_len s.config_data h
  where
    go :
        (n : ℕ) (c : Option (List ℕ))
        → HasConfig n c
        → length (if ltb 0 n then elim c [ none ↦ [] | some b ↦ take n b ] else []) ≡ n
    go n none h = rw h
    go n (some b) h =
        let present : ltb 0 n ≡ true = ground (arith, h.0) in
        rw (present, take_all n b (omega (arith, h.1))) h.1

pub length-write_step :
    (s : DagStep) → HasConfig s.config_len s.config_data → length (write_step s) ≡ step_size s
unfolding write_step
length-write_step s h = omega (
  arith,
  length-append {0} {A = ℕ},
  length-encode,
  length-dependencies s.dependencies,
  length-config s h,
)

pub length-write_steps :
    (ss : List DagStep) → All IsWireStep ss → length (write_steps ss) ≡ steps_size ss
length-write_steps [] v = refl
length-write_steps (s ∷ ss) v = omega (
  arith,
  length-append (write_step s) (write_steps ss),
  length-write_step s v.0.configured,
  length-write_steps ss v.1,
)
