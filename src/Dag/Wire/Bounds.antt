-- ===== src/Dag/Wire/Bounds.antt =====
-- `dag_deserialize` of src/dag/dag_catalog.c on arbitrary bytes, against the sizes of the arrays of
-- include/roole/dag.h.
use roole.Base.{
  ℕ, zero, suc, ◌+◌, ◌≤◌, ◌<◌, ◌≡◌, refl, ap, inl, inr, Bool, List, [], ◌∷◌, arith, length,
  length-take, ltb, leb, All, Bool-cases, Option-cases,
}
use roole.Base.Status.{err_invalid, err_nomem}
use roole.Wire.{number, bytes, c_string}
use roole.Dag.{DagStep, Dag, max_dag_name, max_dag_steps, max_step_name, max_step_dependencies}
use roole.Dag.Wire.{
  Parsed, Parse, fails, parsed, field, chunk, read_text, read_dependencies, read_config, read_step,
  read_steps, read_dag, deserialize,
}
use roole.Dag.Wire.Steps.{HasConfig}

-- An error of the two kinds, or a value with a property.
pub data Ensures {A : Type 0} (P : A → Type 0) : Parsed A → Type 0 where
  invalid : Ensures P (fails err_invalid)
  nomem : Ensures P (fails err_nomem)
  holds : {a : A} {rest : List ℕ} → P a → Ensures P (parsed a rest)

then-Ensures :
    {A B : Type 0} {P : A → Type 0} (Q : B → Type 0) (p : Parsed B) (f : B → Parse A)
    → Ensures Q p
    → ((b : B) (rest : List ℕ) → Q b → Ensures P (f b rest))
    → Ensures P (elim p [ fails e ↦ fails e | parsed b rest ↦ f b rest ])
then-Ensures Q _ f invalid next = invalid
then-Ensures Q _ f nomem next = nomem
then-Ensures Q _ f (holds {a = b} {rest = rest} q) next = next b rest q

abbrev Any : {A : Type 0} → A → Type 0
Any a = Unit

field-Ensures : (n : ℕ) (bs : List ℕ) → Ensures Any (field n bs)
unfolding field
field-Ensures n bs = elim (Option-cases (number n bs)) [
  | inl e ↦ rw (e, field) invalid
  | inr (r, e) ↦ rw (e, field) (holds tt)
]

chunk-Ensures : (n : ℕ) (bs : List ℕ) → Ensures (λ b. length b ≡ n) (chunk n bs)
unfolding chunk bytes
chunk-Ensures n bs = elim (Bool-cases (leb n (length bs))) [
  | inl fits ↦ rw (fits, bytes, chunk) (holds (ground (arith, length-take n bs)))
  | inr short ↦ rw (short, bytes, chunk) invalid
]

length-c_string : (s : List ℕ) → length (c_string s) ≤ length s
unfolding c_string
length-c_string [] = omega arith
length-c_string (b ∷ bs) = ground (arith, length-c_string bs)

read_text-Ensures : (limit : ℕ) (bs : List ℕ) → Ensures (λ s. length s < limit) (read_text limit bs)
unfolding read_text
read_text-Ensures limit bs = then-Ensures Any _ _ (field-Ensures 4 bs) λ len rest any.
    elim (Bool-cases (leb limit len)) [
      | inl long ↦ rw long invalid
      | inr short ↦ rw short (
          then-Ensures (λ b. length b ≡ len) _ _ (chunk-Ensures len rest)
            λ b r e. holds (ground (arith, length-c_string b)))
    ]

read_dependencies-Ensures :
    (n : ℕ) (bs : List ℕ) → Ensures (λ ds. length ds ≡ n) (read_dependencies n bs)
unfolding read_dependencies
read_dependencies-Ensures zero bs = holds refl
read_dependencies-Ensures (suc n) bs = then-Ensures Any _ _ (field-Ensures 4 bs) λ d rest any.
    then-Ensures (λ ds. length ds ≡ n) _ _ (read_dependencies-Ensures n rest)
      λ ds r e. holds (ap suc e)

read_config-Ensures :
    (alloc : ℕ → Bool) (i n : ℕ) (bs : List ℕ) → Ensures (HasConfig n) (read_config alloc i n bs)
unfolding read_config
read_config-Ensures alloc i n bs = elim (Bool-cases (ltb 0 n)) [
  | inr absent ↦ rw absent (holds (ground arith))
  | inl present ↦ rw present (
      then-Ensures (λ b. length b ≡ n) _ _ (chunk-Ensures n bs)
        λ b rest e. elim (Bool-cases (alloc i)) [
          | inl got ↦ rw got (holds (ground arith, e))
          | inr gone ↦ rw gone nomem
        ])
]

-- What fits the arrays of a step.
pub record IsBoundedStep (s : DagStep) : Type 0 where
  pub name_fits : length s.name < max_step_name
  pub function_fits : length s.function_name < max_step_name
  pub few_dependencies : length s.dependencies ≤ max_step_dependencies
  pub configured : HasConfig s.config_len s.config_data

pub record IsBounded (now : ℕ) (dag : Dag) : Type 0 where
  pub name_fits : length dag.name < max_dag_name
  pub few_steps : length dag.steps ≤ max_dag_steps
  pub bounded_steps : All IsBoundedStep dag.steps
  pub created_now : dag.created_at_ms ≡ now
  pub updated_now : dag.updated_at_ms ≡ now

read_step-Ensures :
    (alloc : ℕ → Bool) (i : ℕ) (bs : List ℕ) → Ensures IsBoundedStep (read_step alloc i bs)
unfolding read_step
read_step-Ensures alloc i bs =
    let T : (List ℕ → Type 0) = λ s. length s < max_step_name in
    then-Ensures Any _ _ (field-Ensures 4 bs) λ step_id r1 a1.
      then-Ensures T _ _ (read_text-Ensures max_step_name r1) λ name r2 name_fits.
        then-Ensures T _ _ (read_text-Ensures max_step_name r2) λ function_name r3 function_fits.
          then-Ensures Any _ _ (field-Ensures 4 r3) λ count r4 a4.
            elim (Bool-cases (ltb max_step_dependencies count)) [
              | inl many ↦ rw many invalid
              | inr few ↦ rw few (
                  then-Ensures (λ ds. length ds ≡ count) _ _ (read_dependencies-Ensures count r4)
                    λ ds r5 l. then-Ensures Any _ _ (field-Ensures 4 r5) λ timeout_ms r6 a6.
                      then-Ensures Any _ _ (field-Ensures 1 r6) λ max_retries r7 a7.
                        then-Ensures Any _ _ (field-Ensures 4 r7) λ config_len r8 a8.
                          then-Ensures (HasConfig config_len) _ _
                            (read_config-Ensures alloc i config_len r8)
                            λ config r9 c. holds (record {
                              name_fits = name_fits;
                              function_fits = function_fits;
                              few_dependencies = ground (arith, l);
                              configured = c;
                            }))
            ]

read_steps-Ensures :
    (alloc : ℕ → Bool) (i n : ℕ) (bs : List ℕ)
    → Ensures (λ ss. (length ss ≡ n) × All IsBoundedStep ss) (read_steps alloc i n bs)
unfolding read_steps
read_steps-Ensures alloc i zero bs = holds (refl, tt)
read_steps-Ensures alloc i (suc n) bs =
    then-Ensures IsBoundedStep _ _ (read_step-Ensures alloc i bs) λ s rest b.
      then-Ensures (λ ss. (length ss ≡ n) × All IsBoundedStep ss) _ _
        (read_steps-Ensures alloc (i + 1) n rest) λ ss r q. holds (ap suc q.0, (b, q.1))

read_dag-Ensures :
    (alloc : ℕ → Bool) (now : ℕ) (bs : List ℕ) → Ensures (IsBounded now) (read_dag alloc now bs)
unfolding read_dag
read_dag-Ensures alloc now bs = then-Ensures Any _ _ (field-Ensures 4 bs) λ dag_id r1 a1.
    then-Ensures Any _ _ (field-Ensures 8 r1) λ version r2 a2.
      then-Ensures (λ s. length s < max_dag_name) _ _ (read_text-Ensures max_dag_name r2)
        λ name r3 name_fits. then-Ensures Any _ _ (field-Ensures 4 r3) λ count r4 a4.
          elim (Bool-cases (ltb max_dag_steps count)) [
            | inl many ↦ rw many invalid
            | inr few ↦ rw few (
                then-Ensures (λ ss. (length ss ≡ count) × All IsBoundedStep ss) _ _
                  (read_steps-Ensures alloc 0 count r4)
                  λ steps r5 q. holds (record {
                    name_fits = name_fits;
                    few_steps = ground (arith, q.0);
                    bounded_steps = q.1;
                    created_now = refl;
                    updated_now = refl;
                  }))
          ]

-- On any bytes `dag_deserialize` fails with INVALID or NOMEM, or gives a DAG that fits the arrays:
-- names of fewer than 64 bytes, at most 128 steps, at most 16 dependencies of each, a configuration
-- of the stated length where that is not 0, and both times the time of reading.
pub dag_deserialize-IsBounded :
    (alloc : ℕ → Bool) (now : ℕ) (buffer : List ℕ)
    → Ensures (IsBounded now) (deserialize alloc now buffer)
unfolding deserialize
dag_deserialize-IsBounded alloc now buffer = elim (Bool-cases (ltb (length buffer) 16)) [
  | inl short ↦ rw short invalid
  | inr long ↦ rw long (read_dag-Ensures alloc now buffer)
]
