-- ===== src/Dag/Validate.antt =====
-- `dag_validate` of src/dag/dag_catalog.c.
use roole.Base.{
  ℕ, ◌≤◌, ◌<◌, ◌≡◌, ◌↔◌, refl, Bool, true, false, ◌||◌, List, [], ◌∷◌, ◌==◌, ltb, if◌then◌else◌,
  arith, length, contains, map, All,
}
use roole.Base.Status.{ResultStatus, ok, err_invalid}
use roole.Dag.{DagStep, Dag, max_dag_steps}

abbrev pub step_ids : List DagStep → List ℕ
step_ids = map (λ s. s.step_id)

-- The innermost loop: some step has the id.
pub has_step : ℕ → List DagStep → Bool
has_step dep_id [] = false
has_step dep_id (s ∷ ss) = if s.step_id == dep_id then true else has_step dep_id ss

dependencies_found : List DagStep → List ℕ → Bool
dependencies_found steps [] = true
dependencies_found steps (dep_id ∷ deps) =
    if has_step dep_id steps then dependencies_found steps deps else false

all_found : List DagStep → List DagStep → Bool
all_found steps [] = true
all_found steps (s ∷ ss) =
    if dependencies_found steps s.dependencies then all_found steps ss else false

pub validate : Dag → ResultStatus
validate dag =
    if length dag.steps == 0 || ltb max_dag_steps (length dag.steps)
    then err_invalid
    else if all_found dag.steps dag.steps
    then ok
    else err_invalid

-- Every dependency is the id of a step.
abbrev pub AllFound : List DagStep → List DagStep → Type 0
AllFound steps = All (λ s. All (λ d. contains d (step_ids steps) ≡ true) s.dependencies)

has_step-eq-contains :
    (d : ℕ) (steps : List DagStep) → has_step d steps ≡ contains d (step_ids steps)
unfolding has_step
has_step-eq-contains d [] = refl
has_step-eq-contains d (s ∷ ss) = ground (arith, has_step-eq-contains d ss)

dependencies_found_iff :
    (steps : List DagStep) (deps : List ℕ)
    → (dependencies_found steps deps ≡ true) ↔ All (λ d. contains d (step_ids steps) ≡ true) deps
unfolding dependencies_found
dependencies_found_iff steps [] = (λ _. tt, λ _. refl)
dependencies_found_iff steps (d ∷ ds) =
    let rest = dependencies_found_iff steps ds in
    (
      (λ e. (
        ground (arith, has_step-eq-contains d steps),
        rest.0 (ground (arith, has_step-eq-contains d steps)),
      )),
      (λ h. ground (arith, has_step-eq-contains d steps, rest.1 h.1, h.0)),
    )

all_found_iff : (steps ss : List DagStep) → (all_found steps ss ≡ true) ↔ AllFound steps ss
unfolding all_found
all_found_iff steps [] = (λ _. tt, λ _. refl)
all_found_iff steps (s ∷ ss) =
    let here = dependencies_found_iff steps s.dependencies in
    let rest = all_found_iff steps ss in
    (
      (λ e. (here.0 (ground arith), rest.0 (ground arith))),
      (λ h. ground (arith, here.1 h.0, rest.1 h.1)),
    )

-- `dag_validate` accepts exactly the DAGs of 1 to 128 steps whose every dependency is the id of a
-- step.
pub validate_iff :
    (dag : Dag)
    → (validate dag ≡ ok)
      ↔ ((0 < length dag.steps) × (length dag.steps ≤ max_dag_steps) × AllFound dag.steps dag.steps)
unfolding validate
validate_iff dag =
    let found = all_found_iff dag.steps dag.steps in
    (
      (λ e. (ground arith, ground arith, found.0 (ground arith))),
      (λ h. ground (arith, found.1 h.2, h.0, h.1)),
    )
