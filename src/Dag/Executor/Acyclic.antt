-- ===== src/Dag/Executor/Acyclic.antt =====
-- Which DAGs `dag_execute` of src/dag/dag_executor.c completes.
use roole.Base.{
  ℕ, zero, suc, ◌≤◌, ◌<◌, ◌≡◌, refl, ap, subst, ◌∙◌, ◌⊎◌, inl, inr, Bool, true, false, some, List,
  [], ◌∷◌, ◌==◌, arith, length, get_elem?, contains, All, All-get_elem?, Bool-cases,
  get_elem?_of_lt,
}
use roole.Base.Status.{ResultStatus, ok}
use roole.Dag.{DagStep, max_dag_steps}
use roole.Dag.Validate.{step_ids}
use roole.Dag.Executor.{
  Context, completed, index_of, is_completed, dependencies_met, finish, execute,
}
use roole.Dag.Executor.Passes.{count_below}
use roole.Dag.Executor.Complete.{Ended, finished, stuck, execute-Ended}
use roole.Dag.Executor.Order.{count_of_all}

-- Each dependency is the id of a step, and ranks below the step that has it.
abbrev pub IsRanked : (ℕ → ℕ) → List DagStep → Type 0
IsRanked rank steps =
    All
      (λ s.
        All (λ d. (contains d (step_ids steps) ≡ true) × (rank d < rank s.step_id)) s.dependencies)
      steps

index_of_lem :
    (d : ℕ) (steps : List DagStep)
    → contains d (step_ids steps) ≡ true
    → (j : ℕ) × (t : DagStep) × (index_of d steps ≡ some j)
      × (get_elem? steps j ≡ some t)
      × (t.step_id ≡ d)
unfolding index_of
index_of_lem d [] h = absurd (cc h)
index_of_lem d (s ∷ ss) h = elim (Bool-cases (s.step_id == d)) [
  | inl hit ↦ (0, s, rw hit, refl, ground arith)
  | inr miss ↦
      let (j, t, e, at, id) = index_of_lem d ss (ground arith) in (suc j, t, rw (miss, e), at, id)
]

module _ (rank : ℕ → ℕ) (steps : List DagStep) (done : List Bool)
    (ranked : IsRanked rank steps) where
  -- A step's dependencies are met if every step of lower rank is completed.
  met_of_lower :
      (bound : ℕ) (deps : List ℕ)
      → All (λ d. (contains d (step_ids steps) ≡ true) × (rank d < bound)) deps
      → ((k : ℕ) (s : DagStep)
          → get_elem? steps k ≡ some s
          → rank s.step_id < bound
          → is_completed done k ≡ true)
      → dependencies_met steps done deps ≡ true
  unfolding dependencies_met
  met_of_lower bound [] h lower = refl
  met_of_lower bound (d ∷ ds) h lower =
      let (j, t, e, at, id) = index_of_lem d steps h.0.0 in
      let early : is_completed done j ≡ true = lower j t at (rw id h.0.1) in
      ground (arith, e, early, met_of_lower bound ds h.1 lower)

  module _
      (blocked : (k : ℕ) (s : DagStep)
        → get_elem? steps k ≡ some s
        → (is_completed done k ≡ true) ⊎ (dependencies_met steps done s.dependencies ≡ false)) where
    -- Where every step is completed or waits, every step is completed.
    all_completed :
        (n k : ℕ) (s : DagStep)
        → get_elem? steps k ≡ some s
        → rank s.step_id < n
        → is_completed done k ≡ true
    all_completed zero k s at h = absurd (omega arith)
    all_completed (suc n) k s at h = elim (blocked k s at) [
      | inl here ↦ here
      | inr waits ↦
          let met : dependencies_met steps done s.dependencies ≡ true =
            met_of_lower (rank s.step_id) s.dependencies (All-get_elem? _ steps k ranked at)
              (λ j t at' lower. all_completed n j t at' (omega arith)) in
          cc (met, waits)
    ]

-- `dag_execute` completes every DAG of at most 128 steps whose dependencies are steps and rank below
-- their dependents, that is, which has no cycle.
pub execute-ranked :
    (rank : ℕ → ℕ) (ctx : Context) (begun ended : ℕ)
    → length ctx.dag.steps ≤ max_dag_steps
    → IsRanked rank ctx.dag.steps
    → (c : Context) × (execute ctx begun ended ≡ some (ok, c)) × (c.status ≡ completed)
unfolding finish
execute-ranked rank ctx begun ended small ranked =
    let (out, e, end) = execute-Ended ctx begun ended small in ends end e
  where
    steps : List DagStep
    steps = ctx.dag.steps

    ends :
        {out : ResultStatus × Context}
        → Ended steps ended out
        → execute ctx begun ended ≡ some out
        → (c : Context) × (execute ctx begun ended ≡ some (ok, c)) × (c.status ≡ completed)
    ends (finished st v h o) e = (finish completed ended st.ctx, e ∙ ap some o, refl)
    ends (stuck st v h b o) e =
        absurd (wrong (count_of_all (length steps) st.ctx.step_completed full))
      where
        waits :
            (k : ℕ) (s : DagStep)
            → get_elem? steps k ≡ some s
            → (is_completed st.ctx.step_completed k ≡ true)
              ⊎ (dependencies_met steps st.ctx.step_completed s.dependencies ≡ false)
        waits k s at =
            subst
              (λ l.
                (is_completed st.ctx.step_completed k ≡ true)
                ⊎ (dependencies_met l st.ctx.step_completed s.dependencies ≡ false))
              v.same (b k s at)

        full : (k : ℕ) → k < length steps → is_completed st.ctx.step_completed k ≡ true
        full k lt =
            let (s, at) = get_elem?_of_lt steps k lt in
            all_completed rank steps st.ctx.step_completed ranked waits (suc (rank s.step_id)) k s
              at (omega arith)

        wrong : count_below (length steps) st.ctx.step_completed ≡ length steps → ⊥
        wrong e = omega (arith, v.counted)
