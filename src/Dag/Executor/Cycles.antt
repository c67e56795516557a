-- ===== src/Dag/Executor/Cycles.antt =====
-- DAGs with a cycle: `dag_validate` of src/dag/dag_catalog.c against `dag_execute` of
-- src/dag/dag_executor.c.
use roole.Base.{
  ℕ, ◌≤◌, ◌≡◌, refl, ap, subst, ◌∙◌, inl, inr, true, false, some, List, [], ◌∷◌, ◌==◌, arith,
  length, get_elem?, get_elem?-lt, contains, All, All-contains, Bool-cases,
}
use roole.Base.Status.{ok, err_invalid}
use roole.Dag.{DagStep, max_dag_steps}
use roole.Dag.Validate.{validate, validate_iff}
use roole.Dag.Executor.{Context, failed, index_of, execute}
use roole.Dag.Executor.Passes.{Called, Ordered}
use roole.Dag.Executor.Order.{execute-Reported, execute-Ordered, AllCalled-contains}

-- A step that depends on itself is never called.
self_not_called :
    (steps : List DagStep) (calls : List ℕ) (k d : ℕ) (s : DagStep)
    → get_elem? steps k ≡ some s
    → contains d s.dependencies ≡ true
    → index_of d steps ≡ some k
    → Ordered steps calls
    → contains k calls ≡ false
self_not_called steps [] k d s at dep own o = refl
self_not_called steps (i ∷ older) k d s at dep own o = elim (Bool-cases (i == k)) [
  | inr other ↦ ground (arith, self_not_called steps older k d s at dep own o.2)
  | inl same ↦
      let (t, here, called) = o.1 in
      let step : t ≡ s = ground arith in
      let deps : All (Called steps older) s.dependencies =
        subst (λ u. All (Called steps older) u.dependencies) step called in
      let (j, found, earlier) = All-contains (Called steps older) s.dependencies d deps dep in
      absurd (ground (arith, self_not_called steps older k d s at dep own o.2))
]

-- On a DAG that `dag_validate` accepts and in which a step has a dependency whose first step is
-- that step itself, `dag_execute` returns INVALID with the status FAILED.
pub self_dependency_fails :
    (ctx : Context) (begun ended k d : ℕ) (s : DagStep)
    → validate ctx.dag ≡ ok
    → get_elem? ctx.dag.steps k ≡ some s
    → contains d s.dependencies ≡ true
    → index_of d ctx.dag.steps ≡ some k
    → (c : Context) × (execute ctx begun ended ≡ some (err_invalid, c)) × (c.status ≡ failed)
self_dependency_fails ctx begun ended k d s valid at dep own =
    let small : length ctx.dag.steps ≤ max_dag_steps = ((validate_iff ctx.dag).0 valid).1 in
    let (out, e, reported) = execute-Reported ctx begun ended small in
    let (out', e', ordered) = execute-Ordered ctx begun ended small in
    let same : out' ≡ out = cc (e, e') in
    let never : contains k out.1.calls ≡ false =
      subst (λ o. contains k o.1.calls ≡ false) same
        (self_not_called ctx.dag.steps out'.1.calls k d s at dep own ordered) in
    elim reported [
      | inl (_, _, all) ↦
          absurd
            (cc (AllCalled-contains _ k out.1.calls all (get_elem?-lt ctx.dag.steps k at), never))
      | inr (failure, status) ↦ (out.1, e ∙ ap (λ r. some (r, out.1)) failure, status)
    ]
