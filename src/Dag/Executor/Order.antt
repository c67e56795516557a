-- ===== src/Dag/Executor/Order.antt =====
-- The calls that `dag_execute` of src/dag/dag_executor.c makes, their order, and what it reports.
use roole.Base.{
  ℕ, zero, suc, ◌≤◌, ◌<◌, ◌≡◌, refl, sym, subst, ◌∙◌, ◌⊎◌, inl, inr, Bool, true, some, List, ◌==◌,
  arith, length, contains, Bool-cases,
}
use roole.Base.Status.{ResultStatus, ok, err_invalid}
use roole.Dag.{max_dag_steps}
use roole.Dag.Executor.{Context, completed, failed, is_completed, finish, execute}
use roole.Dag.Executor.Passes.{Ordered, count_below}
use roole.Dag.Executor.Complete.{Ended, finished, stuck, execute-Ended}

count_below-le : (n : ℕ) (done : List Bool) → count_below n done ≤ n
count_below-le zero done = omega arith
count_below-le (suc n) done = ground (arith, count_below-le n done)

-- All of the first `n` positions are completed when `n` of them are.
all_of_count :
    (n k : ℕ) (done : List Bool) → n ≤ count_below n done → k < n → is_completed done k ≡ true
all_of_count zero k done h lt = absurd (omega arith)
all_of_count (suc n) k done h lt = elim (Bool-cases (k == n)) [
  | inl last ↦
      let same : k ≡ n = ground arith in
      subst (λ j. is_completed done j ≡ true) (sym same) (ground (arith, count_below-le n done))
  | inr before ↦ all_of_count n k done (ground (arith, count_below-le n done)) (ground arith)
]

pub count_of_all :
    (n : ℕ) (done : List Bool)
    → ((k : ℕ) → k < n → is_completed done k ≡ true)
    → count_below n done ≡ n
count_of_all zero done h = refl
count_of_all (suc n) done h =
    ground (arith, h n (omega arith), count_of_all n done (λ k lt. h k (omega arith)))

-- `dag_execute` returns on every DAG of at most 128 steps, and however it ends, it has called no
-- step twice, and none before all its dependencies had been called.
pub execute-Ordered :
    (ctx : Context) (begun ended : ℕ)
    → length ctx.dag.steps ≤ max_dag_steps
    → (out : ResultStatus × Context) × (execute ctx begun ended ≡ some out)
      × Ordered ctx.dag.steps out.1.calls
unfolding finish
execute-Ordered ctx begun ended small =
    let (out, e, end) = execute-Ended ctx begun ended small in (out, e, calls end)
  where
    calls :
        {out : ResultStatus × Context}
        → Ended ctx.dag.steps ended out
        → Ordered ctx.dag.steps out.1.calls
    calls (finished st v h o) = subst (λ r. Ordered ctx.dag.steps r.1.calls) (sym o) v.ordered
    calls (stuck st v h b o) = subst (λ r. Ordered ctx.dag.steps r.1.calls) (sym o) v.ordered

-- The positions below a bound have all been called.
abbrev pub AllCalled : ℕ → List ℕ → Type 0
AllCalled zero calls = Unit
AllCalled (suc n) calls = (contains n calls ≡ true) × AllCalled n calls

AllCalled-of :
    (n : ℕ) (calls : List ℕ) → ((k : ℕ) → k < n → contains k calls ≡ true) → AllCalled n calls
AllCalled-of zero calls h = tt
AllCalled-of (suc n) calls h = (h n (omega arith), AllCalled-of n calls (λ k lt. h k (omega arith)))

pub AllCalled-contains :
    (n k : ℕ) (calls : List ℕ) → AllCalled n calls → k < n → contains k calls ≡ true
AllCalled-contains zero k calls h lt = absurd (omega arith)
AllCalled-contains (suc n) k calls h lt = elim (Bool-cases (k == n)) [
  | inl last ↦ let same : n ≡ k = ground arith in subst (λ j. contains j calls ≡ true) same h.0
  | inr before ↦ AllCalled-contains n k calls h.1 (ground arith)
]

-- Success with the status COMPLETED and every step called, or an error with the status FAILED.
abbrev pub Reported : Context → ResultStatus × Context → Type 0
Reported ctx (r, c) =
    ((r ≡ ok) × (c.status ≡ completed) × AllCalled (length ctx.dag.steps) c.calls)
    ⊎ ((r ≡ err_invalid) × (c.status ≡ failed))

-- `dag_execute` returns on every DAG of at most 128 steps, either OK with the status COMPLETED
-- and every step called, or INVALID with the status FAILED.
pub execute-Reported :
    (ctx : Context) (begun ended : ℕ)
    → length ctx.dag.steps ≤ max_dag_steps
    → (out : ResultStatus × Context) × (execute ctx begun ended ≡ some out) × Reported ctx out
unfolding finish
execute-Reported ctx begun ended small =
    let (out, e, end) = execute-Ended ctx begun ended small in (out, e, report end)
  where
    report : {out : ResultStatus × Context} → Ended ctx.dag.steps ended out → Reported ctx out
    report (finished st v h o) = subst (Reported ctx) (sym o) (
        inl (
          refl,
          refl,
          AllCalled-of (length ctx.dag.steps) st.ctx.calls λ k lt.
              sym (v.logged k)
              ∙ all_of_count (length ctx.dag.steps) k st.ctx.step_completed
                  (omega (arith, v.counted)) lt,
        ))
    report (stuck st v h b o) = subst (Reported ctx) (sym o) (inr (refl, refl))
