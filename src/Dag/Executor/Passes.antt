-- ===== src/Dag/Executor/Passes.antt =====
-- The invariant of the loops of src/dag/dag_executor.c.
use roole.Base.{
  ℕ, zero, suc, ◌+◌, ◌≤◌, ◌<◌, ◌≡◌, refl, subst, sym, ap, ◌∙◌, ◌⊎◌, inl, inr, Bool, true, false,
  some, List, [], ◌∷◌, if◌then◌else◌, arith, length, get_elem?, get_elem?-lt, set, length-set,
  get_or-set, contains, All, Option-cases,
}
use roole.Dag.{DagStep, max_dag_steps}
use roole.Dag.Executor.{
  index_of, is_completed, dependencies_met, execute_step, Loop, Visited, going, mark, run_one,
  visit,
}

-- How many of the first `n` positions are completed.
abbrev pub count_below : ℕ → List Bool → ℕ
count_below zero done = 0
count_below (suc n) done = (if is_completed done n then 1 else 0) + count_below n done

-- A dependency names a step, and the first step of that name has been called.
abbrev pub Called : List DagStep → List ℕ → ℕ → Type 0
Called steps calls d = (j : ℕ) × (index_of d steps ≡ some j) × (contains j calls ≡ true)

-- Each position is called once, after the dependencies of its step.
abbrev pub Ordered : List DagStep → List ℕ → Type 0
Ordered steps [] = Unit
Ordered steps (i ∷ older) =
    (contains i older ≡ false)
    × ((s : DagStep) × (get_elem? steps i ≡ some s) × All (Called steps older) s.dependencies)
    × Ordered steps older

pub record Inv (steps : List DagStep) (st : Loop) : Type 0 where
  pub same : st.ctx.dag.steps ≡ steps
  pub array : length st.ctx.step_completed ≡ max_dag_steps
  pub logged : (i : ℕ) → is_completed st.ctx.step_completed i ≡ contains i st.ctx.calls
  pub ordered : Ordered steps st.ctx.calls
  pub counted : st.completed_steps ≡ count_below (length steps) st.ctx.step_completed

-- The state after `visit` has run a step.
pub executed : ℕ → DagStep → Loop → Loop
executed i s st = mark i st (execute_step (record (st.ctx) { calls = i ∷ st.ctx.calls }) s).1

run_one-executed : (i : ℕ) (s : DagStep) (st : Loop) → run_one i s st ≡ going (executed i s st)
unfolding run_one executed execute_step
run_one-executed i s st = ground arith

-- What a step changes of the state.
pub executed_fields :
    (i : ℕ) (s : DagStep) (st : Loop)
    → let st' = executed i s st in
      (st'.ctx.dag ≡ st.ctx.dag)
      × (st'.ctx.step_completed ≡ set st.ctx.step_completed i true)
      × (st'.ctx.calls ≡ i ∷ st.ctx.calls)
      × (st'.completed_steps ≡ st.completed_steps + 1)
      × (st'.progress_made ≡ true)
unfolding executed mark execute_step
executed_fields i s st = ground arith

-- A visit skips the step, where it is completed or must wait, or executes it.
pub visit_cases :
    (i : ℕ) (s : DagStep) (st : Loop)
    → ((visit i s st ≡ going st)
        × ((is_completed st.ctx.step_completed i ≡ true)
            ⊎ (dependencies_met st.ctx.dag.steps st.ctx.step_completed s.dependencies ≡ false)))
      ⊎ ((visit i s st ≡ going (executed i s st))
          × (is_completed st.ctx.step_completed i ≡ false)
          × (dependencies_met st.ctx.dag.steps st.ctx.step_completed s.dependencies ≡ true))
unfolding visit
visit_cases i s st = ground (arith, run_one-executed i s st)

count_below-set_ge :
    (n i : ℕ) (done : List Bool)
    → i < length done
    → n ≤ i
    → count_below n (set done i true) ≡ count_below n done
count_below-set_ge zero i done h k = refl
count_below-set_ge (suc n) i done h k =
    ground (arith, get_or-set done i n true false, count_below-set_ge n i done h)

count_below-set :
    (n i : ℕ) (done : List Bool)
    → i < length done
    → i < n
    → is_completed done i ≡ false
    → count_below n (set done i true) ≡ count_below n done + 1
count_below-set zero i done h k e = absurd (omega arith)
count_below-set (suc n) i done h k e = ground (
  arith,
  get_or-set done i n true false,
  count_below-set n i done h,
  count_below-set_ge n i done h,
)

-- The test of a dependency reads the array, and the array says what was called.
dependencies_met-Called :
    (steps : List DagStep) (done : List Bool) (calls deps : List ℕ)
    → ((i : ℕ) → is_completed done i ≡ contains i calls)
    → dependencies_met steps done deps ≡ true
    → All (Called steps calls) deps
unfolding dependencies_met
dependencies_met-Called steps done calls [] h e = tt
dependencies_met-Called steps done calls (d ∷ ds) h e = elim (Option-cases (index_of d steps)) [
  | inl gone ↦ cc e
  | inr (j, found) ↦ (
    (j, found, ground (arith, h j)),
    dependencies_met-Called steps done calls ds h (ground arith),
  )
]

pub executed-Inv :
    (steps : List DagStep) (i : ℕ) (s : DagStep) (st : Loop)
    → length steps ≤ max_dag_steps
    → get_elem? steps i ≡ some s
    → is_completed st.ctx.step_completed i ≡ false
    → dependencies_met st.ctx.dag.steps st.ctx.step_completed s.dependencies ≡ true
    → Inv steps st
    → Inv steps (executed i s st)
executed-Inv steps i s st small at fresh met v =
    let f = executed_fields i s st in
    let done : List Bool = st.ctx.step_completed in
    let inside : i < length steps = get_elem?-lt steps i at in
    let room : i < length done = omega (arith, v.array) in
    let ready : dependencies_met steps done s.dependencies ≡ true = rw v.same at met in
    record {
      same = ap (λ d. d.steps) f.0 ∙ v.same;
      array = ap length f.1 ∙ length-set done i true ∙ v.array;
      logged = λ j.
          ap (λ d. is_completed d j) f.1
          ∙ ground (arith, get_or-set done i j true false room, v.logged j)
          ∙ ap (contains j) (sym f.2);
      ordered = subst (Ordered steps) (sym f.2) (
        sym (v.logged i) ∙ fresh,
        (s, at, dependencies_met-Called steps done st.ctx.calls s.dependencies v.logged ready),
        v.ordered,
      );
      counted =
          f.3
          ∙ ap (λ k. k + 1) v.counted
          ∙ sym (count_below-set (length steps) i done room inside fresh)
          ∙ ap (count_below (length steps)) (sym f.1);
    }

-- A step that a visit leaves alone: completed, or with a dependency that is not.
abbrev pub Blocked : ℕ → DagStep → Loop → Type 0
Blocked i s st =
    (is_completed st.ctx.step_completed i ≡ true)
    ⊎ (dependencies_met st.ctx.dag.steps st.ctx.step_completed s.dependencies ≡ false)

-- What visits do: none aborts, the invariant stays, completed steps are never lost, and progress
-- means one more of them.
pub record Moved (steps : List DagStep) (st : Loop) (out : Visited) : Type 0 where
  pub next : Loop
  pub goes : out ≡ going next
  pub inv : Inv steps next
  pub grows : st.completed_steps ≤ next.completed_steps
  pub keeps : next.progress_made ≡ false → next ≡ st
  pub works :
      st.progress_made ≡ false
      → next.progress_made ≡ true
      → st.completed_steps < next.completed_steps

pub visit-Moved :
    (steps : List DagStep) (i : ℕ) (s : DagStep) (st : Loop)
    → length steps ≤ max_dag_steps
    → get_elem? steps i ≡ some s
    → Inv steps st
    → Moved steps st (visit i s st)
visit-Moved steps i s st small at v = elim (visit_cases i s st) [
  | inl (e, _) ↦ record {
    next = st;
    goes = e;
    inv = v;
    grows = omega arith;
    keeps = λ _. refl;
    works = λ p q. ground arith;
  }
  | inr (e, fresh, met) ↦
      let f = executed_fields i s st in
      record {
        next = executed i s st;
        goes = e;
        inv = executed-Inv steps i s st small at fresh met v;
        grows = omega (arith, f.3);
        keeps = λ p. cc f.4;
        works = λ p q. omega (arith, f.3);
      }
]
