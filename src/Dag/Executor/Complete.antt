-- ===== src/Dag/Executor/Complete.antt =====
-- The `while` loop of src/dag/dag_executor.c: it ends, and how.
use roole.Base.{
  ℕ, zero, suc, ◌-◌, ◌≤◌, ◌<◌, ◌≡◌, refl, sym, ap, subst, ◌∙◌, inl, inr, true, false, some, List,
  ltb, arith, length, get_elem?, get_or-replicate, length-replicate, Bool-cases, replicate,
}
use roole.Base.Status.{ResultStatus, ok, err_invalid}
use roole.Dag.{DagStep, max_dag_steps}
use roole.Dag.Executor.{
  Context, completed, failed, Loop, going, pass, finish, rounds, start, execute,
}
use roole.Dag.Executor.Passes.{Inv, Blocked, count_below}
use roole.Dag.Executor.Progress.{round-Moved, round-Blocked}

-- How `dag_execute` ends: with every step completed, or in a state in which every step is completed
-- or waits for one that is not.
pub data Ended (steps : List DagStep) (now : ℕ) (out : ResultStatus × Context) : Type 0 where
  finished :
      (st : Loop)
      → Inv steps st
      → length steps ≤ st.completed_steps
      → out ≡ (ok, finish completed now st.ctx)
      → Ended steps now out
  stuck :
      (st : Loop)
      → Inv steps st
      → st.completed_steps < length steps
      → ((k : ℕ) (s : DagStep) → get_elem? steps k ≡ some s → Blocked k s st)
      → out ≡ (err_invalid, finish failed now st.ctx)
      → Ended steps now out

abbrev reset : Loop → Loop
reset st = record st { progress_made = false }

reset-Inv : (steps : List DagStep) (st : Loop) → Inv steps st → Inv steps (reset st)
reset-Inv steps st v = record {
  same = v.same;
  array = v.array;
  logged = v.logged;
  ordered = v.ordered;
  counted = v.counted;
}

module _ (fuel now : ℕ) (st : Loop) where
  rounds_over :
      ltb st.completed_steps (length st.ctx.dag.steps) ≡ false
      → rounds (suc fuel) now st ≡ some (ok, finish completed now st.ctx)
  unfolding rounds
  rounds_over over = rw over

  module _ (next : Loop) (more : ltb st.completed_steps (length st.ctx.dag.steps) ≡ true)
      (passed : pass 0 st.ctx.dag.steps (reset st) ≡ going next) where
    rounds_moved : next.progress_made ≡ true → rounds (suc fuel) now st ≡ rounds fuel now next
    unfolding rounds
    rounds_moved moved = rw (more, passed, moved)

    rounds_still :
        next.progress_made ≡ false
        → rounds (suc fuel) now st ≡ some (err_invalid, finish failed now next.ctx)
    unfolding rounds
    rounds_still still = rw (more, passed, still)

rounds-Ended :
    (steps : List DagStep) (fuel now : ℕ) (st : Loop)
    → length steps ≤ max_dag_steps
    → Inv steps st
    → length steps - st.completed_steps < fuel
    → (out : ResultStatus × Context) × (rounds fuel now st ≡ some out) × Ended steps now out
rounds-Ended steps zero now st small v h = absurd (omega arith)
rounds-Ended steps (suc fuel) now st small v h =
    let same : length st.ctx.dag.steps ≡ length steps = ap length v.same in
    let fresh = reset-Inv steps st v in
    let m = round-Moved steps (reset st) small fresh in
    let passed : pass 0 st.ctx.dag.steps (reset st) ≡ going m.next =
      ap (λ l. pass 0 l (reset st)) v.same ∙ m.goes in
    elim (Bool-cases (ltb st.completed_steps (length st.ctx.dag.steps))) [
      | inr over ↦ (
        (ok, finish completed now st.ctx),
        rounds_over fuel now st over,
        finished st v (ground arith) refl,
      )
      | inl more ↦ elim (Bool-cases m.next.progress_made) [
        | inl moved ↦
            let grown : st.completed_steps < m.next.completed_steps = m.works refl moved in
            let left : length steps - m.next.completed_steps < fuel = ground arith in
            let later = rounds-Ended steps fuel now m.next small m.inv left in
            (later.0, rounds_moved fuel now st m.next more passed moved ∙ later.1, later.2)
        | inr still ↦
            let rest : m.next ≡ reset st = m.keeps still in
            let blocked : ((k : ℕ) (s : DagStep)
                → get_elem? steps k ≡ some s
                → Blocked k s m.next) =
              λ k s e.
                subst (λ t. Blocked k s t) (sym rest)
                  (round-Blocked steps (reset st) small fresh m.next m.goes still k s e) in
            (
              (err_invalid, finish failed now m.next.ctx),
              rounds_still fuel now st m.next more passed still,
              stuck m.next m.inv
                  (subst (λ t. t.completed_steps < length steps) (sym rest) (ground arith)) blocked
                  refl,
            )
      ]
    ]

count_below-replicate : (n m : ℕ) → count_below n (replicate m false) ≡ 0
count_below-replicate zero m = refl
count_below-replicate (suc n) m =
    ground (arith, get_or-replicate m n false, count_below-replicate n m)

start-Inv : (ctx : Context) (begun : ℕ) → Inv ctx.dag.steps (start ctx begun)
unfolding start
start-Inv ctx begun = record {
  same = refl;
  array = length-replicate max_dag_steps false;
  logged = λ i. get_or-replicate max_dag_steps i false;
  ordered = tt;
  counted = sym (count_below-replicate (length ctx.dag.steps) max_dag_steps);
}

-- `dag_execute` returns on every DAG of at most 128 steps, in one of the two ways of `Ended`.
pub execute-Ended :
    (ctx : Context) (begun ended : ℕ)
    → length ctx.dag.steps ≤ max_dag_steps
    → (out : ResultStatus × Context) × (execute ctx begun ended ≡ some out)
      × Ended ctx.dag.steps ended out
unfolding execute
execute-Ended ctx begun ended small =
    rounds-Ended ctx.dag.steps (suc (length ctx.dag.steps)) ended (start ctx begun) small
      (start-Inv ctx begun) (omega arith)
