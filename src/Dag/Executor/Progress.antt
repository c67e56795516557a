-- ===== src/Dag/Executor/Progress.antt =====
-- The `for` loop of src/dag/dag_executor.c over a whole pass.
use roole.Base.{
  ℕ, zero, suc, ◌+◌, ◌≤◌, ◌≡◌, refl, subst, subst₂, sym, ap, ◌∙◌, inl, inr, false, some, List, [],
  ◌∷◌, arith, length, get_elem?, Bool-cases,
}
use roole.Dag.{DagStep, max_dag_steps}
use roole.Dag.Executor.{Loop, going, visit, pass}
use roole.Dag.Executor.Passes.{
  Inv, Moved, Blocked, visit-Moved, visit_cases, executed, executed_fields,
}

visit-Blocked :
    (i : ℕ) (s : DagStep) (st next : Loop)
    → visit i s st ≡ going next
    → next.progress_made ≡ false
    → Blocked i s st
visit-Blocked i s st next e p = elim (visit_cases i s st) [
  | inl (_, b) ↦ b
  | inr (f, fresh, met) ↦ absurd (wrong f)
]
  where
    wrong : visit i s st ≡ going (executed i s st) → ⊥
    wrong f = ground (arith, (executed_fields i s st).4)

-- The `for` loop over the rest of the array, and where it stands still, the state of that rest.
pub pass-Moved :
    (steps : List DagStep) (i : ℕ) (rest : List DagStep) (st : Loop)
    → length steps ≤ max_dag_steps
    → ((k : ℕ) → get_elem? rest k ≡ get_elem? steps (i + k))
    → Inv steps st
    → Moved steps st (pass i rest st)
unfolding pass
pass-Moved steps i [] st small at v = record {
  next = st;
  goes = refl;
  inv = v;
  grows = omega arith;
  keeps = λ _. refl;
  works = λ p q. cc;
}
pass-Moved steps i (s ∷ ss) st small at v =
    let here : get_elem? steps i ≡ some s =
      ap (get_elem? steps) {y = i + 0} (omega arith) ∙ sym (at 0) in
    let m = visit-Moved steps i s st small here v in
    let later =
      pass-Moved steps (i + 1) ss m.next small
        (λ k. at (suc k) ∙ ap (get_elem? steps) (omega arith)) m.inv in
    record {
      next = later.next;
      goes = rw (m.goes, pass) later.goes;
      inv = later.inv;
      grows = omega (arith, m.grows, later.grows);
      keeps = λ p.
          let rest = later.keeps p in rest ∙ m.keeps (ap (λ t. t.progress_made) (sym rest) ∙ p);
      works = λ p q. elim (Bool-cases m.next.progress_made) [
        | inl moved ↦ omega (arith, m.works p moved, later.grows)
        | inr still ↦ omega (arith, m.grows, later.works still q)
      ];
    }

-- A pass without progress leaves the first step alone and goes on from the same state.
pass-cons_still :
    (steps : List DagStep) (i : ℕ) (s : DagStep) (ss : List DagStep) (st next : Loop)
    → length steps ≤ max_dag_steps
    → ((k : ℕ) → get_elem? (s ∷ ss) k ≡ get_elem? steps (i + k))
    → Inv steps st
    → pass i (s ∷ ss) st ≡ going next
    → next.progress_made ≡ false
    → Blocked i s st × (pass (i + 1) ss st ≡ going next)
unfolding pass
pass-cons_still steps i s ss st next small at v e p =
    let here : get_elem? steps i ≡ some s =
      ap (get_elem? steps) {y = i + 0} (omega arith) ∙ sym (at 0) in
    let m = visit-Moved steps i s st small here v in
    let later =
      pass-Moved steps (i + 1) ss m.next small
        (λ k. at (suc k) ∙ ap (get_elem? steps) (omega arith)) m.inv in
    let onward : pass (i + 1) ss m.next ≡ going next = rw (m.goes, pass) at e in
    let last : later.next ≡ next = cc (later.goes, onward) in
    let still : m.next.progress_made ≡ false =
      ap (λ t. t.progress_made) (sym (later.keeps (ap (λ t. t.progress_made) last ∙ p)) ∙ last)
      ∙ p in
    let same : m.next ≡ st = m.keeps still in
    (
      visit-Blocked i s st m.next m.goes still,
      subst (λ t. pass (i + 1) ss t ≡ going next) same onward,
    )

-- A pass without progress has met only completed and waiting steps.
pub pass-Blocked :
    (steps : List DagStep) (i : ℕ) (rest : List DagStep) (st next : Loop)
    → length steps ≤ max_dag_steps
    → ((k : ℕ) → get_elem? rest k ≡ get_elem? steps (i + k))
    → Inv steps st
    → pass i rest st ≡ going next
    → next.progress_made ≡ false
    → (k : ℕ) (s : DagStep) → get_elem? rest k ≡ some s
    → Blocked (i + k) s st
pass-Blocked steps i [] st next small at v e p k s q = cc
pass-Blocked steps i (s ∷ ss) st next small at v e p zero s' q =
    let here = pass-cons_still steps i s ss st next small at v e p in
    let same : s ≡ s' = cc q in subst₂ (λ j t. Blocked j t st) {y = i + 0} (omega arith) same here.0
pass-Blocked steps i (s ∷ ss) st next small at v e p (suc k) s' q =
    let here = pass-cons_still steps i s ss st next small at v e p in
    subst (λ j. Blocked j s' st) {y = i + suc k} (omega arith)
      (pass-Blocked steps (i + 1) ss st next small
        (λ j. at (suc j) ∙ ap (get_elem? steps) (omega arith)) v here.1 p k s' q)

module _ (steps : List DagStep) (st : Loop) (small : length steps ≤ max_dag_steps)
    (v : Inv steps st) where
  -- One run of the `for` loop.
  pub round-Moved : Moved steps st (pass 0 steps st)
  round-Moved = pass-Moved steps 0 steps st small (λ k. ap (get_elem? steps) (omega arith)) v

  pub round-Blocked :
      (next : Loop)
      → pass 0 steps st ≡ going next
      → next.progress_made ≡ false
      → (k : ℕ) (s : DagStep) → get_elem? steps k ≡ some s
      → Blocked k s st
  round-Blocked next e p k s q =
      subst (λ j. Blocked j s st) {x = 0 + k} (omega arith)
        (pass-Blocked steps 0 steps st next small (λ j. ap (get_elem? steps) (omega arith)) v e p k
          s q)
