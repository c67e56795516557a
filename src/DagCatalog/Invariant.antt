-- ===== src/DagCatalog/Invariant.antt =====
-- The well-formedness of the catalog: no id twice, no more entries than the array holds.
use roole.Base.{
  ℕ, ◌≤◌, refl, inl, inr, Bool, List, [], ◌∷◌, arith, length, length-append, leb, Bool-cases,
  Option-cases,
}
use roole.Table.{find, modify, remove}
use roole.Table.Laws.{length-modify, length-remove}
use roole.Table.Distinct.{IsDistinct, append-IsDistinct, modify-IsDistinct, remove-IsDistinct}
use roole.Dag.{Dag}
use roole.DagCatalog.{DagCatalog, dag_key, add, update, replacement, delete, copies}

pub record IsValid (c : DagCatalog) : Type 0 where
  pub distinct : IsDistinct dag_key c.dags
  pub bounded : length c.dags ≤ c.capacity

module _ (c : DagCatalog) (v : IsValid c) where
  pub add-IsValid : (alloc : ℕ → Bool) (dag : Dag) → IsValid (add alloc c dag).1
  unfolding add
  add-IsValid alloc dag = elim (Option-cases (find dag_key dag.dag_id c.dags)) [
    | inr (old, e) ↦ rw (e, add) v
    | inl e ↦
        rw (e, add)
          (elim (Bool-cases (leb c.capacity (length c.dags))) [
            | inl full ↦ rw full v
            | inr room ↦ rw room (elim (Bool-cases (copies alloc 0 dag.steps)) [
              | inr failed ↦ rw failed v
              | inl copied ↦ rw copied (record {
                distinct = append-IsDistinct dag_key c.dags dag v.distinct e;
                bounded = ground (arith, length-append c.dags (dag ∷ []));
              })
            ])
          ])
  ]

  pub update-IsValid : (alloc : ℕ → Bool) (dag : Dag) (now : ℕ) → IsValid (update alloc c dag now).1
  unfolding update
  update-IsValid alloc dag now = elim (Option-cases (modify dag_key dag.dag_id f c.dags)) [
    | inl e ↦ rw (e, update) v
    | inr (ds, e) ↦
        rw (e, update)
          (record {
            distinct = modify-IsDistinct dag_key dag.dag_id f c.dags ds (λ a h. refl) v.distinct e;
            bounded = omega (arith, length-modify dag_key dag.dag_id f c.dags ds e, v.bounded);
          })
  ]
    where
      f : Dag → Dag
      f old = replacement alloc dag now

  pub delete-IsValid : (dag_id : ℕ) → IsValid (delete c dag_id).1
  unfolding delete
  delete-IsValid dag_id = elim (Option-cases (remove dag_key dag_id c.dags)) [
    | inl e ↦ rw (e, delete) v
    | inr (ds, e) ↦
        rw (e, delete)
          (record {
            distinct = remove-IsDistinct dag_key dag_id c.dags ds v.distinct e;
            bounded = omega (arith, length-remove dag_key dag_id c.dags ds e, v.bounded);
          })
  ]

-- One call under the catalog's write lock.
pub data Call : Type 0 where
  adds : (ℕ → Bool) → Dag → Call
  updates : (ℕ → Bool) → Dag → ℕ → Call
  deletes : ℕ → Call

unfoldable pub step : DagCatalog → Call → DagCatalog
step c (adds alloc dag) = (add alloc c dag).1
step c (updates alloc dag now) = (update alloc c dag now).1
step c (deletes dag_id) = (delete c dag_id).1

unfoldable pub run : DagCatalog → List Call → DagCatalog
unfolding step
run c [] = c
run c (k ∷ ks) = run (step c k) ks

pub step-IsValid : (c : DagCatalog) (k : Call) → IsValid c → IsValid (step c k)
unfolding step
step-IsValid c (adds alloc dag) v = add-IsValid c v alloc dag
step-IsValid c (updates alloc dag now) v = update-IsValid c v alloc dag now
step-IsValid c (deletes dag_id) v = delete-IsValid c v dag_id

-- A catalog that lists no id twice and does not overrun its array stays so through any sequence of
-- `dag_catalog_add`, `dag_catalog_update` and `dag_catalog_remove`, whichever allocations fail.
pub catalog_run-IsValid : (c : DagCatalog) (ks : List Call) → IsValid c → IsValid (run c ks)
unfolding run
catalog_run-IsValid c [] v = v
catalog_run-IsValid c (k ∷ ks) v = catalog_run-IsValid (step c k) ks (step-IsValid c k v)
