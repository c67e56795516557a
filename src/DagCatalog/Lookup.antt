-- ===== src/DagCatalog/Lookup.antt =====
-- What `dag_catalog_get` of src/dag/dag_catalog.c answers after each operation.
use roole.Base.{
  ℕ, ◌≡◌, refl, inl, inr, Bool, true, false, none, some, [], ◌∷◌, arith, length, leb, length-append,
  Option-cases, ◌==◌, if◌then◌else◌,
}
use roole.Base.Status.{ResultStatus, ok, err_nomem, err_notfound, err_exists, err_full}
use roole.Table.{find, modify, remove}
use roole.Table.Laws.{
  find-append, find-modify, find_of_modify, modify-eq_none, find_of_remove, remove-eq_none,
  length-remove,
}
use roole.Table.Distinct.{find-remove}
use roole.Dag.{Dag}
use roole.DagCatalog.{DagCatalog, dag_key, add, update, replacement, delete, copies, get, notify}
use roole.DagCatalog.Invariant.{IsValid}

-- The status of `dag_catalog_add`, in the order of its tests.
abbrev pub add_status : (ℕ → Bool) → DagCatalog → Dag → ResultStatus
add_status alloc c dag = elim (get c dag.dag_id) [
  | some old ↦ err_exists
  | none ↦
      if leb c.capacity (length c.dags)
      then err_full
      else if copies alloc 0 dag.steps
      then ok
      else err_nomem
]

abbrev pub is_ok : ResultStatus → Bool
is_ok ok = true
is_ok _ = false

-- `dag_catalog_add` returns EXISTS for a known id, else FULL without room, else NOMEM if a
-- configuration cannot be copied, else OK; on success the DAG is found under its id and the
-- callback, if set, gets the new number of entries, and otherwise no look-up changes and the
-- callback is not called. Every other id is answered as before.
pub catalog_add_lem :
    (alloc : ℕ → Bool) (c : DagCatalog) (dag : Dag) (j : ℕ)
    → let (s, c', told) = add alloc c dag in
      (s ≡ add_status alloc c dag)
      × (get c' j ≡ (if is_ok s then (if dag.dag_id == j then some dag else get c j) else get c j))
      × (told ≡ (if is_ok s then notify c (length c'.dags) else []))
unfolding add get
catalog_add_lem alloc c dag j = elim (Option-cases (find dag_key dag.dag_id c.dags)) [
  | inr (old, e) ↦ ground (arith, e)
  | inl e ↦ ground (arith, e, find-append dag_key j c.dags dag, length-append c.dags (dag ∷ []))
]

-- `dag_catalog_update` returns NOTFOUND for an unknown id and else OK, and then the id is
-- answered with the new DAG, without the configurations that could not be copied, and every other
-- id as before.
pub catalog_update_lem :
    (alloc : ℕ → Bool) (c : DagCatalog) (dag : Dag) (now j : ℕ)
    → let (s, c') = update alloc c dag now in
      (s ≡ elim (get c dag.dag_id) [ none ↦ err_notfound | some old ↦ ok ])
      × (get c' j ≡ elim (get c dag.dag_id) [
        | none ↦ get c j
        | some old ↦ if dag.dag_id == j then some (replacement alloc dag now) else get c j
      ])
unfolding update get
catalog_update_lem alloc c dag now j = elim (Option-cases (find dag_key dag.dag_id c.dags)) [
  | inl e ↦ ground (arith, e, modify-eq_none dag_key dag.dag_id f c.dags e)
  | inr (old, e) ↦ elim (Option-cases (modify dag_key dag.dag_id f c.dags)) [
    | inl gone ↦ cc (find_of_modify dag_key dag.dag_id f c.dags gone)
    | inr (ds, got) ↦
        ground (arith, e, got, find-modify dag_key dag.dag_id j f c.dags ds (λ a h. refl) got)
  ]
]
  where
    f : Dag → Dag
    f old = replacement alloc dag now

-- On a well-formed catalog `dag_catalog_remove` returns NOTFOUND for an unknown id and else OK,
-- afterwards the id is unknown and every other is answered as before, and on success the
-- callback, if set, gets the number of entries left.
pub catalog_delete_lem :
    (c : DagCatalog) (dag_id j : ℕ)
    → IsValid c
    → let (s, c', told) = delete c dag_id in
      (s ≡ elim (get c dag_id) [ none ↦ err_notfound | some old ↦ ok ])
      × (get c' j ≡ (if dag_id == j then none else get c j))
      × (told ≡ (if is_ok s then notify c (length c'.dags) else []))
unfolding delete get
catalog_delete_lem c dag_id j v = elim (Option-cases (find dag_key dag_id c.dags)) [
  | inl e ↦ ground (arith, e, remove-eq_none dag_key dag_id c.dags e)
  | inr (old, e) ↦ elim (Option-cases (remove dag_key dag_id c.dags)) [
    | inl gone ↦ cc (find_of_remove dag_key dag_id c.dags gone)
    | inr (ds, got) ↦ ground (
      arith,
      e,
      got,
      find-remove dag_key dag_id j c.dags ds v.distinct got,
      length-remove dag_key dag_id c.dags ds got,
    )
  ]
]
