-- ===== src/DagCatalog.antt =====
-- The DAG catalog of src/dag/dag_catalog.c and include/roole/dag.h: the array of the workflows that
-- a node knows. The functions run under the catalog's lock, so each is one step on the state. Whether
-- `safe_malloc` succeeds for the configuration of step `i` is the argument `alloc`.
pub mod Invariant
pub mod Lookup
mod Tests
use mathlib.Core.Option
use roole.Base.{
  ℕ, zero, suc, ◌+◌, ◌-◌, Bool, true, false, ◌&&◌, Option, none, some, List, [], ◌∷◌, ◌++◌, ◌==◌,
  ltb, leb, if◌then◌else◌, length, take, map,
}
use roole.Base.Status.{ResultStatus, ok, err_nomem, err_invalid, err_notfound, err_exists, err_full}
use roole.Table.{find, modify, remove}
use roole.Dag.{DagStep, Dag}

-- `dag_catalog_t`. `count` is the length of the list; `watched` says whether a callback is set.
pub record DagCatalog : Type 0 where
  pub dags : List Dag
  pub capacity : ℕ
  pub watched : Bool

abbrev pub dag_key : Dag → ℕ
dag_key d = d.dag_id

-- `dag_catalog_init`. The tests are whether `safe_calloc` and `pthread_rwlock_init` succeed.
pub init : ℕ → Bool → Bool → ResultStatus × Option DagCatalog
init capacity allocated locked =
    if capacity == 0
    then (err_invalid, none)
    else if allocated
    then if locked
      then (ok, some (record { dags = []; capacity = capacity; watched = false }))
      else (err_invalid, none)
    else (err_nomem, none)

-- `dag_catalog_set_change_callback`.
abbrev pub set_change_callback : DagCatalog → Bool → DagCatalog
set_change_callback c given = record c { watched = given }

-- `dag_catalog_destroy`.
abbrev pub destroy : DagCatalog → DagCatalog
destroy c = record c { dags = []; capacity = 0 }

-- Whether a step has a configuration to copy.
abbrev pub has_config : DagStep → Bool
has_config s = elim s.config_data [ none ↦ false | some b ↦ ltb 0 s.config_len ]

-- The deep copy of `dag_catalog_add` from step `i` on: whether every allocation succeeds.
pub copies : (ℕ → Bool) → ℕ → List DagStep → Bool
copies alloc i [] = true
copies alloc i (s ∷ ss) =
    if has_config s
    then (if alloc i then copies alloc (i + 1) ss else false)
    else copies alloc (i + 1) ss

-- The call of the callback with the new count, if one is set.
abbrev pub notify : DagCatalog → ℕ → List ℕ
notify c count = if c.watched then count ∷ [] else []

-- `dag_catalog_add`, with the counts handed to the callback.
pub add : (ℕ → Bool) → DagCatalog → Dag → ResultStatus × DagCatalog × List ℕ
unfolding copies
add alloc c dag = elim (find dag_key dag.dag_id c.dags) [
  | some old ↦ (err_exists, c, [])
  | none ↦
      if leb c.capacity (length c.dags)
      then (err_full, c, [])
      else if copies alloc 0 dag.steps
      then (ok, record c { dags = c.dags ++ dag ∷ [] }, notify c (length c.dags + 1))
      else (err_nomem, c, [])
]

-- The deep copy of `dag_catalog_update`, which leaves a null pointer where an allocation fails.
pub copy_configs : (ℕ → Bool) → ℕ → List DagStep → List DagStep
copy_configs alloc i [] = []
copy_configs alloc i (s ∷ ss) =
    (if has_config s then (if alloc i then s else record s { config_data = none }) else s)
    ∷ copy_configs alloc (i + 1) ss

-- The entry that `dag_catalog_update` leaves.
abbrev pub replacement : (ℕ → Bool) → Dag → ℕ → Dag
replacement alloc dag now = record dag {
  steps = copy_configs alloc 0 dag.steps;
  updated_at_ms = now;
}

-- `dag_catalog_update`.
pub update : (ℕ → Bool) → DagCatalog → Dag → ℕ → ResultStatus × DagCatalog
unfolding copy_configs
update alloc c dag now =
    elim (modify dag_key dag.dag_id (λ old. replacement alloc dag now) c.dags) [
      | none ↦ (err_notfound, c)
      | some dags ↦ (ok, record c { dags = dags })
    ]

-- `dag_catalog_remove`, with the counts handed to the callback.
pub delete : DagCatalog → ℕ → ResultStatus × DagCatalog × List ℕ
delete c dag_id = elim (remove dag_key dag_id c.dags) [
  | none ↦ (err_notfound, c, [])
  | some dags ↦ (ok, record c { dags = dags }, notify c (length c.dags - 1))
]

-- `dag_catalog_get`, the entry as it is while the caller holds the read lock.
pub get : DagCatalog → ℕ → Option Dag
get c dag_id = find dag_key dag_id c.dags

-- `dag_catalog_list`.
abbrev pub list : DagCatalog → ℕ → List ℕ
list c max_count = take max_count (map dag_key c.dags)
