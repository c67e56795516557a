-- ===== src/ClusterView/Registry.antt =====
-- What the cluster view of src/cluster/membership.c stands for, without arrays and loops: a partial
-- map from node ids to members, with a bound on how many it holds.
use roole.Base.{ℕ, ◌+◌, ◌-◌, Option, none, some, ◌==◌, leb, if◌then◌else◌}
use roole.Base.Status.{ResultStatus, ok, err_notfound, err_full, NodeStatus}
use roole.ClusterView.{ClusterMember, merge, restate}

pub record Registry : Type 0 where
  pub lookup : ℕ → Option ClusterMember
  pub size : ℕ
  pub capacity : ℕ

abbrev pub update : (ℕ → Option ClusterMember) → ℕ → Option ClusterMember → ℕ → Option ClusterMember
update f k v j = if k == j then v else f j

unfoldable pub add : Registry → ClusterMember → ℕ → ResultStatus × Registry
add r m now = elim (r.lookup m.node_id) [
  | some old ↦ (ok, record r { lookup = update r.lookup m.node_id (some (merge now m old)) })
  | none ↦ if leb r.capacity r.size then (err_full, r) else (
    ok,
    record r {
      lookup = update r.lookup m.node_id (some (record m { last_seen_ms = now }));
      size = r.size + 1;
    },
  )
]

unfoldable pub update_status : Registry → ℕ → NodeStatus → ℕ → ℕ → ResultStatus × Registry
update_status r k status incarnation now = elim (r.lookup k) [
  | some old ↦
      (ok, record r { lookup = update r.lookup k (some (restate status incarnation now old)) })
  | none ↦ (err_notfound, r)
]

unfoldable pub delete : Registry → ℕ → ResultStatus × Registry
delete r k = elim (r.lookup k) [
  | some old ↦ (ok, record r { lookup = update r.lookup k none; size = r.size - 1 })
  | none ↦ (err_notfound, r)
]
