-- ===== src/ClusterView.antt =====
-- The cluster view of src/cluster/membership.c and include/roole/cluster.h: the array of members
-- that the gossip engine updates and the node reads. The functions run under the view's lock, so
-- each is one step on the state. `now` is what `time_now_ms` returns during the call.
pub mod Invariant
pub mod Registry
pub mod Refine
pub mod Incarnation
pub mod Lists
pub mod Each
mod Tests
use roole.Base.{
  ℕ, ◌+◌, ◌%◌, ◌^◌, Bool, true, false, ◌&&◌, ◌||◌, Option, none, some, List, [], ◌∷◌, ◌++◌, ◌==◌,
  leb, if◌then◌else◌, length, take,
}
use roole.Base.Status.{
  ResultStatus, ok, err_nomem, err_invalid, err_notfound, err_full, NodeType, NodeStatus, alive,
  suspect, dead, eq_type, eq_status,
}
use roole.Table
use roole.Table.{find, modify, remove, collect}

-- `cluster_member_t`. The address is the bytes of the C string before its end.
pub record ClusterMember : Type 0 where
  pub node_id : ℕ
  pub node_type : NodeType
  pub ip_address : List ℕ
  pub gossip_port : ℕ
  pub data_port : ℕ
  pub status : NodeStatus
  pub last_seen_ms : ℕ
  pub incarnation : ℕ

-- `cluster_view_t`. `count` is the length of the list.
pub record ClusterView : Type 0 where
  pub members : List ClusterMember
  pub capacity : ℕ

abbrev pub member_id : ClusterMember → ℕ
member_id m = m.node_id

-- `cluster_view_init`. The two tests are whether `safe_calloc` and `pthread_rwlock_init` succeed.
pub init : ℕ → Bool → Bool → ResultStatus × Option ClusterView
init capacity allocated locked =
    if capacity == 0
    then (err_invalid, none)
    else if allocated
    then if locked
      then (ok, some (record { members = []; capacity = capacity }))
      else (err_invalid, none)
    else (err_nomem, none)

-- `cluster_view_destroy`.
abbrev pub destroy : ClusterView → ClusterView
destroy view = record { members = []; capacity = 0 }

-- The value that `cluster_view_add` leaves in the slot of a member with the same id.
unfoldable pub merge : ℕ → ClusterMember → ClusterMember → ClusterMember
merge now member existing =
    if eq_status member.status alive && eq_status existing.status dead
    then record member { last_seen_ms = now; incarnation = (member.incarnation + 1) % 2 ^ 64 }
    else if leb existing.incarnation member.incarnation
    then record member { last_seen_ms = now }
    else existing

append : ClusterView → ClusterMember → ℕ → ResultStatus × ClusterView
append view member now =
    if leb view.capacity (length view.members)
    then (err_full, view)
    else (ok, record view { members = view.members ++ record member { last_seen_ms = now } ∷ [] })

-- `cluster_view_add`.
pub add : ClusterView → ClusterMember → ℕ → ResultStatus × ClusterView
unfolding append
add view member now = elim (modify member_id member.node_id (merge now member) view.members) [
  | some members ↦ (ok, record view { members = members })
  | none ↦ append view member now
]

-- The slot after `cluster_view_update_status`.
unfoldable pub restate : NodeStatus → ℕ → ℕ → ClusterMember → ClusterMember
restate status incarnation now m =
    if leb m.incarnation incarnation
    then record m {
      status = status;
      incarnation = incarnation;
      last_seen_ms =
          if eq_status status alive
          then now
          else if eq_status status suspect && eq_status m.status alive
          then now
          else m.last_seen_ms;
    }
    else m

-- `cluster_view_update_status`.
unfoldable pub update_status : ClusterView → ℕ → NodeStatus → ℕ → ℕ → ResultStatus × ClusterView
update_status view node_id status incarnation now =
    elim (modify member_id node_id (restate status incarnation now) view.members) [
      | some members ↦ (ok, record view { members = members })
      | none ↦ (err_notfound, view)
    ]

-- `cluster_view_remove`.
pub delete : ClusterView → ℕ → ResultStatus × ClusterView
delete view node_id = elim (remove member_id node_id view.members) [
  | some members ↦ (ok, record view { members = members })
  | none ↦ (err_notfound, view)
]

-- `cluster_view_get`, the entry as it is while the caller holds the read lock.
unfoldable pub get : ClusterView → ℕ → Option ClusterMember
get view node_id = find member_id node_id view.members

-- `cluster_view_list_by_type`.
pub list_by_type : ClusterView → NodeType → ℕ → List ℕ
list_by_type view type max_count =
    collect member_id (λ m. eq_type m.node_type type) max_count view.members

-- `cluster_view_list_alive`.
pub list_alive : ClusterView → NodeType → ℕ → List ℕ
list_alive view type max_count =
    collect member_id (λ m. eq_type m.node_type type && eq_status m.status alive) max_count
      view.members

-- `membership_get_members`: the first `max_count` members, copied out.
abbrev pub get_members : ClusterView → ℕ → List ClusterMember
get_members view max_count = take max_count view.members
