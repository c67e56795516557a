-- ===== src/ClusterView/Lists.antt =====
-- The listing functions of src/cluster/membership.c against `cluster_view_get`.
use roole.Base.{ℕ, ◌≤◌, ◌≡◌, Bool, true, ◌&&◌, length, contains}
use roole.Base.Status.{NodeType, alive, eq_type, eq_status}
use roole.Table.Collect.{passes, contains-collect, contains-collect_room, length-collect-le}
use roole.ClusterView.{ClusterView, ClusterMember, member_id, get, list_by_type, list_alive}
use roole.ClusterView.Invariant.{IsValid}

abbrev pub is_alive_of : NodeType → ClusterMember → Bool
is_alive_of type m = eq_type m.node_type type && eq_status m.status alive

-- On a well-formed view, if `cluster_view_list_alive` lists an id, then it fills at most
-- `max_count` places, and `cluster_view_get` finds a member of the type under the id that is
-- ALIVE.
pub list_alive_sound :
    (view : ClusterView) (type : NodeType) (max_count k : ℕ)
    → IsValid view
    → contains k (list_alive view type max_count) ≡ true
    → (length (list_alive view type max_count) ≤ max_count)
      × (passes (is_alive_of type) (get view k) ≡ true)
unfolding list_alive get
list_alive_sound view type max_count k v h = (
  length-collect-le member_id (is_alive_of type) max_count view.members,
  contains-collect member_id (is_alive_of type) max_count k view.members v.distinct h,
)

-- On a well-formed view, with room for as many ids as there are members, an id is in the list of
-- `cluster_view_list_alive` if and only if `cluster_view_get` finds a member of the type under it
-- that is ALIVE, and in that of `cluster_view_list_by_type` if and only if it finds a member of
-- the type.
pub list-exact :
    (view : ClusterView) (type : NodeType) (max_count k : ℕ)
    → IsValid view
    → length view.members ≤ max_count
    → (contains k (list_alive view type max_count) ≡ passes (is_alive_of type) (get view k))
      × (contains k (list_by_type view type max_count)
          ≡ passes (λ m. eq_type m.node_type type) (get view k))
unfolding list_alive list_by_type get
list-exact view type max_count k v h = (
  contains-collect_room member_id (is_alive_of type) max_count k view.members v.distinct h,
  contains-collect_room member_id (λ m. eq_type m.node_type type) max_count k view.members
      v.distinct h,
)
