-- ===== src/Gossip/Engine/Peers.antt =====
-- The lists of peers from which a round of src/cluster/gossip_engine.c chooses.
use roole.Base.{
  ℕ, ◌%◌, ◌≡◌, refl, inl, inr, ◌||◌, some, List, [], ◌∷◌, ◌++◌, ◌==◌, length, ltb, get_or,
  if◌then◌else◌, Bool-cases,
}
use roole.Base.Status.{dead, eq_status}
use roole.ClusterView.{ClusterMember}
use roole.Gossip.Engine.{Engine}
use roole.Gossip.Engine.Protocol.{max_cluster_nodes, list_peers, select_random_peer}

-- The peers are listed within their array.
pub list_peers-total :
    (my_id : ℕ) (ms : List ClusterMember) (peers : List ℕ)
    → (listed : List ℕ) × (list_peers my_id ms peers ≡ some listed)
unfolding list_peers
list_peers-total my_id [] peers = (peers, refl)
list_peers-total my_id (m ∷ ms) peers =
    elim (Bool-cases (m.node_id == my_id || eq_status m.status dead)) [
      | inl skipped ↦ rw (skipped, list_peers) (list_peers-total my_id ms peers)
      | inr other ↦ elim (Bool-cases (ltb (length peers) max_cluster_nodes)) [
        | inl room ↦
            rw (other, room, list_peers) (list_peers-total my_id ms (peers ++ m.node_id ∷ []))
        | inr full ↦ rw (other, full, list_peers) (list_peers-total my_id ms peers)
      ]
    ]

pub select_random_peer-total :
    (engine : Engine) (rand : ℕ) → (target : ℕ) × (select_random_peer engine rand ≡ some target)
unfolding select_random_peer
select_random_peer-total engine rand =
    let (peers, e) = list_peers-total engine.my_id engine.cluster_view.members [] in
    (
      if length peers == 0 then 0 else get_or peers (rand % length peers) 0,
      rw (e, select_random_peer) refl,
    )
