-- ===== src/Gossip/Engine/Announce.antt =====
-- The public functions of src/cluster/gossip_engine.c by which this node joins and leaves the
-- cluster: `gossip_engine_add_seed`, `gossip_engine_announce_join` and `gossip_engine_leave`.
use roole.Base.{ℕ, none, some, List, [], ◌∷◌, ◌==◌, if◌then◌else◌}
use roole.Base.Int.{ℤ, pos, negsuc}
use roole.Base.Status.{unknown, alive, dead}
use roole.ClusterView
use roole.ClusterView.{ClusterMember}
use roole.Gossip.Message.{MemberUpdate, GossipMessage, serialize}
use roole.Gossip.Engine.{
  Engine, queue_times, set_view, next_sequence, send, gossip_max_payload_size,
}
use roole.Gossip.Engine.Ping.{message_from, member_of}
use roole.Gossip.Engine.Rumours.{self_update}
use roole.Gossip.Engine.Dispatch.{msg_join, msg_leave}

-- `gossip_engine_add_seed`.
unfoldable pub add_seed : ℕ → Engine → List ℕ → ℕ → ℤ × Engine
add_seed now engine ip port =
    let join = message_from engine msg_join (self_update engine now ∷ []) in
    elim (serialize join gossip_max_payload_size) [
      | none ↦ (negsuc 0, next_sequence engine)
      | some none ↦ (negsuc 0, next_sequence engine)
      | some (some buffer) ↦ (pos 0, send (next_sequence engine) join ip port)
    ]

-- `gossip_engine_announce_join`.
unfoldable pub announce_join : ℕ → Engine → ℤ × Engine
unfolding queue_times
announce_join now engine =
    let self = member_of (self_update engine now) alive now in
    let joined = set_view engine (ClusterView.add engine.cluster_view self now).1 in
    (pos 0, queue_times 5 joined (self_update engine now))

-- The fields that are not named are 0.
abbrev pub leave_update : Engine → ℕ → MemberUpdate
leave_update engine now = record {
  node_id = engine.my_id;
  node_type = unknown;
  ip_address = [];
  gossip_port = 0;
  data_port = 0;
  status = dead;
  incarnation = engine.incarnation;
  timestamp_ms = now;
}

-- The same message to every member but this node.
unfoldable pub send_to_others : List ClusterMember → GossipMessage → Engine → Engine
send_to_others [] msg engine = engine
send_to_others (m ∷ ms) msg engine =
    let skip = send_to_others ms msg engine in
    let next = send_to_others ms msg (send engine msg m.ip_address m.gossip_port) in
    if m.node_id == engine.my_id then skip else next

-- `gossip_engine_leave`.
unfoldable pub leave : ℕ → Engine → ℤ × Engine
unfolding send_to_others
leave now engine =
    let msg = message_from engine msg_leave (leave_update engine now ∷ []) in
    (pos 0, send_to_others engine.cluster_view.members msg (next_sequence engine))
