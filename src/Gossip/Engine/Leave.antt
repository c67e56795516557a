-- ===== src/Gossip/Engine/Leave.antt =====
-- A node leaves: `gossip_engine_leave` of src/cluster/gossip_engine.c on that node, the bytes of its
-- datagrams, and the listener of another node.
use roole.Base.{ℕ, Bool, not, List, [], ◌∷◌, ◌==◌, ltb, if◌then◌else◌}
use roole.Base.Status.{dead}
use roole.PeerPool.{PeerPool}
use roole.ClusterView
use roole.ClusterView.{ClusterMember}
use roole.Gossip.Message.{GossipMessage}
use roole.Gossip.Engine.{Engine, Datagram}
use roole.Gossip.Engine.Ping.{message_from}
use roole.Gossip.Engine.Dispatch.{msg_leave}
use roole.Gossip.Engine.Announce.{leave_update}

-- The bytes, addressed to a member.
abbrev pub addressed : List ℕ → ClusterMember → Datagram
addressed buffer m = record { payload = buffer; dest_ip = m.ip_address; dest_port = m.gossip_port }

abbrev pub is_other : ℕ → ClusterMember → Bool
is_other my_id m = not (m.node_id == my_id)

abbrev pub leave_message : ℕ → Engine → GossipMessage
leave_message now engine = message_from engine msg_leave (leave_update engine now ∷ [])

-- What is left of the entry of a member that leaves with a sequence number.
abbrev pub after_leave : ℕ → ClusterMember → ClusterMember
after_leave sequence_num m =
    if ltb sequence_num m.incarnation
    then m
    else record m { status = dead; incarnation = sequence_num }
