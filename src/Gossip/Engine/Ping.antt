-- ===== src/Gossip/Engine/Ping.antt =====
-- `handle_ping_message` and `handle_ack_message` of src/cluster/gossip_engine.c: the merge of the
-- piggybacked updates, and the reply to a PING. No other thread changes the view between the look-up
-- of a member and the change of it.
use roole.Base.{
  ℕ, zero, suc, ◌+◌, ◌&&◌, ◌||◌, Option, none, some, List, [], ◌∷◌, ◌==◌, ltb, leb, if◌then◌else◌,
  length, get_or, take,
}
use roole.Base.Status.{NodeStatus, alive, suspect, dead, eq_status}
use roole.ClusterView
use roole.ClusterView.{ClusterView, ClusterMember}
use roole.Gossip.Message.{MemberUpdate, GossipMessage, blank_update, max_piggyback_updates}
use roole.Gossip.Engine.{
  MemberEvent, member_join, member_update, Event, Engine, notify, notify_status, queue_update,
  set_view, next_sequence, send,
}
use roole.Gossip.FailureDetector.{remove_pending_ack}

-- A loop `for (i = 0; i < msg->num_updates; i++)` over the updates, with `left` rounds to go. `none`
-- is a read past the array of ten.
unfoldable pub visit_updates :
    (Engine → MemberUpdate → Engine) → List MemberUpdate → ℕ → ℕ → Engine → Option Engine
visit_updates handle updates zero i engine = some engine
visit_updates handle updates (suc left) i engine =
    let rest =
      visit_updates handle updates left (i + 1) (handle engine (get_or updates i blank_update)) in
    if ltb i max_piggyback_updates then rest else none

abbrev pub for_updates : (Engine → MemberUpdate → Engine) → GossipMessage → Engine → Option Engine
for_updates handle msg engine = visit_updates handle msg.updates msg.num_updates 0 engine

-- The member that an update describes.
abbrev pub member_of : MemberUpdate → NodeStatus → ℕ → ClusterMember
member_of u status now = record {
  node_id = u.node_id;
  node_type = u.node_type;
  ip_address = u.ip_address;
  gossip_port = u.gossip_port;
  data_port = u.data_port;
  status = status;
  last_seen_ms = now;
  incarnation = u.incarnation;
}

abbrev pub event_of : MemberUpdate → MemberEvent → Event
event_of u type = record {
  node_id = u.node_id;
  node_type = u.node_type;
  ip = u.ip_address;
  data_port = u.data_port;
  event_type = type;
}

-- A new member that an update names.
abbrev pub discover : ℕ → Engine → MemberUpdate → Engine
discover now engine u =
    notify (set_view engine (ClusterView.add engine.cluster_view (member_of u u.status now) now).1)
      (event_of u member_join)

-- A status and an incarnation number written to the view.
abbrev pub set_status : ℕ → Engine → ℕ → NodeStatus → ℕ → Engine
set_status now engine node_id status incarnation =
    set_view engine (ClusterView.update_status engine.cluster_view node_id status incarnation now).1

-- One round of the loop of `handle_ping_message`.
unfoldable pub merge_ping : ℕ → Engine → MemberUpdate → Engine
unfolding notify_status
merge_ping now engine u = elim (ClusterView.get engine.cluster_view u.node_id) [
  | none ↦ queue_update (discover now engine u) (record u { timestamp_ms = now })
  | some existing ↦
      let newer = ltb existing.incarnation u.incarnation in
      let rejoined =
        notify (set_view engine (ClusterView.add engine.cluster_view (member_of u alive now) now).1)
          (event_of u member_update) in
      let updated = set_status now engine u.node_id u.status u.incarnation in
      if (eq_status existing.status dead && eq_status u.status alive) && newer
      then rejoined
      else if newer
      then if eq_status u.status existing.status then updated else notify_status updated u
      else engine
]

-- The update that describes a member.
abbrev pub update_of : ℕ → ClusterMember → MemberUpdate
update_of now m = record {
  node_id = m.node_id;
  node_type = m.node_type;
  ip_address = m.ip_address;
  gossip_port = m.gossip_port;
  data_port = m.data_port;
  status = m.status;
  incarnation = m.incarnation;
  timestamp_ms = now;
}

-- The loop that copies members to a message which has `n` updates, except DEAD ones and ourselves.
unfoldable pub snapshot_loop : ℕ → ℕ → ℕ → List ClusterMember → ℕ → List MemberUpdate
snapshot_loop my_id now limit [] n = []
snapshot_loop my_id now limit (m ∷ ms) n =
    let skipped = snapshot_loop my_id now limit ms n in
    let rest = snapshot_loop my_id now limit ms (n + 1) in
    if eq_status m.status dead || m.node_id == my_id
    then skipped
    else update_of now m ∷ (if leb limit (n + 1) then [] else rest)

-- The state of the cluster that a message carries, from the first `limit` members.
abbrev pub snapshot : Engine → ℕ → ℕ → List MemberUpdate
snapshot engine now limit =
    snapshot_loop engine.my_id now limit (take limit engine.cluster_view.members) 0

-- A message from this node.
abbrev pub message_from : Engine → ℕ → List MemberUpdate → GossipMessage
message_from engine msg_type updates = record {
  version = 1;
  msg_type = msg_type;
  flags = 0;
  sender_id = engine.my_id;
  sequence_num = engine.sequence_num;
  num_updates = length updates;
  updates = updates;
}

abbrev pub msg_ping : ℕ
msg_ping = 1

abbrev pub msg_ack : ℕ
msg_ack = 2

-- The reply to a PING.
abbrev pub send_ack : ℕ → Engine → List ℕ → ℕ → Engine
send_ack now engine src_ip src_port =
    let ack = message_from engine msg_ack (snapshot engine now max_piggyback_updates) in
    send (next_sequence engine) ack src_ip src_port

-- `handle_ping_message`.
unfoldable pub handle_ping_message : ℕ → Engine → GossipMessage → List ℕ → ℕ → Option Engine
handle_ping_message now engine msg src_ip src_port =
    elim (for_updates (merge_ping now) msg engine) [
      | none ↦ none
      | some merged ↦ some (send_ack now merged src_ip src_port)
    ]

-- One round of the loop of `handle_ack_message`.
unfoldable pub merge_ack : ℕ → Engine → MemberUpdate → Engine
merge_ack now engine u = elim (ClusterView.get engine.cluster_view u.node_id) [
  | none ↦ discover now engine u
  | some existing ↦
      if ltb existing.incarnation u.incarnation
      then set_status now engine u.node_id u.status u.incarnation
      else engine
]

-- The recovery of a SUSPECT member that answers.
unfoldable pub recover : ℕ → Engine → ℕ → Engine
recover now engine sender_id = elim (ClusterView.get engine.cluster_view sender_id) [
  | none ↦ engine
  | some member ↦
      if eq_status member.status suspect
      then set_status now engine sender_id alive member.incarnation
      else engine
]

-- `handle_ack_message`.
unfoldable pub handle_ack_message : ℕ → Engine → GossipMessage → Option Engine
unfolding recover
handle_ack_message now engine msg =
    for_updates (merge_ack now) msg
      (recover now (remove_pending_ack engine msg.sender_id).1 msg.sender_id)
