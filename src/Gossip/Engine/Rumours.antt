-- ===== src/Gossip/Engine/Rumours.antt =====
-- The handlers of SUSPECT, ALIVE, DEAD, JOIN and LEAVE messages of src/cluster/gossip_engine.c. No
-- other thread changes the view between the look-up of a member and the change of it.
use roole.Base.{
  ℕ, zero, suc, ◌+◌, ◌%◌, ◌^◌, Bool, not, ◌&&◌, Option, none, some, List, ◌==◌, ltb, leb,
  if◌then◌else◌, get_or,
}
use roole.Base.Status.{alive, suspect, dead, eq_status}
use roole.ClusterView
use roole.ClusterView.{ClusterView, ClusterMember}
use roole.Gossip.Message.{MemberUpdate, GossipMessage, blank_update, max_piggyback_updates}
use roole.Gossip.Engine.{
  member_join, member_leave, Engine, notify, queue_update, queue_times, set_view,
}
use roole.Gossip.Engine.Ping.{for_updates, member_of, event_of, set_status}

-- The update by which this node describes itself as ALIVE.
abbrev pub self_update : Engine → ℕ → MemberUpdate
self_update engine now = record {
  node_id = engine.my_id;
  node_type = engine.my_type;
  ip_address = engine.my_ip;
  gossip_port = engine.gossip_port;
  data_port = engine.data_port;
  status = alive;
  incarnation = engine.incarnation;
  timestamp_ms = now;
}

-- A suspicion of this node is refuted with a higher incarnation number.
unfoldable pub refute : ℕ → Engine → Engine
unfolding queue_times
refute now engine =
    let raised = record engine { incarnation = (engine.incarnation + 1) % 2 ^ 64 } in
    queue_times 3 raised (self_update raised now)

-- One round of the loop of `handle_suspect_message`.
unfoldable pub hear_suspect : ℕ → Engine → MemberUpdate → Engine
unfolding refute
hear_suspect now engine u =
    let member = ClusterView.get engine.cluster_view u.node_id in
    let should_suspect : Bool = elim member [
      | none ↦ Bool.false
      | some existing ↦ leb existing.incarnation u.incarnation && eq_status existing.status alive
    ] in
    let marked = queue_update (set_status now engine u.node_id suspect u.incarnation) u in
    if u.node_id == engine.my_id && eq_status u.status suspect
    then refute now engine
    else if not (u.node_id == engine.my_id) && eq_status u.status suspect
    then if should_suspect then marked else engine
    else engine

-- `handle_suspect_message`.
unfoldable pub handle_suspect_message : ℕ → Engine → GossipMessage → Option Engine
handle_suspect_message now engine msg = for_updates (hear_suspect now) msg engine

-- One round of the loop of `handle_alive_message`.
unfoldable pub hear_alive : ℕ → Engine → MemberUpdate → Engine
hear_alive now engine u = elim (ClusterView.get engine.cluster_view u.node_id) [
  | none ↦ engine
  | some existing ↦
      if ltb existing.incarnation u.incarnation
      then queue_update (set_status now engine u.node_id alive u.incarnation) u
      else engine
]

-- `handle_alive_message`.
unfoldable pub handle_alive_message : ℕ → Engine → GossipMessage → Option Engine
handle_alive_message now engine msg = for_updates (hear_alive now) msg engine

-- One round of the loop of `handle_dead_message`.
unfoldable pub hear_dead : ℕ → Engine → MemberUpdate → Engine
hear_dead now engine u = elim (ClusterView.get engine.cluster_view u.node_id) [
  | none ↦ engine
  | some existing ↦ notify (set_status now engine u.node_id dead u.incarnation) (record {
    node_id = u.node_id;
    node_type = existing.node_type;
    ip = existing.ip_address;
    data_port = existing.data_port;
    event_type = member_leave;
  })
]

-- `handle_dead_message`.
unfoldable pub handle_dead_message : ℕ → Engine → GossipMessage → Option Engine
handle_dead_message now engine msg = for_updates (hear_dead now) msg engine

-- The member that a JOIN adds: it has the address that the message came from.
abbrev pub admit : ℕ → Engine → MemberUpdate → List ℕ → Engine
admit now engine u src_ip =
    queue_update
      (notify
        (set_view engine
          (ClusterView.add engine.cluster_view
            (record (member_of u alive 0) { ip_address = src_ip }) now).1)
        (event_of u member_join))
      u

-- The loop of `handle_join_message` from update `i` on, which ends at the update of the sender.
unfoldable pub join_updates : ℕ → List ℕ → ℕ → List MemberUpdate → ℕ → ℕ → Engine → Option Engine
join_updates now src_ip sender_id updates zero i engine = some engine
join_updates now src_ip sender_id updates (suc left) i engine =
    let u = get_or updates i blank_update in
    let rest = join_updates now src_ip sender_id updates left (i + 1) engine in
    if ltb i max_piggyback_updates
    then if u.node_id == sender_id then some (admit now engine u src_ip) else rest
    else none

-- `handle_join_message`.
unfoldable pub handle_join_message : ℕ → Engine → GossipMessage → List ℕ → Option Engine
handle_join_message now engine msg src_ip =
    join_updates now src_ip msg.sender_id msg.updates msg.num_updates 0 engine

-- What `dispatch_message` does with a LEAVE.
unfoldable pub handle_leave : ℕ → Engine → GossipMessage → Engine
handle_leave now engine msg = set_status now engine msg.sender_id dead msg.sequence_num
