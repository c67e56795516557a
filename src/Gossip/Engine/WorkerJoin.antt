-- ===== src/Gossip/Engine/WorkerJoin.antt =====
-- `handle_worker_join_message` of src/cluster/gossip_engine.c: a router takes in a worker, puts it in
-- the pool of peers, tells the cluster, and answers with the list of routers. The pool is the one
-- of the service registry, if it has one; `connected` says whether the channel to the worker was
-- allocated and `rpc_client_connect` succeeded. The test message on the channel is left out.
use roole.Base.{
  ℕ, zero, suc, ◌+◌, ◌-◌, ◌/◌, ◌%◌, ◌^◌, Bool, false, not, ◌&&◌, ◌||◌, Option, none, some, List, [],
  ◌∷◌, ◌++◌, ◌==◌, ltb, if◌then◌else◌, length, get_or, take,
}
use roole.Base.Status.{ok, router, worker, alive, suspect, dead, eq_type, eq_status}
use roole.ClusterView
use roole.ClusterView.{ClusterView, ClusterMember}
use roole.PeerPool
use roole.PeerPool.{PeerPool, Peer}
use roole.Gossip.Bootstrap
use roole.Gossip.Bootstrap.{Router, BootstrapResponse, max_config_routers}
use roole.Gossip.Message.{MemberUpdate, GossipMessage, serialize, blank_update}
use roole.Gossip.Engine.{
  member_join, member_update, Engine, notify, queue_times, set_view, next_sequence, send,
  gossip_max_payload_size,
}
use roole.Gossip.Engine.Ping.{message_from}

abbrev pub msg_alive : ℕ
msg_alive = 5

abbrev pub msg_join_response : ℕ
msg_join_response = 10

-- `%u` of `snprintf`, for a number of at most so many digits.
pub decimal : ℕ → ℕ → List ℕ
decimal zero v = []
decimal (suc digits) v =
    let high = decimal digits (v / 10) in
    if ltb v 10 then (48 + v) ∷ [] else high ++ (48 + v % 10) ∷ []

-- `snprintf(field, MAX_CONFIG_STRING, "%s:%u", ip, port)`, the port of 16 bits.
unfoldable pub format_address : List ℕ → ℕ → List ℕ
unfolding decimal
format_address ip port = take 255 (ip ++ 58 ∷ decimal 5 port)

abbrev pub router_of : ClusterMember → Router
router_of m = record {
  node_id = m.node_id;
  gossip_addr = format_address m.ip_address m.gossip_port;
  data_addr = format_address m.ip_address m.data_port;
}

-- The loop that collects the routers that are ALIVE, with `n` of them in the response.
unfoldable pub list_routers : List ClusterMember → ℕ → List Router
list_routers [] n = []
list_routers (m ∷ ms) n =
    let taken = list_routers ms (n + 1) in
    let skipped = list_routers ms n in
    if eq_type m.node_type router && eq_status m.status alive && ltb n max_config_routers
    then router_of m ∷ taken
    else skipped

-- The end of the handler: the JOIN_RESPONSE.
unfoldable pub send_join_response : Engine → List ℕ → ℕ → Engine
unfolding list_routers
send_join_response engine src_ip src_port =
    let routers = list_routers engine.cluster_view.members 0 in
    let resp : BootstrapResponse = record { num_routers = length routers; routers = routers } in
    let engine' = next_sequence engine in
    elim (serialize (message_from engine msg_join_response []) gossip_max_payload_size) [
      | none ↦ engine'
      | some none ↦ engine'
      | some (some head) ↦ elim (Bootstrap.serialize resp (gossip_max_payload_size - length head)) [
        | none ↦ engine'
        | some body ↦ record engine' {
          sent =
              engine'.sent
              ++ record { payload = head ++ body; dest_ip = src_ip; dest_port = src_port } ∷ [];
        }
      ]
    ]

-- The messages sent at once to the other members that are not DEAD.
unfoldable pub burst : List ClusterMember → Engine → MemberUpdate → Engine
burst [] engine u = engine
burst (m ∷ ms) engine u =
    let told =
      send (next_sequence engine) (message_from engine msg_alive (u ∷ [])) m.ip_address
        m.gossip_port in
    let skip = burst ms engine u in
    let next = burst ms told u in
    if (m.node_id == engine.my_id || m.node_id == u.node_id) || eq_status m.status dead
    then skip
    else next

-- What the view has of the sender: whether it is rejoining, and its next incarnation number.
abbrev pub rejoining : Option ClusterMember → Bool × ℕ
rejoining none = (false, 0)
rejoining (some existing) = (
  eq_status existing.status dead || eq_status existing.status suspect,
  (existing.incarnation + 1) % 2 ^ 64,
)

-- The member that a WORKER_JOIN adds, and its update.
abbrev pub worker_member : ℕ → Option ClusterMember → MemberUpdate → List ℕ → ClusterMember
worker_member now existing u src_ip = record {
  node_id = u.node_id;
  node_type = worker;
  ip_address = src_ip;
  gossip_port = u.gossip_port;
  data_port = u.data_port;
  status = alive;
  last_seen_ms = now;
  incarnation = if (rejoining existing).0 then (rejoining existing).1 else u.incarnation;
}

abbrev pub worker_update : ℕ → ClusterMember → MemberUpdate
worker_update now m = record {
  node_id = m.node_id;
  node_type = worker;
  ip_address = m.ip_address;
  gossip_port = m.gossip_port;
  data_port = m.data_port;
  status = alive;
  incarnation = m.incarnation;
  timestamp_ms = now;
}

-- The view, the callback and the queue after a WORKER_JOIN with an update, and the burst.
unfoldable pub take_worker : ℕ → Engine → ℕ → MemberUpdate → List ℕ → Engine
unfolding queue_times burst
take_worker now engine sender_id u src_ip =
    let existing = ClusterView.get engine.cluster_view sender_id in
    let back = (rejoining existing).0 in
    let member = worker_member now existing u src_ip in
    let added = set_view engine (ClusterView.add engine.cluster_view member now).1 in
    let told = notify added (record {
      node_id = u.node_id;
      node_type = worker;
      ip = src_ip;
      data_port = u.data_port;
      event_type = if back then member_update else member_join;
    }) in
    let queued = queue_times (if back then 10 else 5) told (worker_update now member) in
    burst queued.cluster_view.members queued (worker_update now member)

module _ {F : Type 0} (unloaded : F) where
  -- The worker in the pool, with a channel if it can be opened.
  unfoldable pub pool_worker : PeerPool F → MemberUpdate → List ℕ → Bool → ℕ → PeerPool F
  pool_worker pool u src_ip connected now =
      let (status, pool') =
        PeerPool.add unloaded pool u.node_id src_ip u.gossip_port u.data_port now in
      let opened : Peer F → Peer F = λ p. record p { has_channel = p.has_channel || connected } in
      elim status [ ok ↦ (PeerPool.change pool' u.node_id opened).1 | _ ↦ pool' ]

  -- `handle_worker_join_message`.
  unfoldable pub handle_worker_join_message :
      ℕ
      → Engine
      → Option (PeerPool F)
      → GossipMessage
      → List ℕ
      → ℕ
      → Bool
      → Engine × Option (PeerPool F)
  unfolding take_worker pool_worker send_join_response
  handle_worker_join_message now engine pool msg src_ip src_port connected =
      let u = get_or msg.updates 0 blank_update in
      let taken = take_worker now engine msg.sender_id u src_ip in
      let pool' : Option (PeerPool F) = elim pool [
        | none ↦ none
        | some p ↦ some (pool_worker p u src_ip connected now)
      ] in
      if not (eq_type engine.my_type router)
      then (engine, pool)
      else if ltb 0 msg.num_updates
      then (send_join_response taken src_ip src_port, pool')
      else (send_join_response engine src_ip src_port, pool)
