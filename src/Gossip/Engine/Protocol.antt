-- ===== src/Gossip/Engine/Protocol.antt =====
-- The SWIM protocol loop of src/cluster/gossip_engine.c: `gossip_protocol_thread` and its helpers.
-- No other thread changes the view between two uses of it in one helper. The numbers that `rand`
-- returns and whether `sendto` succeeds are arguments.
use roole.Base.{
  ℕ, zero, suc, ◌+◌, ◌-◌, ◌%◌, ◌^◌, Bool, ◌&&◌, ◌||◌, Option, none, some, List, [], ◌∷◌, ◌++◌, ◌==◌,
  ltb, if◌then◌else◌, length, get_elem?, get_or, set,
}
use roole.Base.Int.{ℤ, pos, negsuc}
use roole.Base.Status.{alive, suspect, dead, eq_status}
use roole.Table
use roole.ClusterView
use roole.ClusterView.{ClusterView, ClusterMember, member_id}
use roole.Gossip.Message.{MemberUpdate, max_piggyback_updates}
use roole.Gossip.UpdateQueue.{pop_batch}
use roole.Gossip.Engine.{member_leave, Engine, notify, queue_update, set_view, next_sequence, send}
use roole.Gossip.Engine.Ping.{snapshot, message_from, update_of, set_status, msg_ping}
use roole.Gossip.Engine.WorkerJoin.{msg_alive}
use roole.Gossip.FailureDetector.{add_pending_ack, check_ack_timeouts}

-- The entry of this node after `update_self_in_cluster_view`.
abbrev pub refreshed : ℕ → ℕ → ClusterMember → ClusterMember
refreshed now incarnation m = record m {
  last_seen_ms = now;
  incarnation = incarnation;
  status = alive;
}

-- `update_self_in_cluster_view`.
unfoldable pub update_self : ℕ → Engine → Engine
update_self now engine =
    let members = engine.cluster_view.members in
    elim (Table.modify member_id engine.my_id (refreshed now engine.incarnation) members) [
      | none ↦ engine
      | some ms ↦ set_view engine (record engine.cluster_view { members = ms })
    ]

abbrev pub max_cluster_nodes : ℕ
max_cluster_nodes = 512

-- `peer_list[peer_count++] = node_id`; `none` is a write past the array.
abbrev pub write_peer : List ℕ → ℕ → Option (List ℕ)
write_peer peers node_id =
    if ltb (length peers) max_cluster_nodes then some (peers ++ node_id ∷ []) else none

-- The loop that lists the members that may be pinged or gossiped to, after those in `peers`.
unfoldable pub list_peers : ℕ → List ClusterMember → List ℕ → Option (List ℕ)
list_peers my_id [] peers = some peers
list_peers my_id (m ∷ ms) peers =
    let next : Option (List ℕ) =
      if m.node_id == my_id || eq_status m.status dead
      then some peers
      else if ltb (length peers) max_cluster_nodes
      then write_peer peers m.node_id
      else some peers in
    elim next [ none ↦ none | some peers' ↦ list_peers my_id ms peers' ]

-- `select_random_peer`: the peer, 0 if there is none.
unfoldable pub select_random_peer : Engine → ℕ → Option ℕ
unfolding list_peers
select_random_peer engine rand = elim (list_peers engine.my_id engine.cluster_view.members []) [
  | none ↦ none
  | some peers ↦ some (if length peers == 0 then 0 else get_or peers (rand % length peers) 0)
]

-- The updates that a PING carries, and the engine after they were taken out of the queue.
unfoldable pub ping_updates : ℕ → Engine → List MemberUpdate × Engine
ping_updates now engine =
    let (popped, queue) = pop_batch engine.update_queue engine.config.max_piggyback in
    let engine' = record engine { update_queue = queue } in
    if length popped == 0
    then (snapshot engine' now max_piggyback_updates, engine')
    else (popped, engine')

-- `send_ping_to_node`; `delivered` is whether `gossip_send_udp` succeeds. `none` is a write past the
-- array of ten updates.
unfoldable pub send_ping_to_node : ℕ → Engine → ℕ → Bool → Option (ℤ × Engine)
unfolding ping_updates
send_ping_to_node now engine target_node delivered =
    elim (ClusterView.get engine.cluster_view target_node) [
      | none ↦ some (negsuc 0, engine)
      | some target ↦
          let (updates, engine') = ping_updates now engine in
          let sent =
            send (next_sequence engine') (message_from engine' msg_ping updates) target.ip_address
              target.gossip_port in
          if ltb max_piggyback_updates (length updates)
          then none
          else if delivered
          then some (pos 0, (add_pending_ack sent target_node now).1)
          else some (negsuc 0, sent)
    ]

-- Whether a member has been SUSPECT for too long, by a subtraction of `uint64_t`.
abbrev pub is_lost : ℕ → ℕ → ClusterMember → Bool
is_lost timeout now m =
    eq_status m.status suspect && ltb timeout ((now + 2 ^ 64 - m.last_seen_ms) % 2 ^ 64)

-- A member that is given up.
abbrev pub bury : ℕ → Engine → ClusterMember → Engine
bury now engine m =
    notify
      (queue_update (set_status now engine m.node_id dead m.incarnation)
        (record (update_of now m) { status = dead }))
      (record {
        node_id = m.node_id;
        node_type = m.node_type;
        ip = m.ip_address;
        data_port = m.data_port;
        event_type = member_leave;
      })

-- The loop of `check_suspect_timeouts` from index `i` on, with `left` rounds to go.
unfoldable pub check_suspects : ℕ → ℕ → ℕ → Engine → Engine
check_suspects now zero i engine = engine
check_suspects now (suc left) i engine =
    let next : Engine = elim (get_elem? engine.cluster_view.members i) [
      | none ↦ engine
      | some m ↦ if is_lost engine.config.dead_timeout_ms now m then bury now engine m else engine
    ] in
    check_suspects now left (i + 1) next

-- `check_suspect_timeouts`.
unfoldable pub check_suspect_timeouts : ℕ → Engine → Engine
unfolding check_suspects
check_suspect_timeouts now engine = check_suspects now (length engine.cluster_view.members) 0 engine

-- The state sent to one peer by `gossip_to_random_peers`. `none` is a write past the array of ten.
unfoldable pub gossip_to : ℕ → Engine → ℕ → Option Engine
gossip_to now engine peer_id = elim (ClusterView.get engine.cluster_view peer_id) [
  | none ↦ some engine
  | some peer ↦
      let updates = snapshot engine now engine.config.max_piggyback in
      if ltb max_piggyback_updates (length updates)
      then none
      else some (
          send (next_sequence engine) (message_from engine msg_alive updates) peer.ip_address
            peer.gossip_port)
]

-- `none` is an access past the peers that were listed.
abbrev pub swap : List ℕ → ℕ → ℕ → Option (List ℕ)
swap xs i j =
    if ltb i (length xs) && ltb j (length xs)
    then some (set (set xs i (get_or xs j 0)) j (get_or xs i 0))
    else none

-- The shuffle of `gossip_to_random_peers` from place `i` on, with `left` rounds to go.
unfoldable pub gossip_rounds : ℕ → List ℕ → List ℕ → ℕ → ℕ → Engine → Option Engine
gossip_rounds now rands peers zero i engine = some engine
gossip_rounds now rands peers (suc left) i engine =
    elim (swap peers i (i + get_or rands i 0 % (length peers - i))) [
      | none ↦ none
      | some peers' ↦ elim (gossip_to now engine (get_or peers' i 0)) [
        | none ↦ none
        | some engine' ↦ gossip_rounds now rands peers' left (i + 1) engine'
      ]
    ]

-- `gossip_to_random_peers`.
unfoldable pub gossip_to_random_peers : ℕ → List ℕ → Engine → Option Engine
unfolding list_peers gossip_rounds
gossip_to_random_peers now rands engine =
    elim (list_peers engine.my_id engine.cluster_view.members []) [
      | none ↦ none
      | some peers ↦
          let fanout =
            if ltb (length peers) engine.config.fanout
            then length peers
            else engine.config.fanout in
          if length peers == 0 then some engine else gossip_rounds now rands peers fanout 0 engine
    ]

-- One round of `gossip_protocol_thread`, with its number. `rand` chooses the peer to ping and `rands`
-- the peers to gossip to. The statistics that every tenth round logs are left out.
unfoldable pub protocol_round : ℕ → Engine → ℕ → ℕ → Bool → List ℕ → Option Engine
unfolding update_self select_random_peer
protocol_round now engine round rand delivered rands =
    let ready = update_self now engine in
    let pinged : Option Engine = elim (select_random_peer ready rand) [
      | none ↦ none
      | some target ↦
          if target == 0 then some ready else elim (send_ping_to_node now ready target delivered) [
            | none ↦ none
            | some (result, engine') ↦ some engine'
          ]
    ] in
    elim pinged [
      | none ↦ none
      | some engine' ↦
          let checked = check_suspect_timeouts now (check_ack_timeouts engine' now) in
          if round % 3 == 0 then gossip_to_random_peers now rands checked else some checked
    ]
