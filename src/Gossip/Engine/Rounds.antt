-- ===== src/Gossip/Engine/Rounds.antt =====
-- The rounds of `gossip_protocol_thread` of src/cluster/gossip_engine.c: what they keep, and that
-- they do not fault.
use native.Mathlib.Nat.{mod-lt}
use roole.Base.{
  ◌&&◌, set, length-set, ℕ, zero, suc, ◌+◌, ◌-◌, ◌%◌, ◌≤◌, ◌≡◌, refl, inl, inr, Bool, true, false,
  some, List, [], ◌∷◌, ◌==◌, arith, length, get_or, get_elem?, take, ltb, if◌then◌else◌, Bool-cases,
  Option-cases, both, ◌∙◌, length-take,
}
use roole.Base.Int.{ℤ, pos, negsuc}
use roole.Base.Status.{dead}
use roole.Slots
use roole.Slots.Laws.{length-claim}
use roole.Table
use roole.Table.Laws.{length-modify}
use roole.Table.Distinct.{modify-IsDistinct}
use roole.ClusterView
use roole.ClusterView.{ClusterView, ClusterMember, member_id}
use roole.Gossip.Message.{MemberUpdate, max_piggyback_updates}
use roole.Gossip.UpdateQueue.{pop_batch}
use roole.Gossip.UpdateQueue.Batch.{update_pop_batch_lem}
use roole.Gossip.Engine.{PendingAck, Engine, next_sequence, send}
use roole.Gossip.Engine.Ping.{snapshot_loop, snapshot, message_from, msg_ping}
use roole.Gossip.Engine.Protocol.{
  refreshed, update_self, ping_updates, send_ping_to_node, is_lost, bury, check_suspects,
  check_suspect_timeouts, gossip_to, gossip_rounds, gossip_to_random_peers, protocol_round,
}
use roole.Gossip.Engine.WorkerJoin.{msg_alive}
use roole.Gossip.FailureDetector.{target, is_active, add_pending_ack, check_ack_timeouts}
use roole.Gossip.FailureDetector.Validity.{check_ack_timeouts-IsValid}
use roole.Gossip.Engine.Validity.{
  IsValid, set_view-IsValid, queue_update-IsValid, notify-IsValid, set_status-IsValid,
}
use roole.Gossip.Engine.Peers.{list_peers-total, select_random_peer-total}
use roole.Gossip.Engine.Safety.{Safe, send-IsValid}

update_self-IsValid :
    (now : ℕ) (engine : Engine) → IsValid engine → IsValid (update_self now engine)
unfolding update_self
update_self-IsValid now engine v =
    let f : (ClusterMember → ClusterMember) = refreshed now engine.incarnation in
    let members = engine.cluster_view.members in
    elim (Option-cases (Table.modify member_id engine.my_id f members)) [
      | inl absent ↦ rw (absent, update_self) v
      | inr (ms, e) ↦
          rw (e, update_self)
            (set_view-IsValid engine _ v (record {
              distinct =
                  modify-IsDistinct member_id engine.my_id f members ms (λ m h. h) v.view.distinct
                    e;
              bounded =
                  omega
                    (arith, length-modify member_id engine.my_id f members ms e, v.view.bounded);
            }))
    ]

length-snapshot_loop :
    (my_id now limit : ℕ) (ms : List ClusterMember) (n : ℕ)
    → length (snapshot_loop my_id now limit ms n) ≤ length ms
unfolding snapshot_loop
length-snapshot_loop my_id now limit [] n = omega arith
length-snapshot_loop my_id now limit (m ∷ ms) n = ground (
  arith,
  length-snapshot_loop my_id now limit ms n,
  length-snapshot_loop my_id now limit ms (n + 1),
)

pub length-snapshot : (engine : Engine) (now limit : ℕ) → length (snapshot engine now limit) ≤ limit
length-snapshot engine now limit = omega (
  arith,
  length-snapshot_loop engine.my_id now limit (take limit engine.cluster_view.members) 0,
  length-take limit engine.cluster_view.members,
)

add_pending_ack-IsValid :
    (engine : Engine) (node now : ℕ) → IsValid engine → IsValid (add_pending_ack engine node now).1
add_pending_ack-IsValid engine node now v =
    let waiting : PendingAck = record { target_node = node; ping_sent_ms = now; active = true } in
    elim (Option-cases (Slots.claim target is_active waiting engine.acks)) [
      | inl full ↦ rw (full, add_pending_ack) v
      | inr (acks, got) ↦
          rw (got, add_pending_ack)
            (record {
              view = v.view;
              queue = v.queue;
              waits = length-claim target is_active waiting engine.acks acks got ∙ v.waits;
              piggyback = v.piggyback;
            })
    ]

ping_updates-IsValid :
    (now : ℕ) (engine : Engine)
    → IsValid engine
    → let (updates, engine') = ping_updates now engine in
      (length updates ≤ max_piggyback_updates) × IsValid engine'
unfolding ping_updates
ping_updates-IsValid now engine v =
    let popped = pop_batch engine.update_queue engine.config.max_piggyback in
    let (queue, few, order) =
      update_pop_batch_lem engine.update_queue engine.config.max_piggyback v.queue in
    let engine' : Engine = record engine { update_queue = popped.1 } in
    let w : IsValid engine' = record {
      view = v.view;
      queue = queue;
      waits = v.waits;
      piggyback = v.piggyback;
    } in
    let P : (List MemberUpdate × Engine → Type 0) =
      λ r. (length r.0 ≤ max_piggyback_updates) × IsValid r.1 in
    both P (length popped.0 == 0) (length-snapshot engine' now max_piggyback_updates, w)
      (omega (arith, few, v.piggyback), w)

send_ping_to_node-Safe :
    (now : ℕ) (engine : Engine) (target_node : ℕ) (delivered : Bool)
    → IsValid engine
    → (result : ℤ) × (engine' : Engine) × (send_ping_to_node now engine target_node delivered
        ≡ some (result, engine'))
      × IsValid engine'
unfolding send_ping_to_node
send_ping_to_node-Safe now engine target_node delivered v =
    elim (Option-cases (ClusterView.get engine.cluster_view target_node)) [
      | inl absent ↦ (negsuc 0, engine, rw (absent, send_ping_to_node), v)
      | inr (m, found) ↦
          let r = ping_updates now engine in
          let (few, w) = ping_updates-IsValid now engine v in
          let fits : ltb max_piggyback_updates (length r.0) ≡ false = ground arith in
          let sent =
            send (next_sequence r.1) (message_from r.1 msg_ping r.0) m.ip_address m.gossip_port in
          let sent-IsValid : IsValid sent = send-IsValid r.1 _ _ _ w in
          elim (Bool-cases delivered) [
            | inl sends ↦ (
              pos 0,
              (add_pending_ack sent target_node now).1,
              rw (found, fits, sends, send_ping_to_node),
              add_pending_ack-IsValid sent target_node now sent-IsValid,
            )
            | inr fails ↦ (negsuc 0, sent, rw (found, fits, fails, send_ping_to_node), sent-IsValid)
          ]
    ]

check_suspects-IsValid :
    (now left i : ℕ) (engine : Engine) → IsValid engine → IsValid (check_suspects now left i engine)
unfolding check_suspects
check_suspects-IsValid now Prim.Native.Nat.zero i engine v = v
check_suspects-IsValid now (suc left) i engine v =
    elim (Option-cases (get_elem? engine.cluster_view.members i)) [
      | inl past ↦ rw past (check_suspects-IsValid now left (i + 1) engine v)
      | inr (m, there) ↦
          let w : IsValid (bury now engine m) = notify-IsValid _ _ (
            queue_update-IsValid _ _
              (set_status-IsValid now engine m.node_id dead m.incarnation v)) in
          rw there (
            check_suspects-IsValid now left (i + 1) _
              (both IsValid (is_lost engine.config.dead_timeout_ms now m) w v))
    ]

gossip_to-Safe :
    (now : ℕ) (engine : Engine) (k : ℕ) → IsValid engine → Safe (gossip_to now engine k)
unfolding gossip_to
gossip_to-Safe now engine k v =
    let updates = snapshot engine now engine.config.max_piggyback in
    let fits : ltb max_piggyback_updates (length updates) ≡ false =
      ground (arith, length-snapshot engine now engine.config.max_piggyback, v.piggyback) in
    elim (Option-cases (ClusterView.get engine.cluster_view k)) [
      | inl absent ↦ (engine, rw (absent, gossip_to), v)
      | inr (m, found) ↦ (
        send (next_sequence engine) (message_from engine msg_alive updates) m.ip_address
            m.gossip_port,
        rw (found, fits, gossip_to),
        send-IsValid engine _ _ _ v,
      )
    ]

gossip_rounds-Safe :
    (now : ℕ) (rands peers : List ℕ) (left i : ℕ) (engine : Engine)
    → i + left ≤ length peers
    → IsValid engine
    → Safe (gossip_rounds now rands peers left i engine)
unfolding gossip_rounds
gossip_rounds-Safe now rands peers Prim.Native.Nat.zero i engine h v = (engine, refl, v)
gossip_rounds-Safe now rands peers (suc left) i engine h v =
    let j : ℕ = i + get_or rands i 0 % (length peers - i) in
    let peers' = set (set peers i (get_or peers j 0)) j (get_or peers i 0) in
    let inside : (ltb i (length peers) && ltb j (length peers)) ≡ true =
      ground (arith, mod-lt (get_or rands i 0) {m = length peers - i} (omega (arith, h))) in
    let same : length peers' ≡ length peers =
      length-set (set peers i (get_or peers j 0)) j _ ∙ length-set peers i _ in
    let (next, e, w) = gossip_to-Safe now engine (get_or peers' i 0) v in
    rw (inside, e, gossip_rounds)
      (gossip_rounds-Safe now rands peers' left (i + 1) next (omega (arith, h, same)) w)

gossip_to_random_peers-Safe :
    (now : ℕ) (rands : List ℕ) (engine : Engine)
    → IsValid engine
    → Safe (gossip_to_random_peers now rands engine)
unfolding gossip_to_random_peers
gossip_to_random_peers-Safe now rands engine v =
    let (peers, e) = list_peers-total engine.my_id engine.cluster_view.members [] in
    let fanout =
      if ltb (length peers) engine.config.fanout then length peers else engine.config.fanout in
    rw (e, gossip_to_random_peers)
      (both Safe (length peers == 0) (engine, refl, v)
        (gossip_rounds-Safe now rands peers fanout 0 engine (ground arith) v))

-- A round of the protocol thread of a well-formed engine, whatever peers are chosen and whether or
-- not the PING is delivered, does not write past the 512 peers that a list of them holds or the ten updates
-- of a message, uses no peer that was not listed, and leaves the engine well formed.
pub protocol_round-Safe :
    (now : ℕ) (engine : Engine) (round rand : ℕ) (delivered : Bool) (rands : List ℕ)
    → IsValid engine
    → Safe (protocol_round now engine round rand delivered rands)
unfolding protocol_round check_suspect_timeouts
protocol_round-Safe now engine round rand delivered rands v =
    let ready = update_self now engine in
    let w = update_self-IsValid now engine v in
    let (target, chosen) = select_random_peer-total ready rand in
    let later : (e : Engine)
        → IsValid e
        → IsValid (check_suspect_timeouts now (check_ack_timeouts e now)) =
      λ e x.
        let checked = check_ack_timeouts e now in
        check_suspects-IsValid now (length checked.cluster_view.members) 0 checked
          (check_ack_timeouts-IsValid e now x) in
    let finish : (e : Engine)
        → IsValid e
        → Safe (
            let checked = check_suspect_timeouts now (check_ack_timeouts e now) in
            if round % 3 == 0 then gossip_to_random_peers now rands checked else some checked) =
      λ e x.
        both Safe (round % 3 == 0) (gossip_to_random_peers-Safe now rands _ (later e x))
          (_, refl, later e x) in
    elim (Bool-cases (target == 0)) [
      | inl alone ↦ rw (chosen, alone, protocol_round) (finish ready w)
      | inr some_peer ↦
          let (result, pinged, e, x) = send_ping_to_node-Safe now ready target delivered w in
          rw (chosen, some_peer, e, protocol_round) (finish pinged x)
    ]
