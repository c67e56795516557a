-- ===== src/Gossip/Engine/Safety.antt =====
-- Whole messages at `dispatch_message` and `gossip_listener_thread` of
-- src/cluster/gossip_engine.c: what they keep, and that they do not fault.
use roole.Base.{
  ℕ, zero, suc, ◌+◌, ◌≤◌, ◌≡◌, refl, ap, inl, inr, Bool, true, not, ◌||◌, ◌-◌, Option, none, some,
  List, [], ◌∷◌, ◌==◌, arith, length, get_or, ltb, if◌then◌else◌, Option-cases, both,
}
use roole.Base.Status.{dead, router, worker, eq_type, eq_status}
use roole.ClusterView
use roole.ClusterView.{ClusterView, ClusterMember}
use roole.PeerPool.{PeerPool}
use roole.Gossip.Message.{
  MemberUpdate, GossipMessage, blank_update, max_piggyback_updates, serialize,
}
use roole.Gossip.Bootstrap
use roole.Gossip.Bootstrap.{BootstrapResponse}
use roole.Gossip.Engine.{
  Engine, Event, notify, queue_times, set_view, next_sequence, send, gossip_max_payload_size,
  member_join, member_update,
}
use roole.Gossip.Engine.Ping.{
  for_updates, message_from, merge_ping, send_ack, handle_ping_message, msg_ping, msg_ack,
  merge_ack, recover, handle_ack_message,
}
use roole.Gossip.FailureDetector.{remove_pending_ack}
use roole.Gossip.Engine.Rumours.{
  hear_suspect, handle_suspect_message, hear_alive, handle_alive_message, hear_dead,
  handle_dead_message, admit, join_updates, handle_join_message, handle_leave,
}
use roole.Gossip.Engine.WorkerJoin.{
  burst, take_worker, send_join_response, list_routers, handle_worker_join_message, rejoining,
  worker_member, worker_update, msg_join_response, msg_alive,
}
use roole.Gossip.Engine.Dispatch.{
  dispatch_message, msg_suspect, msg_dead, msg_join, msg_leave, msg_worker_join,
}
use roole.Gossip.Engine.Validity.{
  IsValid, queue_update-IsValid, queue_times-IsValid, notify-IsValid, set_status-IsValid,
  add_member-IsValid, merge_ping-IsValid, merge_ack-IsValid, hear_alive-IsValid, hear_dead-IsValid,
  hear_suspect-IsValid, recover-IsValid, remove_pending_ack-IsValid, visit_updates-keeps,
}

-- A result that is well formed, and no fault.
abbrev pub Safe : Option Engine → Type 0
Safe r = (engine : Engine) × (r ≡ some engine) × IsValid engine

for_updates-Safe :
    (handle : Engine → MemberUpdate → Engine) (msg : GossipMessage)
    → ((engine : Engine) (u : MemberUpdate) → IsValid engine → IsValid (handle engine u))
    → msg.num_updates ≤ max_piggyback_updates
    → (engine : Engine) → IsValid engine
    → Safe (for_updates handle msg engine)
for_updates-Safe handle msg keeps few engine v =
    visit_updates-keeps IsValid handle msg.updates
      (λ n e. keeps e (get_or msg.updates n blank_update)) msg.num_updates 0 engine (omega arith) v

pub send-IsValid :
    (engine : Engine) (m : GossipMessage) (ip : List ℕ) (port : ℕ)
    → IsValid engine
    → IsValid (send (next_sequence engine) m ip port)
send-IsValid engine m ip port v = record {
  view = v.view;
  queue = v.queue;
  waits = v.waits;
  piggyback = v.piggyback;
}

handle_ping_message-Safe :
    (now : ℕ) (engine : Engine) (msg : GossipMessage) (src_ip : List ℕ) (src_port : ℕ)
    → msg.num_updates ≤ max_piggyback_updates
    → IsValid engine
    → Safe (handle_ping_message now engine msg src_ip src_port)
unfolding handle_ping_message
handle_ping_message-Safe now engine msg src_ip src_port few v =
    let (merged, e, w) =
      for_updates-Safe (merge_ping now) msg (merge_ping-IsValid now) few engine v in
    (send_ack now merged src_ip src_port, rw (e, handle_ping_message), send-IsValid merged _ _ _ w)

join_updates-Safe :
    (now : ℕ) (src_ip : List ℕ) (sender_id : ℕ) (us : List MemberUpdate) (left i : ℕ)
    (engine : Engine)
    → i + left ≤ max_piggyback_updates
    → IsValid engine
    → Safe (join_updates now src_ip sender_id us left i engine)
unfolding join_updates
join_updates-Safe now src_ip sender_id us Prim.Native.Nat.zero i engine h v = (engine, refl, v)
join_updates-Safe now src_ip sender_id us (suc left) i engine h v =
    let inside : ltb i max_piggyback_updates ≡ true = ground arith in
    let u = get_or us i blank_update in
    rw inside (
      both Safe (u.node_id == sender_id)
        (
          admit now engine u src_ip,
          refl,
          queue_update-IsValid _ u (notify-IsValid _ _ (add_member-IsValid now engine _ v)),
        )
        (join_updates-Safe now src_ip sender_id us left (i + 1) engine (omega arith) v))

burst-IsValid :
    (ms : List ClusterMember) (engine : Engine) (u : MemberUpdate)
    → IsValid engine
    → IsValid (burst ms engine u)
unfolding burst
burst-IsValid [] engine u v = v
burst-IsValid (m ∷ ms) engine u v =
    both IsValid ((m.node_id == engine.my_id || m.node_id == u.node_id) || eq_status m.status dead)
      (burst-IsValid ms engine u v) (burst-IsValid ms _ u (send-IsValid engine _ _ _ v))

take_worker-IsValid :
    (now : ℕ) (engine : Engine) (k : ℕ) (u : MemberUpdate) (src_ip : List ℕ)
    → IsValid engine
    → IsValid (take_worker now engine k u src_ip)
unfolding take_worker
take_worker-IsValid now engine k u src_ip v =
    let existing = ClusterView.get engine.cluster_view k in
    let back = (rejoining existing).0 in
    let member = worker_member now existing u src_ip in
    let event : Event = record {
      node_id = u.node_id;
      node_type = worker;
      ip = src_ip;
      data_port = u.data_port;
      event_type = if back then member_update else member_join;
    } in
    let told = notify (set_view engine (ClusterView.add engine.cluster_view member now).1) event in
    let queued = queue_times (if back then 10 else 5) told (worker_update now member) in
    let told-IsValid : IsValid told =
      notify-IsValid _ event (add_member-IsValid now engine member v) in
    burst-IsValid queued.cluster_view.members queued (worker_update now member)
      (queue_times-IsValid (if back then 10 else 5) told (worker_update now member) told-IsValid)

send_join_response-IsValid :
    (engine : Engine) (src_ip : List ℕ) (src_port : ℕ)
    → IsValid engine
    → IsValid (send_join_response engine src_ip src_port)
unfolding send_join_response
send_join_response-IsValid engine src_ip src_port v =
    let quiet : IsValid (next_sequence engine) = record {
      view = v.view;
      queue = v.queue;
      waits = v.waits;
      piggyback = v.piggyback;
    } in
    let head = serialize (message_from engine msg_join_response []) gossip_max_payload_size in
    let routers = list_routers engine.cluster_view.members 0 in
    let resp : BootstrapResponse = record { num_routers = length routers; routers = routers } in
    elim (Option-cases head) [
      | inl overrun ↦ rw (overrun, send_join_response) quiet
      | inr (none, refused) ↦ rw (refused, send_join_response) quiet
      | inr (some bytes, written) ↦
          elim (Option-cases (Bootstrap.serialize resp (gossip_max_payload_size - length bytes))) [
            | inl no_body ↦ rw (written, no_body, send_join_response) quiet
            | inr (body, got) ↦
                rw (written, got, send_join_response)
                  (record {
                    view = v.view;
                    queue = v.queue;
                    waits = v.waits;
                    piggyback = v.piggyback;
                  })
          ]
    ]

module _ {F : Type 0} (unloaded : F) where
  -- The engine of a result that is well formed, and no fault.
  abbrev pub SafeWith : Option (Engine × Option (PeerPool F)) → Type 0
  SafeWith r =
      (engine : Engine) × (pool : Option (PeerPool F)) × (r ≡ some (engine, pool)) × IsValid engine

  handle_worker_join_message-Safe :
      (now : ℕ) (engine : Engine) (pool : Option (PeerPool F)) (msg : GossipMessage)
      (src_ip : List ℕ) (src_port : ℕ) (connected : Bool)
      → IsValid engine
      → IsValid
          (handle_worker_join_message unloaded now engine pool msg src_ip src_port connected).0
  unfolding handle_worker_join_message
  handle_worker_join_message-Safe now engine pool msg src_ip src_port connected v =
      let u = get_or msg.updates 0 blank_update in
      let P : (Engine × Option (PeerPool F) → Type 0) = λ r. IsValid r.0 in
      both P (not (eq_type engine.my_type router)) v (
        both P (ltb 0 msg.num_updates)
          (send_join_response-IsValid _ src_ip src_port
            (take_worker-IsValid now engine msg.sender_id u src_ip v))
          (send_join_response-IsValid engine src_ip src_port v))

  -- A handler that leaves the pool of peers as it is.
  abbrev with_pool : Option (PeerPool F) → Option Engine → Option (Engine × Option (PeerPool F))
  with_pool pool r = elim r [ none ↦ none | some engine' ↦ some (engine', pool) ]

  with_pool-Safe :
      (pool : Option (PeerPool F)) (r : Option Engine) → Safe r → SafeWith (with_pool pool r)
  with_pool-Safe pool r (engine, e, v) = (engine, pool, ap (with_pool pool) e, v)

  -- `dispatch_message` on a message that announces at most ten updates, of any type and from any
  -- address, does not read past the array of updates, and keeps the engine well formed: the view
  -- lists no node twice and does not overrun its array, the queue of updates is a ring, the table of
  -- acknowledgements has its size, and the configuration allows at most ten updates in a message.
  pub dispatch_message-Safe :
      (now : ℕ) (engine : Engine) (pool : Option (PeerPool F)) (msg : GossipMessage)
      (src_ip : List ℕ) (src_port : ℕ) (connected : Bool)
      → msg.num_updates ≤ max_piggyback_updates
      → IsValid engine
      → SafeWith (dispatch_message unloaded now engine pool msg src_ip src_port connected)
  unfolding dispatch_message handle_ack_message handle_suspect_message handle_alive_message
      handle_dead_message handle_join_message handle_leave
  dispatch_message-Safe now engine pool msg src_ip src_port connected few v =
      let P : (Option (Engine × Option (PeerPool F)) → Type 0) = SafeWith in
      let type : ℕ = msg.msg_type in
      let acked : Engine = recover now (remove_pending_ack engine msg.sender_id).1 msg.sender_id in
      let loop : (handle : Engine → MemberUpdate → Engine)
          → ((e : Engine) (u : MemberUpdate) → IsValid e → IsValid (handle e u))
          → (e : Engine) → IsValid e
          → SafeWith (with_pool pool (for_updates handle msg e)) =
        λ handle keeps e w.
          with_pool-Safe pool (for_updates handle msg e)
            (for_updates-Safe handle msg keeps few e w) in
      both P (type == msg_ping)
        (with_pool-Safe pool (handle_ping_message now engine msg src_ip src_port)
          (handle_ping_message-Safe now engine msg src_ip src_port few v))
        (both P (type == msg_ack)
          (loop (merge_ack now) (merge_ack-IsValid now) acked (
            recover-IsValid now _ msg.sender_id
              (remove_pending_ack-IsValid engine msg.sender_id v)))
          (both P (type == msg_suspect)
            (loop (hear_suspect now) (hear_suspect-IsValid now) engine v)
            (both P (type == msg_alive) (loop (hear_alive now) (hear_alive-IsValid now) engine v) (
              both P (type == msg_dead) (loop (hear_dead now) (hear_dead-IsValid now) engine v) (
                both P (type == msg_join)
                  (with_pool-Safe pool (handle_join_message now engine msg src_ip) (
                    join_updates-Safe now src_ip msg.sender_id msg.updates msg.num_updates 0 engine
                      (omega arith) v))
                  (both P (type == msg_worker_join)
                    (
                      _,
                      _,
                      refl,
                      handle_worker_join_message-Safe now engine pool msg src_ip src_port connected
                          v,
                    )
                    (both P (type == msg_leave)
                      (_, _, refl, set_status-IsValid now engine msg.sender_id dead _ v)
                      (_, _, refl, v))))))))
