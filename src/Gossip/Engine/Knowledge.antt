-- ===== src/Gossip/Engine/Knowledge.antt =====
-- What this node knows of the others does not fall behind: whole messages at `dispatch_message` of
-- src/cluster/gossip_engine.c and the incarnation numbers of the view.
use roole.Base.{
  ℕ, ◌≤◌, ◌≡◌, ◌≢◌, refl, ap, inl, inr, Bool, Option, none, some, List, ◌==◌, arith, get_or, All,
  both, Option-cases, ==_ne,
}
use roole.Base.Status.{dead}
use roole.Slots
use roole.PeerPool.{PeerPool}
use roole.Gossip.Message.{MemberUpdate, GossipMessage, blank_update, max_piggyback_updates}
use roole.Gossip.Engine.{Engine}
use roole.Gossip.FailureDetector.{remove_pending_ack, target, is_active, deactivate}
use roole.Gossip.Engine.Ping.{
  for_updates, merge_ping, handle_ping_message, merge_ack, recover, handle_ack_message, send_ack,
  msg_ping, msg_ack,
}
use roole.Gossip.Engine.Rumours.{
  hear_suspect, handle_suspect_message, hear_alive, handle_alive_message, hear_dead,
  handle_dead_message, handle_leave,
}
use roole.Gossip.Engine.WorkerJoin.{msg_alive}
use roole.Gossip.Engine.Dispatch.{
  dispatch_message, msg_suspect, msg_dead, msg_join, msg_worker_join, msg_leave,
}
use roole.Gossip.Engine.Validity.{
  IsValid, merge_ping-IsValid, merge_ack-IsValid, hear_alive-IsValid, hear_dead-IsValid,
  hear_suspect-IsValid, recover-IsValid, remove_pending_ack-IsValid, visit_updates-keeps,
}
use roole.Gossip.Engine.Rank.{rank}
use roole.Gossip.Engine.Monotone.{
  IsFresh, get_or-IsFresh, IsAbove, merge_ping-rank, merge_ack-rank, hear_alive-rank,
  hear_dead-rank, hear_suspect-rank, recover-rank, set_status-rank,
}

same_view-remove_pending_ack :
    (engine : Engine) (k : ℕ) → (remove_pending_ack engine k).1.cluster_view ≡ engine.cluster_view
same_view-remove_pending_ack engine k =
    elim (Option-cases (Slots.modify target is_active k deactivate engine.acks)) [
      | inl gone ↦ rw (gone, remove_pending_ack)
      | inr (acks, got) ↦ rw (got, remove_pending_ack)
    ]

-- A result at which the rank of a node is at least a number.
abbrev Rises : ℕ → ℕ → Option Engine → Type 0
Rises j low r = (engine : Engine) × (r ≡ some engine) × IsAbove j low engine

module _ (j low : ℕ) (msg : GossipMessage) (few : msg.num_updates ≤ max_piggyback_updates) where
  -- A loop whose rounds do not lower the rank.
  for_updates-Rises :
      (handle : Engine → MemberUpdate → Engine)
      → ((e : Engine) (u : MemberUpdate) → IsValid e → IsValid (handle e u))
      → ((n : ℕ) (e : Engine)
          → IsValid e
          → rank e.cluster_view j
            ≤ rank (handle e (get_or msg.updates n blank_update)).cluster_view j)
      → (engine : Engine) → IsValid engine
      → IsAbove j low engine
      → Rises j low (for_updates handle msg engine)
  for_updates-Rises handle valid grows engine v above =
      let P : (Engine → Type 0) = λ e. IsValid e × IsAbove j low e in
      let (after, e, (w, risen)) =
        visit_updates-keeps P handle msg.updates
          (λ n e (w, a).
            (valid e (get_or msg.updates n blank_update) w, omega (arith, grows n e w, a)))
          msg.num_updates 0 engine (omega arith) (v, above) in
      (after, e, risen)

module _ {F : Type 0} (unloaded : F) where
  abbrev RisesWith : ℕ → ℕ → Option (Engine × Option (PeerPool F)) → Type 0
  RisesWith j low r =
      (engine : Engine) × (pool : Option (PeerPool F)) × (r ≡ some (engine, pool))
      × IsAbove j low engine

  abbrev with_pool : Option (PeerPool F) → Option Engine → Option (Engine × Option (PeerPool F))
  with_pool pool r = elim r [ none ↦ none | some engine' ↦ some (engine', pool) ]

  with_pool-Rises :
      (j low : ℕ) (pool : Option (PeerPool F)) (r : Option Engine)
      → Rises j low r
      → RisesWith j low (with_pool pool r)
  with_pool-Rises j low pool r (engine, e, a) = (engine, pool, ap (with_pool pool) e, a)

  -- A message other than JOIN and WORKER_JOIN, with at most ten updates whose incarnation numbers are
  -- below 2^64 - 1, leaves every member of a well-formed view in it, and with an incarnation number
  -- that is no lower than before.
  pub dispatch_message-rank :
      (now : ℕ) (engine : Engine) (pool : Option (PeerPool F)) (msg : GossipMessage)
      (src_ip : List ℕ) (src_port : ℕ) (connected : Bool) (j : ℕ)
      → msg.num_updates ≤ max_piggyback_updates
      → All IsFresh msg.updates
      → msg.msg_type ≢ msg_join
      → msg.msg_type ≢ msg_worker_join
      → IsValid engine
      → (engine' : Engine) × (pool' : Option (PeerPool F)) × (dispatch_message unloaded now engine
            pool msg src_ip src_port connected
          ≡ some (engine', pool'))
        × (rank engine.cluster_view j ≤ rank engine'.cluster_view j)
  unfolding dispatch_message handle_ping_message handle_ack_message handle_suspect_message
      handle_alive_message handle_dead_message handle_leave
  dispatch_message-rank now engine pool msg src_ip src_port connected j few fresh calm calm' v =
      let low = rank engine.cluster_view j in
      let P : (Option (Engine × Option (PeerPool F)) → Type 0) = RisesWith j low in
      let type : ℕ = msg.msg_type in
      let no_join = ==_ne type msg_join calm in
      let no_worker = ==_ne type msg_worker_join calm' in
      let kept : IsAbove j low engine = omega arith in
      let forgot : Engine = (remove_pending_ack engine msg.sender_id).1 in
      let forgot-IsValid = remove_pending_ack-IsValid engine msg.sender_id v in
      let same = same_view-remove_pending_ack engine msg.sender_id in
      let (merged, e, risen) =
        for_updates-Rises j low msg few (merge_ping now) (merge_ping-IsValid now)
          (λ n e w. merge_ping-rank j now e w _ (get_or-IsFresh msg.updates n fresh)) engine v
          kept in
      let ponged : RisesWith j low
          (with_pool pool (handle_ping_message now engine msg src_ip src_port)) =
        (send_ack now merged src_ip src_port, pool, rw (e, handle_ping_message), risen) in
      let loop : (handle : Engine → MemberUpdate → Engine)
          → ((e : Engine) (u : MemberUpdate) → IsValid e → IsValid (handle e u))
          → ((e : Engine)
              → IsValid e
              → (u : MemberUpdate) → rank e.cluster_view j ≤ rank (handle e u).cluster_view j)
          → (e : Engine) → IsValid e
          → IsAbove j low e
          → RisesWith j low (with_pool pool (for_updates handle msg e)) =
        λ handle keeps grows e w a. with_pool-Rises j low pool (for_updates handle msg e) (
          for_updates-Rises j low msg few handle keeps
            (λ n e w. grows e w (get_or msg.updates n blank_update)) e w a) in
      rw (no_join, no_worker)
        (both P (type == msg_ping) ponged (
          both P (type == msg_ack)
            (loop (merge_ack now) (merge_ack-IsValid now) (merge_ack-rank j now)
              (recover now forgot msg.sender_id)
              (recover-IsValid now forgot msg.sender_id forgot-IsValid)
              (omega (
                arith,
                ap (λ w. rank w j) same,
                recover-rank j now forgot forgot-IsValid msg.sender_id,
              )))
            (both P (type == msg_suspect)
              (loop (hear_suspect now) (hear_suspect-IsValid now) (hear_suspect-rank j now) engine v
                kept)
              (both P (type == msg_alive)
                (loop (hear_alive now) (hear_alive-IsValid now) (hear_alive-rank j now) engine v
                  kept)
                (both P (type == msg_dead)
                  (loop (hear_dead now) (hear_dead-IsValid now) (hear_dead-rank j now) engine v
                    kept)
                  (both P (type == msg_leave)
                    (_, _, refl, set_status-rank j now engine v msg.sender_id dead msg.sequence_num)
                    (_, _, refl, kept)))))))
