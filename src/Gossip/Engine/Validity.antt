-- ===== src/Gossip/Engine/Validity.antt =====
-- The well-formedness of the gossip engine of src/cluster/gossip_engine.c, and that each message
-- handler keeps it.
use roole.Base.{
  ℕ, zero, suc, ◌+◌, ◌≤◌, ◌≡◌, refl, sym, subst, inl, inr, Bool, true, false, not, ◌&&◌, none, some,
  List, ◌==◌, arith, length, get_or, ltb, leb, Bool-cases, Option-cases, both, ◌∙◌,
}
use roole.Base.Status.{NodeStatus, alive, suspect, dead, eq_status}
use roole.Slots
use roole.Slots.Laws.{length-modify}
use roole.ClusterView
use roole.ClusterView.{ClusterView, ClusterMember}
use roole.ClusterView.Invariant
use roole.ClusterView.Invariant.{add-IsValid, update_status-IsValid}
use roole.Gossip.Message.{MemberUpdate, blank_update, max_piggyback_updates}
use roole.Gossip.UpdateQueue.{UpdateQueue, push}
use roole.Gossip.UpdateQueue.Batch
use roole.Gossip.UpdateQueue.Batch.{update_push_lem}
use roole.Gossip.Engine.{
  Engine, Event, member_update, max_pending_acks, notify, notify_status, queue_update, queue_times,
  set_view,
}
use roole.Gossip.FailureDetector.{remove_pending_ack, target, is_active, deactivate}
use roole.Gossip.Engine.Ping.{
  visit_updates, member_of, event_of, discover, set_status, merge_ping, merge_ack, recover,
}
use roole.Gossip.Engine.Rumours.{refute, hear_suspect, hear_alive, hear_dead}

-- The view lists no node twice and fits its array, the queue is a ring, the table of
-- acknowledgements has its size, and the configuration puts at most ten updates in a message.
pub record IsValid (engine : Engine) : Type 0 where
  pub view : Invariant.IsValid engine.cluster_view
  pub queue : Batch.IsValid engine.update_queue
  pub waits : length engine.acks ≡ max_pending_acks
  pub piggyback : engine.config.max_piggyback ≤ max_piggyback_updates

pub push-IsValid :
    (queue : UpdateQueue) (u : MemberUpdate) → Batch.IsValid queue → Batch.IsValid (push queue u).1
push-IsValid queue u v = elim (update_push_lem queue u v) [
  | inl (room, status, kept, contents) ↦ kept
  | inr (full, status, same) ↦ subst Batch.IsValid (sym same) v
]

pub queue_update-IsValid :
    (engine : Engine) (u : MemberUpdate) → IsValid engine → IsValid (queue_update engine u)
queue_update-IsValid engine u v = record {
  view = v.view;
  queue = push-IsValid engine.update_queue u v.queue;
  waits = v.waits;
  piggyback = v.piggyback;
}

pub queue_times-IsValid :
    (n : ℕ) (engine : Engine) (u : MemberUpdate) → IsValid engine → IsValid (queue_times n engine u)
unfolding queue_times
queue_times-IsValid Prim.Native.Nat.zero engine u v = v
queue_times-IsValid (suc n) engine u v =
    queue_times-IsValid n (queue_update engine u) u (queue_update-IsValid engine u v)

-- What a handler leaves of the queue and the acknowledgements does not matter to the view.
pub set_view-IsValid :
    (engine : Engine) (view : ClusterView)
    → IsValid engine
    → Invariant.IsValid view
    → IsValid (set_view engine view)
set_view-IsValid engine view v w = record {
  view = w;
  queue = v.queue;
  waits = v.waits;
  piggyback = v.piggyback;
}

pub notify-IsValid :
    (engine : Engine) (event : Event) → IsValid engine → IsValid (notify engine event)
notify-IsValid engine event v = record {
  view = v.view;
  queue = v.queue;
  waits = v.waits;
  piggyback = v.piggyback;
}

pub notify_status-IsValid :
    (engine : Engine) (u : MemberUpdate) → IsValid engine → IsValid (notify_status engine u)
unfolding notify_status
notify_status-IsValid engine u v = elim (Bool-cases (eq_status u.status suspect)) [
  | inl s ↦ rw s (notify-IsValid engine _ v)
  | inr s ↦ rw s (elim (Bool-cases (eq_status u.status dead)) [
    | inl d ↦ rw d (notify-IsValid engine _ v)
    | inr d ↦ rw d (elim (Bool-cases (eq_status u.status alive)) [
      | inl a ↦ rw a (notify-IsValid engine _ v)
      | inr a ↦ rw a v
    ])
  ])
]

pub set_status-IsValid :
    (now : ℕ) (engine : Engine) (k : ℕ) (status : NodeStatus) (incarnation : ℕ)
    → IsValid engine
    → IsValid (set_status now engine k status incarnation)
set_status-IsValid now engine k status incarnation v =
    set_view-IsValid engine _ v
      (update_status-IsValid engine.cluster_view v.view k status incarnation now)

pub add_member-IsValid :
    (now : ℕ) (engine : Engine) (m : ClusterMember)
    → IsValid engine
    → IsValid (set_view engine (ClusterView.add engine.cluster_view m now).1)
add_member-IsValid now engine m v =
    set_view-IsValid engine _ v (add-IsValid engine.cluster_view v.view m now)

pub merge_ping-IsValid :
    (now : ℕ) (engine : Engine) (u : MemberUpdate)
    → IsValid engine
    → IsValid (merge_ping now engine u)
unfolding merge_ping
merge_ping-IsValid now engine u v =
    elim (Option-cases (ClusterView.get engine.cluster_view u.node_id)) [
      | inl new ↦
          rw (new, merge_ping)
            (queue_update-IsValid (discover now engine u) _
              (notify-IsValid _ _ (add_member-IsValid now engine _ v)))
      | inr (old, found) ↦
          let newer = ltb old.incarnation u.incarnation in
          let same = eq_status u.status old.status in
          let updated = set_status-IsValid now engine u.node_id u.status u.incarnation v in
          let rejoined =
            notify-IsValid _ (event_of u member_update)
              (add_member-IsValid now engine (member_of u alive now) v) in
          rw (found, merge_ping)
            (both IsValid ((eq_status old.status dead && eq_status u.status alive) && newer)
              rejoined
              (both IsValid newer (both IsValid same updated (notify_status-IsValid _ u updated))
                v))
    ]

pub merge_ack-IsValid :
    (now : ℕ) (engine : Engine) (u : MemberUpdate)
    → IsValid engine
    → IsValid (merge_ack now engine u)
unfolding merge_ack
merge_ack-IsValid now engine u v =
    elim (Option-cases (ClusterView.get engine.cluster_view u.node_id)) [
      | inl new ↦ rw (new, merge_ack) (notify-IsValid _ _ (add_member-IsValid now engine _ v))
      | inr (old, found) ↦
          rw (found, merge_ack) (both IsValid _ (set_status-IsValid now engine _ _ _ v) v)
    ]

pub hear_alive-IsValid :
    (now : ℕ) (engine : Engine) (u : MemberUpdate)
    → IsValid engine
    → IsValid (hear_alive now engine u)
unfolding hear_alive
hear_alive-IsValid now engine u v =
    elim (Option-cases (ClusterView.get engine.cluster_view u.node_id)) [
      | inl new ↦ rw (new, hear_alive) v
      | inr (old, found) ↦
          rw (found, hear_alive)
            (both IsValid _ (queue_update-IsValid _ u (set_status-IsValid now engine _ _ _ v)) v)
    ]

pub hear_dead-IsValid :
    (now : ℕ) (engine : Engine) (u : MemberUpdate)
    → IsValid engine
    → IsValid (hear_dead now engine u)
unfolding hear_dead
hear_dead-IsValid now engine u v =
    elim (Option-cases (ClusterView.get engine.cluster_view u.node_id)) [
      | inl new ↦ rw (new, hear_dead) v
      | inr (old, found) ↦
          rw (found, hear_dead) (notify-IsValid _ _ (set_status-IsValid now engine _ _ _ v))
    ]

refute-IsValid : (now : ℕ) (engine : Engine) → IsValid engine → IsValid (refute now engine)
unfolding refute
refute-IsValid now engine v =
    queue_times-IsValid 3 _ _
      (record { view = v.view; queue = v.queue; waits = v.waits; piggyback = v.piggyback })

pub hear_suspect-IsValid :
    (now : ℕ) (engine : Engine) (u : MemberUpdate)
    → IsValid engine
    → IsValid (hear_suspect now engine u)
unfolding hear_suspect
hear_suspect-IsValid now engine u v =
    let ours = u.node_id == engine.my_id in
    let suspects = eq_status u.status suspect in
    let lives : Bool = elim (ClusterView.get engine.cluster_view u.node_id) [
      | none ↦ false
      | some existing ↦ leb existing.incarnation u.incarnation && eq_status existing.status alive
    ] in
    let marked =
      queue_update-IsValid _ u (set_status-IsValid now engine u.node_id suspect u.incarnation v) in
    both IsValid (ours && suspects) (refute-IsValid now engine v)
      (both IsValid (not ours && suspects) (both IsValid lives marked v) v)

pub recover-IsValid :
    (now : ℕ) (engine : Engine) (k : ℕ) → IsValid engine → IsValid (recover now engine k)
unfolding recover
recover-IsValid now engine k v = elim (Option-cases (ClusterView.get engine.cluster_view k)) [
  | inl new ↦ rw (new, recover) v
  | inr (old, found) ↦
      rw (found, recover) (both IsValid _ (set_status-IsValid now engine _ _ _ v) v)
]

pub remove_pending_ack-IsValid :
    (engine : Engine) (k : ℕ) → IsValid engine → IsValid (remove_pending_ack engine k).1
remove_pending_ack-IsValid engine k v =
    elim (Option-cases (Slots.modify target is_active k deactivate engine.acks)) [
      | inl none_waits ↦ rw (none_waits, remove_pending_ack) v
      | inr (acks, got) ↦
          rw (got, remove_pending_ack)
            (record {
              view = v.view;
              queue = v.queue;
              waits = length-modify target is_active k deactivate engine.acks acks got ∙ v.waits;
              piggyback = v.piggyback;
            })
    ]

-- What the rounds of a loop keep holds after the loop, which does not fault on at most ten updates.
pub visit_updates-keeps :
    (P : Engine → Type 0) (handle : Engine → MemberUpdate → Engine) (us : List MemberUpdate)
    → ((n : ℕ) (engine : Engine) → P engine → P (handle engine (get_or us n blank_update)))
    → (left i : ℕ) (engine : Engine) → i + left ≤ max_piggyback_updates
    → P engine
    → (engine' : Engine) × (visit_updates handle us left i engine ≡ some engine') × P engine'
unfolding visit_updates
visit_updates-keeps P handle us keeps Prim.Native.Nat.zero i engine h p = (engine, refl, p)
visit_updates-keeps P handle us keeps (suc left) i engine h p =
    let inside : ltb i max_piggyback_updates ≡ true = ground arith in
    rw inside (
      visit_updates-keeps P handle us keeps left (i + 1) (handle engine (get_or us i blank_update))
        (omega arith) (keeps i engine p))
