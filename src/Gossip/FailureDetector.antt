-- ===== src/Gossip/FailureDetector.antt =====
-- The failure detector of src/cluster/gossip_engine.c: `add_pending_ack`, `remove_pending_ack` and
-- `check_ack_timeouts`. Each runs under the lock of the
-- acknowledgements; `now` is what `time_now_ms` returns.
pub mod Timeouts
pub mod Validity
mod Tests
use roole.Base.{
  ℕ, zero, suc, ◌+◌, ◌-◌, ◌%◌, ◌^◌, Bool, true, false, ◌&&◌, Option, none, some, List, [], ◌∷◌,
  ◌==◌, ltb, if◌then◌else◌, replicate,
}
use roole.Base.Int.{ℤ, pos, negsuc}
use roole.Base.Status.{NodeStatus, alive, suspect, eq_status, unknown}
use roole.Slots.{find, modify, claim}
use roole.ClusterView
use roole.ClusterView.{ClusterView, ClusterMember}
use roole.Gossip.Message.{MemberUpdate}
use roole.Gossip.Engine.{PendingAck, Engine}
use roole.Gossip.UpdateQueue.{UpdateQueue, push}

abbrev pub target : PendingAck → ℕ
target a = a.target_node

abbrev pub is_active : PendingAck → Bool
is_active a = a.active

-- `add_pending_ack`.
abbrev pub add_pending_ack : Engine → ℕ → ℕ → ℤ × Engine
add_pending_ack engine target_node now =
    elim (claim target is_active
      (record { target_node = target_node; ping_sent_ms = now; active = true }) engine.acks) [
        | none ↦ (negsuc 0, engine)
        | some acks ↦ (pos 0, record engine { acks = acks })
      ]

abbrev pub deactivate : PendingAck → PendingAck
deactivate a = record a { active = false }

-- `remove_pending_ack`.
abbrev pub remove_pending_ack : Engine → ℕ → ℤ × Engine
remove_pending_ack engine target_node =
    elim (modify target is_active target_node deactivate engine.acks) [
      | none ↦ (negsuc 0, engine)
      | some acks ↦ (pos 0, record engine { acks = acks })
    ]

-- Whether an acknowledgement is awaited and overdue, by a subtraction of `uint64_t`.
abbrev pub is_overdue : ℕ → ℕ → PendingAck → Bool
is_overdue timeout now a = a.active && ltb timeout ((now + 2 ^ 64 - a.ping_sent_ms) % 2 ^ 64)

-- The update that is queued for a suspected node; the fields that are not named are 0.
abbrev pub suspicion : ℕ → ℕ → ℕ → MemberUpdate
suspicion node incarnation now = record {
  node_id = node;
  node_type = unknown;
  ip_address = [];
  gossip_port = 0;
  data_port = 0;
  status = suspect;
  incarnation = incarnation;
  timestamp_ms = now;
}

-- The view and the queue after an acknowledgement of `node` is overdue, where no other thread changes
-- the view between the look-up and the update. A node that is not in the
-- view counts as ALIVE with incarnation 0.
pub suspect_node : ClusterView → UpdateQueue → ℕ → ℕ → ClusterView × UpdateQueue
suspect_node view queue node now =
    let member = ClusterView.get view node in
    let old_status : NodeStatus = elim member [ none ↦ alive | some m ↦ m.status ] in
    let incarnation : ℕ = elim member [ none ↦ 0 | some m ↦ m.incarnation ] in
    if eq_status old_status alive
    then (
      (ClusterView.update_status view node suspect incarnation now).1,
      (push queue (suspicion node incarnation now)).1,
    )
    else (view, queue)

-- The loop of `check_ack_timeouts`.
pub check_acks :
    ℕ
    → ℕ
    → List PendingAck
    → ClusterView
    → UpdateQueue
    → List PendingAck × ClusterView × UpdateQueue
unfolding suspect_node
check_acks timeout now [] view queue = ([], view, queue)
check_acks timeout now (a ∷ acks) view queue =
    let overdue = is_overdue timeout now a in
    let (view', queue') =
      if overdue then suspect_node view queue a.target_node now else (view, queue) in
    let (rest, view'', queue'') = check_acks timeout now acks view' queue' in
    ((if overdue then deactivate a else a) ∷ rest, view'', queue'')

-- `check_ack_timeouts`.
pub check_ack_timeouts : Engine → ℕ → Engine
unfolding check_acks
check_ack_timeouts engine now =
    let (acks, view, queue) =
      check_acks engine.config.ack_timeout_ms now engine.acks engine.cluster_view
        engine.update_queue in
    record engine { acks = acks; cluster_view = view; update_queue = queue }
