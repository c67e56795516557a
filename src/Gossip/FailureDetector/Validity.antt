-- ===== src/Gossip/FailureDetector/Validity.antt =====
-- The failure detector of src/cluster/gossip_engine.c keeps the engine well formed.
use roole.Base.{ℕ, ◌≡◌, ◌∙◌, refl, none, some, List, [], ◌∷◌, arith, length, if◌then◌else◌, both}
use roole.Base.Status.{NodeStatus, alive, eq_status}
use roole.ClusterView
use roole.ClusterView.{ClusterView}
use roole.Gossip.UpdateQueue.{UpdateQueue}
use roole.Gossip.UpdateQueue.Batch
use roole.Gossip.Engine.{PendingAck, Engine}
use roole.Gossip.Engine.Validity.{IsValid, push-IsValid}
use roole.Gossip.FailureDetector.{
  suspicion, suspect_node, is_overdue, check_acks, check_ack_timeouts,
}
use roole.Gossip.FailureDetector.Timeouts.{check_ack_timeouts_lem}

suspect_node-queue :
    (view : ClusterView) (queue : UpdateQueue) (node now : ℕ)
    → Batch.IsValid queue
    → Batch.IsValid (suspect_node view queue node now).1
unfolding suspect_node
suspect_node-queue view queue node now v =
    let member = ClusterView.get view node in
    let old_status : NodeStatus = elim member [ none ↦ alive | some m ↦ m.status ] in
    let incarnation : ℕ = elim member [ none ↦ 0 | some m ↦ m.incarnation ] in
    let P : (ClusterView × UpdateQueue → Type 0) = λ r. Batch.IsValid r.1 in
    both P (eq_status old_status alive) (push-IsValid queue (suspicion node incarnation now) v) v

check_acks-queue :
    (timeout now : ℕ) (acks : List PendingAck) (view : ClusterView) (queue : UpdateQueue)
    → Batch.IsValid queue
    → Batch.IsValid (check_acks timeout now acks view queue).2
unfolding check_acks
check_acks-queue timeout now [] view queue v = v
check_acks-queue timeout now (a ∷ acks) view queue v =
    let P : (ClusterView × UpdateQueue → Type 0) = λ r. Batch.IsValid r.1 in
    let suspected = suspect_node view queue a.target_node now in
    let next = if is_overdue timeout now a then suspected else (view, queue) in
    check_acks-queue timeout now acks next.0 next.1
      (both P (is_overdue timeout now a) (suspect_node-queue view queue a.target_node now v) v)

length-check_acks :
    (timeout now : ℕ) (acks : List PendingAck) (view : ClusterView) (queue : UpdateQueue)
    → length (check_acks timeout now acks view queue).0 ≡ length acks
unfolding check_acks
length-check_acks timeout now [] view queue = refl
length-check_acks timeout now (a ∷ acks) view queue =
    let suspected = suspect_node view queue a.target_node now in
    let next = if is_overdue timeout now a then suspected else (view, queue) in
    omega (arith, length-check_acks timeout now acks next.0 next.1)

pub check_ack_timeouts-IsValid :
    (engine : Engine) (now : ℕ) → IsValid engine → IsValid (check_ack_timeouts engine now)
unfolding check_ack_timeouts
check_ack_timeouts-IsValid engine now v =
    let timeout = engine.config.ack_timeout_ms in
    record {
      view = (check_ack_timeouts_lem engine now 0 v.view).0;
      queue =
          check_acks-queue timeout now engine.acks engine.cluster_view engine.update_queue v.queue;
      waits =
          length-check_acks timeout now engine.acks engine.cluster_view engine.update_queue
          ∙ v.waits;
      piggyback = v.piggyback;
    }
