-- ===== src/Gossip/FailureDetector/Timeouts.antt =====
-- What `check_ack_timeouts` of src/cluster/gossip_engine.c does to the cluster view.
use mathlib.Core.Option
use roole.Base.{
  ℕ, ◌≡◌, refl, inl, inr, Bool, ◌&&◌, Option, none, some, List, [], ◌∷◌, ◌==◌, any, if◌then◌else◌,
  arith, map, Bool-cases, Option-cases, subst,
}
use roole.Base.Status.{NodeStatus, alive, suspect, eq_status}
use roole.ClusterView
use roole.ClusterView.{ClusterView, ClusterMember, restate}
use roole.ClusterView.Invariant.{IsValid, update_status-IsValid}
use roole.ClusterView.Incarnation.{get-update_status}
use roole.Gossip.UpdateQueue.{UpdateQueue}
use roole.Gossip.Engine.{PendingAck, Engine}
use roole.Gossip.FailureDetector.{
  deactivate, is_overdue, suspect_node, check_acks, check_ack_timeouts,
}

-- A member that is ALIVE becomes SUSPECT.
abbrev pub suspected : ℕ → Option ClusterMember → Option ClusterMember
suspected now none = none
suspected now (some m) =
    if eq_status m.status alive
    then some (record m { status = suspect; last_seen_ms = now })
    else some m

suspect_node-get :
    (view : ClusterView) (queue : UpdateQueue) (node now j : ℕ)
    → IsValid view
    → ClusterView.get (suspect_node view queue node now).0 j
      ≡ (if node == j then suspected now (ClusterView.get view j) else ClusterView.get view j)
unfolding suspect_node restate
suspect_node-get view queue node now j v = elim (Bool-cases (node == j)) [
  | inr other ↦ ground (arith, other, changed j)
  | inl hit ↦
      let same : node ≡ j = ground arith in
      subst
        (λ k.
          ClusterView.get (suspect_node view queue node now).0 k
          ≡ (if node == k then suspected now (ClusterView.get view k) else ClusterView.get view k))
        same
        (elim (Option-cases (ClusterView.get view node)) [
          | inl gone ↦ ground (arith, gone, changed node)
          | inr (m, found) ↦ ground (arith, found, changed node)
        ])
]
  where
    incarnation : ℕ
    incarnation = elim (ClusterView.get view node) [ none ↦ 0 | some m ↦ m.incarnation ]

    changed :
        (k : ℕ)
        → ClusterView.get (ClusterView.update_status view node suspect incarnation now).1 k ≡ (
            if node == k
            then Option.map (restate suspect incarnation now) (ClusterView.get view node)
            else ClusterView.get view k)
    changed k = get-update_status view node suspect incarnation now k v

suspect_node-IsValid :
    (view : ClusterView) (queue : UpdateQueue) (node now : ℕ)
    → IsValid view
    → IsValid (suspect_node view queue node now).0
unfolding suspect_node
suspect_node-IsValid view queue node now v =
    let old_status : NodeStatus = elim (ClusterView.get view node) [
      | none ↦ alive
      | some m ↦ m.status
    ] in
    elim (Bool-cases (eq_status old_status alive)) [
      | inl lives ↦ rw lives (update_status-IsValid view v node suspect _ now)
      | inr known ↦ rw known v
    ]

-- Whether an acknowledgement from a node is overdue.
abbrev pub misses : ℕ → ℕ → ℕ → PendingAck → Bool
misses timeout now j a = a.target_node == j && is_overdue timeout now a

suspected_twice :
    (now : ℕ) (m : Option ClusterMember) → suspected now (suspected now m) ≡ suspected now m
suspected_twice now none = refl
suspected_twice now (some m) = ground arith

check_acks_lem :
    (timeout now : ℕ) (acks : List PendingAck) (view : ClusterView) (queue : UpdateQueue) (j : ℕ)
    → IsValid view
    → let (acks', view', queue') = check_acks timeout now acks view queue in
      IsValid view'
      × (acks' ≡ map (λ a. if is_overdue timeout now a then deactivate a else a) acks)
      × (ClusterView.get view' j ≡ (
          if any (misses timeout now j) acks
          then suspected now (ClusterView.get view j)
          else ClusterView.get view j))
unfolding check_acks
check_acks_lem timeout now [] view queue j v = (v, refl, refl)
check_acks_lem timeout now (a ∷ acks) view queue j v =
    elim (Bool-cases (is_overdue timeout now a)) [
      | inr timely ↦
          let later = check_acks_lem timeout now acks view queue j v in
          rw timely (later.0, ground (arith, later.1), ground (arith, timely, later.2))
      | inl late ↦
          let r = suspect_node view queue a.target_node now in
          let later =
            check_acks_lem timeout now acks r.0 r.1 j
              (suspect_node-IsValid view queue a.target_node now v) in
          rw late (
            later.0,
            ground (arith, later.1),
            ground (
              arith,
              late,
              later.2,
              suspect_node-get view queue a.target_node now j v,
              suspected_twice now (ClusterView.get view j),
            ),
          )
    ]

-- `check_ack_timeouts` on a well-formed view that no other thread changes meanwhile keeps the
-- view well formed, ends the waits that are longer than the timeout, by a difference modulo 2^64,
-- and no other, and turns a member from ALIVE to SUSPECT, at the time `now` and with its
-- incarnation, exactly if such a wait is for it; every other look-up answers as before.
pub check_ack_timeouts_lem :
    (engine : Engine) (now j : ℕ)
    → IsValid engine.cluster_view
    → let engine' = check_ack_timeouts engine now in
      IsValid engine'.cluster_view
      × (engine'.acks
          ≡ map
              (λ a. if is_overdue engine.config.ack_timeout_ms now a then deactivate a else a)
              engine.acks)
      × (ClusterView.get engine'.cluster_view j ≡ (
          if any (misses engine.config.ack_timeout_ms now j) engine.acks
          then suspected now (ClusterView.get engine.cluster_view j)
          else ClusterView.get engine.cluster_view j))
unfolding check_ack_timeouts
check_ack_timeouts_lem engine now j v =
    check_acks_lem engine.config.ack_timeout_ms now engine.acks engine.cluster_view
      engine.update_queue j v
