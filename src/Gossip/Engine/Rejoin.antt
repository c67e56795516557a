-- ===== src/Gossip/Engine/Rejoin.antt =====
-- Workers that come back: `handle_worker_join_message` of src/cluster/gossip_engine.c and the
-- incarnation numbers of the view.
use roole.Base.{
  ℕ, zero, suc, ◌+◌, ◌^◌, ◌<◌, ◌≡◌, refl, ap, ◌∙◌, ◌||◌, some, List, [], ◌∷◌, ◌++◌, ◌==◌, arith,
  take, replicate, if◌then◌else◌, ==_refl, both,
}
use roole.Base.Status.{alive, dead, worker, eq_status}
use roole.ClusterView
use roole.ClusterView.{ClusterView, ClusterMember, merge, restate}
use roole.ClusterView.Incarnation.{get-add_known}
use roole.Gossip.Message.{MemberUpdate}
use roole.Gossip.UpdateQueue.{max_update_queue}
use roole.Gossip.UpdateQueue.Batch.{updates}
use roole.Gossip.Engine.{Engine, Event, member_join, member_update, notify, set_view, queue_times}
use roole.Gossip.Engine.WorkerJoin.{burst, take_worker, rejoining, worker_member, worker_update}
use roole.Gossip.Engine.Validity.{IsValid, notify-IsValid, add_member-IsValid}
use roole.Gossip.Engine.Loop.{queue_times_lem}

-- The burst of messages changes neither the view nor the queue.
same-burst :
    (ms : List ClusterMember) (engine : Engine) (u : MemberUpdate)
    → ((burst ms engine u).cluster_view ≡ engine.cluster_view)
      × ((burst ms engine u).update_queue ≡ engine.update_queue)
unfolding burst
same-burst [] engine u = (refl, refl)
same-burst (m ∷ ms) engine u =
    let P : (Engine → Type 0) =
      λ e. (e.cluster_view ≡ engine.cluster_view) × (e.update_queue ≡ engine.update_queue) in
    both P ((m.node_id == engine.my_id || m.node_id == u.node_id) || eq_status m.status dead)
      (same-burst ms engine u) (same-burst ms _ u)

same-queue_times :
    (n : ℕ) (engine : Engine) (u : MemberUpdate)
    → (queue_times n engine u).cluster_view ≡ engine.cluster_view
unfolding queue_times
same-queue_times Prim.Native.Nat.zero engine u = refl
same-queue_times (suc n) engine u = same-queue_times n _ u

-- A WORKER_JOIN of a member that a well-formed view has as DEAD leaves it ALIVE there with its
-- incarnation number raised by two, while the updates that are queued for the other nodes, ten as
-- far as there is room, raise it by one only.
pub rejoin_announced_lower :
    (now : ℕ) (engine : Engine) (u : MemberUpdate) (src_ip : List ℕ) (old : ClusterMember)
    → IsValid engine
    → ClusterView.get engine.cluster_view u.node_id ≡ some old
    → old.status ≡ dead
    → old.incarnation + 2 < 2 ^ 64
    → let engine' = take_worker now engine u.node_id u src_ip in
      (new : ClusterMember) × (announced : MemberUpdate) × (ClusterView.get engine'.cluster_view
          u.node_id
        ≡ some new)
      × (new.status ≡ alive)
      × (new.incarnation ≡ old.incarnation + 2)
      × (updates engine'.update_queue
          ≡ take max_update_queue (updates engine.update_queue ++ replicate 10 announced))
      × (announced.node_id ≡ u.node_id)
      × (announced.incarnation ≡ old.incarnation + 1)
unfolding take_worker merge
rejoin_announced_lower now engine u src_ip old v found gone bound =
    let existing = ClusterView.get engine.cluster_view u.node_id in
    let back = (rejoining existing).0 in
    let member = worker_member now existing u src_ip in
    let event : Event = record {
      node_id = u.node_id;
      node_type = worker;
      ip = src_ip;
      data_port = u.data_port;
      event_type = if back then member_update else member_join;
    } in
    let told = notify (set_view engine (ClusterView.add engine.cluster_view member now).1) event in
    let told-IsValid : IsValid told =
      notify-IsValid _ event (add_member-IsValid now engine member v) in
    let announced = worker_update now member in
    let count : ℕ = if back then 10 else 5 in
    let queued = queue_times count told announced in
    let burst_same = same-burst queued.cluster_view.members queued announced in
    let ten : count ≡ 10 = ground (arith, found, gone) in
    let raised : member.incarnation ≡ old.incarnation + 1 = ground (arith, found, gone, bound) in
    let hit = ==_refl u.node_id in
    let added : ClusterView.get (ClusterView.add engine.cluster_view member now).1 u.node_id
        ≡ some (merge now member old) =
      get-add_known engine.cluster_view member old now u.node_id v.view found
      ∙ ap
          (λ b.
            if b
            then some (merge now member old)
            else ClusterView.get engine.cluster_view u.node_id)
          hit in
    (
      merge now member old,
      announced,
      ap (λ w. ClusterView.get w u.node_id) (burst_same.0 ∙ same-queue_times count told announced)
          ∙ added,
      ground (arith, gone),
      ground (arith, gone, raised),
      ap updates burst_same.1
          ∙ queue_times_lem count told announced told-IsValid
          ∙ ap (λ n. take max_update_queue (updates engine.update_queue ++ replicate n announced))
              ten,
      refl,
      raised,
    )
