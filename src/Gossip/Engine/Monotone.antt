-- ===== src/Gossip/Engine/Monotone.antt =====
-- The incarnation numbers of the view under the messages that src/cluster/gossip_engine.c receives.
use roole.Base.{
  ℕ, suc, ◌+◌, ◌%◌, ◌^◌, ◌≤◌, ◌<◌, ◌≡◌, refl, inl, inr, Bool, false, not, ◌&&◌, none, some, List,
  [], ◌∷◌, ◌==◌, arith, ltb, leb, get_or, All, Option-cases, both,
}
use roole.Base.Status.{NodeStatus, alive, suspect, dead, eq_status}
use roole.ClusterView
use roole.ClusterView.{ClusterView, ClusterMember}
use roole.Gossip.Message.{MemberUpdate, blank_update}
use roole.Gossip.Engine.{Engine, queue_times}
use roole.Gossip.Engine.Ping.{member_of, set_status, merge_ping, merge_ack, recover}
use roole.Gossip.Engine.Rumours.{self_update, refute, hear_suspect, hear_alive, hear_dead}
use roole.Gossip.Engine.Validity.{IsValid}
use roole.Gossip.Engine.Cases.{merge_ping-cases}
use roole.Gossip.Engine.Rank.{rank, rank-update_status, rank-add_new, rank-rejoin}

-- An update whose number has a successor below 2^64.
abbrev pub IsFresh : MemberUpdate → Type 0
IsFresh u = u.incarnation + 1 < 2 ^ 64

pub get_or-IsFresh :
    (us : List MemberUpdate) (n : ℕ) → All IsFresh us → IsFresh (get_or us n blank_update)
get_or-IsFresh [] n h = omega arith
get_or-IsFresh (u ∷ us) Prim.Native.Nat.zero h = h.0
get_or-IsFresh (u ∷ us) (suc n) h = get_or-IsFresh us n h.1

-- The rank of node `j` is at least `low`.
abbrev pub IsAbove : ℕ → ℕ → Engine → Type 0
IsAbove j low engine = low ≤ rank engine.cluster_view j

same_view-queue_times :
    (n : ℕ) (engine : Engine) (u : MemberUpdate)
    → (queue_times n engine u).cluster_view ≡ engine.cluster_view
unfolding queue_times
same_view-queue_times Prim.Native.Nat.zero engine u = refl
same_view-queue_times (suc n) engine u = same_view-queue_times n _ u

module _ (j now : ℕ) (engine : Engine) (v : IsValid engine) where
  abbrev low : ℕ
  low = rank engine.cluster_view j

  pub set_status-rank :
      (k : ℕ) (status : NodeStatus) (incarnation : ℕ)
      → IsAbove j low (set_status now engine k status incarnation)
  set_status-rank k status incarnation =
      rank-update_status engine.cluster_view j v.view k status incarnation now

  pub merge_ping-rank : (u : MemberUpdate) → IsFresh u → IsAbove j low (merge_ping now engine u)
  merge_ping-rank u fresh =
      merge_ping-cases now engine u (λ view. low ≤ rank view j) (omega arith)
        (λ new. rank-add_new engine.cluster_view j v.view (member_of u u.status now) now new)
        (λ old found newer.
          rank-rejoin engine.cluster_view j v.view (member_of u alive now) old now found newer
            fresh)
        (set_status-rank u.node_id u.status u.incarnation)

  pub merge_ack-rank : (u : MemberUpdate) → IsAbove j low (merge_ack now engine u)
  unfolding merge_ack
  merge_ack-rank u = elim (Option-cases (ClusterView.get engine.cluster_view u.node_id)) [
    | inl new ↦
        rw (new, merge_ack)
          (rank-add_new engine.cluster_view j v.view (member_of u u.status now) now new)
    | inr (old, found) ↦
        rw (found, merge_ack)
          (both (IsAbove j low) (ltb old.incarnation u.incarnation)
            (set_status-rank u.node_id u.status u.incarnation) (omega arith))
  ]

  pub hear_alive-rank : (u : MemberUpdate) → IsAbove j low (hear_alive now engine u)
  unfolding hear_alive
  hear_alive-rank u = elim (Option-cases (ClusterView.get engine.cluster_view u.node_id)) [
    | inl new ↦ rw (new, hear_alive) (omega arith)
    | inr (old, found) ↦
        rw (found, hear_alive)
          (both (IsAbove j low) (ltb old.incarnation u.incarnation)
            (set_status-rank u.node_id alive u.incarnation) (omega arith))
  ]

  pub hear_dead-rank : (u : MemberUpdate) → IsAbove j low (hear_dead now engine u)
  unfolding hear_dead
  hear_dead-rank u = elim (Option-cases (ClusterView.get engine.cluster_view u.node_id)) [
    | inl new ↦ rw (new, hear_dead) (omega arith)
    | inr (old, found) ↦ rw (found, hear_dead) (set_status-rank u.node_id dead u.incarnation)
  ]

  pub recover-rank : (k : ℕ) → IsAbove j low (recover now engine k)
  unfolding recover
  recover-rank k = elim (Option-cases (ClusterView.get engine.cluster_view k)) [
    | inl new ↦ rw (new, recover) (omega arith)
    | inr (old, found) ↦
        rw (found, recover)
          (both (IsAbove j low) (eq_status old.status suspect)
            (set_status-rank k alive old.incarnation) (omega arith))
  ]

  pub hear_suspect-rank : (u : MemberUpdate) → IsAbove j low (hear_suspect now engine u)
  unfolding hear_suspect refute
  hear_suspect-rank u =
      let ours = u.node_id == engine.my_id in
      let suspects = eq_status u.status suspect in
      let lives : Bool = elim (ClusterView.get engine.cluster_view u.node_id) [
        | none ↦ false
        | some existing ↦ leb existing.incarnation u.incarnation && eq_status existing.status alive
      ] in
      let kept : IsAbove j low engine = omega arith in
      let raised : Engine = record engine { incarnation = (engine.incarnation + 1) % 2 ^ 64 } in
      both (IsAbove j low) (ours && suspects)
        (rw (same_view-queue_times 3 raised (self_update raised now)) kept)
        (both (IsAbove j low) (not ours && suspects)
          (both (IsAbove j low) lives (set_status-rank u.node_id suspect u.incarnation) kept) kept)
