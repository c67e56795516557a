-- ===== src/Gossip/Engine/Rank.antt =====
-- How the handlers of src/cluster/gossip_engine.c move the incarnation numbers of the view.
use roole.Base.{
  ℕ, ◌+◌, ◌^◌, ◌≤◌, ◌<◌, ◌≡◌, subst, inl, inr, none, some, ◌==◌, arith, Bool-cases, Option-cases,
}
use roole.Base.Status.{NodeStatus}
use roole.ClusterView
use roole.ClusterView.{ClusterView, ClusterMember, merge, restate}
use roole.ClusterView.Invariant.{IsValid}
use roole.ClusterView.Incarnation.{get-update_status, get-add_new, get-add_known}

-- What the view knows of a node: 0 for nothing, else one more than the incarnation number.
abbrev pub rank : ClusterView → ℕ → ℕ
rank view j = elim (ClusterView.get view j) [ none ↦ 0 | some m ↦ m.incarnation + 1 ]

module _ (view : ClusterView) (j : ℕ) (v : IsValid view) where
  pub rank-update_status :
      (k : ℕ) (status : NodeStatus) (incarnation now : ℕ)
      → rank view j ≤ rank (ClusterView.update_status view k status incarnation now).1 j
  unfolding restate
  rank-update_status k status incarnation now = elim (Bool-cases (k == j)) [
    | inr other ↦ ground (arith, other, get-update_status view k status incarnation now j v)
    | inl hit ↦
        let same : k ≡ j = ground arith in
        elim (Option-cases (ClusterView.get view j)) [
          | inl gone ↦ ground (arith, gone)
          | inr (m, found) ↦
              ground (arith, hit, same, found, get-update_status view k status incarnation now j v)
        ]
  ]

  pub rank-add_new :
      (m : ClusterMember) (now : ℕ)
      → ClusterView.get view m.node_id ≡ none
      → rank view j ≤ rank (ClusterView.add view m now).1 j
  rank-add_new m now new = elim (Bool-cases (m.node_id == j)) [
    | inr other ↦ ground (arith, other, get-add_new view m now j v new)
    | inl hit ↦
        let same : m.node_id ≡ j = ground arith in
        let absent : ClusterView.get view j ≡ none =
          subst (λ k. ClusterView.get view k ≡ none) same new in
        ground (arith, absent)
  ]

  pub rank-rejoin :
      (m old : ClusterMember) (now : ℕ)
      → ClusterView.get view m.node_id ≡ some old
      → old.incarnation < m.incarnation
      → m.incarnation + 1 < 2 ^ 64
      → rank view j ≤ rank (ClusterView.add view m now).1 j
  unfolding merge
  rank-rejoin m old now found newer bound = elim (Bool-cases (m.node_id == j)) [
    | inr other ↦ ground (arith, other, get-add_known view m old now j v found)
    | inl hit ↦
        let same : m.node_id ≡ j = ground arith in
        let known : ClusterView.get view j ≡ some old =
          subst (λ k. ClusterView.get view k ≡ some old) same found in
        ground (arith, hit, known, get-add_known view m old now j v found)
  ]
