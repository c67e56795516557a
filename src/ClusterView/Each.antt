-- ===== src/ClusterView/Each.antt =====
-- Predicates on the members of the view of src/cluster/membership.c, and the calls that keep them.
use roole.Base.{
  ℕ, ◌≡◌, inl, inr, some, List, [], ◌∷◌, ◌==◌, arith, leb, length, All, All-append, Bool-cases,
  Option-cases, subst,
}
use roole.Base.Status.{NodeStatus}
use roole.Table.{modify}
use roole.ClusterView.{
  ClusterView, ClusterMember, member_id, merge, add, append, restate, update_status,
}

modify-All :
    (P : ClusterMember → Type 0) (k : ℕ) (f : ClusterMember → ClusterMember)
    (xs ys : List ClusterMember)
    → ((m : ClusterMember) → P m → P (f m))
    → All P xs
    → modify member_id k f xs ≡ some ys
    → All P ys
unfolding modify
modify-All P k f [] ys keeps h e = cc
modify-All P k f (x ∷ xs) ys keeps (p, ps) e = elim (Bool-cases (x.node_id == k)) [
  | inl hit ↦
      let same : (f x ∷ xs) ≡ ys = ground (arith, hit, e) in subst (All P) same (keeps x p, ps)
  | inr miss ↦ elim (Option-cases (modify member_id k f xs)) [
    | inl gone ↦ absurd (ground (arith, miss, gone, e))
    | inr (zs, got) ↦
        let same : (x ∷ zs) ≡ ys = ground (arith, miss, got, e) in
        subst (All P) same (p, modify-All P k f xs zs keeps ps got)
  ]
]

module _ (P : ClusterMember → Type 0) (view : ClusterView) (h : All P view.members) where
  pub update_status-All :
      (k : ℕ) (status : NodeStatus) (incarnation now : ℕ)
      → ((m : ClusterMember) → P m → P (restate status incarnation now m))
      → All P (update_status view k status incarnation now).1.members
  unfolding update_status
  update_status-All k status incarnation now keeps =
      let f : (ClusterMember → ClusterMember) = restate status incarnation now in
      elim (Option-cases (modify member_id k f view.members)) [
        | inl gone ↦ rw (gone, update_status) h
        | inr (ms, got) ↦ rw (got, update_status) (modify-All P k f view.members ms keeps h got)
      ]

  pub add-All :
      (m : ClusterMember) (now : ℕ)
      → ((old : ClusterMember) → P old → P (merge now m old))
      → P (record m { last_seen_ms = now })
      → All P (add view m now).1.members
  unfolding add append
  add-All m now keeps fresh =
      elim (Option-cases (modify member_id m.node_id (merge now m) view.members)) [
        | inr (ms, got) ↦
            rw (got, add) (modify-All P m.node_id (merge now m) view.members ms keeps h got)
        | inl gone ↦
            rw (gone, add)
              (elim (Bool-cases (leb view.capacity (length view.members))) [
                | inl full ↦ rw full h
                | inr room ↦
                    rw room (
                      All-append P view.members (record m { last_seen_ms = now } ∷ []) h
                        (fresh, tt))
              ])
      ]
