-- ===== src/Gossip/Engine/Cases.antt =====
-- What one round of the loop of `handle_ping_message` of src/cluster/gossip_engine.c does to the view,
-- and what it leaves alone.
use roole.Base.{
  ℕ, ◌<◌, ◌≡◌, refl, inl, inr, true, ◌&&◌, none, some, arith, ltb, Bool-cases, Option-cases, both,
}
use roole.Base.Status.{alive, suspect, dead, eq_status}
use roole.ClusterView
use roole.ClusterView.{ClusterView, ClusterMember}
use roole.Gossip.Message.{MemberUpdate}
use roole.Gossip.Engine.{Engine, notify_status, notify, set_view, member_update}
use roole.Gossip.Engine.Ping.{member_of, event_of, set_status, merge_ping}

-- Engines that differ at most in the view, the queue of updates and the calls of the callback.
pub record Frame (before after : Engine) : Type 0 where
  pub same_id : after.my_id ≡ before.my_id
  pub same_sequence : after.sequence_num ≡ before.sequence_num
  pub same_sent : after.sent ≡ before.sent

notify_status-Frame : (engine : Engine) (u : MemberUpdate) → Frame engine (notify_status engine u)
unfolding notify_status
notify_status-Frame engine u = elim (Bool-cases (eq_status u.status suspect)) [
  | inl s ↦ rw s (record { same_id = refl; same_sequence = refl; same_sent = refl })
  | inr s ↦ rw s (elim (Bool-cases (eq_status u.status dead)) [
    | inl d ↦ rw d (record { same_id = refl; same_sequence = refl; same_sent = refl })
    | inr d ↦ rw d (elim (Bool-cases (eq_status u.status alive)) [
      | inl a ↦ rw a (record { same_id = refl; same_sequence = refl; same_sent = refl })
      | inr a ↦ rw a (record { same_id = refl; same_sequence = refl; same_sent = refl })
    ])
  ])
]

same_view-notify_status :
    (engine : Engine) (u : MemberUpdate)
    → (notify_status engine u).cluster_view ≡ engine.cluster_view
unfolding notify_status
same_view-notify_status engine u = ground arith

module _ (now : ℕ) (engine : Engine) (u : MemberUpdate) where
  -- The view stays, gets a new member, takes a DEAD member back, or has a newer status of a member.
  pub merge_ping-cases :
      (P : ClusterView → Type 0)
      → P engine.cluster_view
      → (ClusterView.get engine.cluster_view u.node_id ≡ none
          → P (ClusterView.add engine.cluster_view (member_of u u.status now) now).1)
      → ((old : ClusterMember)
          → ClusterView.get engine.cluster_view u.node_id ≡ some old
          → old.incarnation < u.incarnation
          → P (ClusterView.add engine.cluster_view (member_of u alive now) now).1)
      → P (ClusterView.update_status engine.cluster_view u.node_id u.status u.incarnation now).1
      → P (merge_ping now engine u).cluster_view
  unfolding merge_ping
  merge_ping-cases P kept added back updated =
      elim (Option-cases (ClusterView.get engine.cluster_view u.node_id)) [
        | inl new ↦ rw (new, merge_ping) (added new)
        | inr (old, found) ↦ elim (Bool-cases (ltb old.incarnation u.incarnation)) [
          | inr older ↦ elim (Bool-cases (eq_status old.status dead && eq_status u.status alive)) [
            | inl back ↦ rw (found, back, older, merge_ping) kept
            | inr other ↦ rw (found, other, older, merge_ping) kept
          ]
          | inl newer ↦
              let status = set_status now engine u.node_id u.status u.incarnation in
              let Q : (Engine → Type 0) = λ e. P e.cluster_view in
              rw (found, newer, merge_ping)
                (both Q ((eq_status old.status dead && eq_status u.status alive) && true)
                  (back old found (ground arith))
                  (both Q (eq_status u.status old.status) updated
                    (rw (same_view-notify_status status u) updated)))
        ]
      ]

  pub merge_ping-Frame : Frame engine (merge_ping now engine u)
  unfolding merge_ping
  merge_ping-Frame =
      let same : Frame engine engine = record {
        same_id = refl;
        same_sequence = refl;
        same_sent = refl;
      } in
      let status = set_status now engine u.node_id u.status u.incarnation in
      let told = notify_status-Frame status u in
      let rejoined =
        notify (set_view engine (ClusterView.add engine.cluster_view (member_of u alive now) now).1)
          (event_of u member_update) in
      let P : (Engine → Type 0) = Frame engine in
      let rejoined-Frame : P rejoined = record {
        same_id = refl;
        same_sequence = refl;
        same_sent = refl;
      } in
      let status-Frame : P status = record {
        same_id = refl;
        same_sequence = refl;
        same_sent = refl;
      } in
      let told-Frame : P (notify_status status u) = record {
        same_id = told.same_id;
        same_sequence = told.same_sequence;
        same_sent = told.same_sent;
      } in
      elim (Option-cases (ClusterView.get engine.cluster_view u.node_id)) [
        | inl new ↦
            rw (new, merge_ping) (record { same_id = refl; same_sequence = refl; same_sent = refl })
        | inr (old, found) ↦
            let newer = ltb old.incarnation u.incarnation in
            rw (found, merge_ping)
              (both P ((eq_status old.status dead && eq_status u.status alive) && newer)
                rejoined-Frame
                (both P newer (both P (eq_status u.status old.status) status-Frame told-Frame)
                  same))
      ]
