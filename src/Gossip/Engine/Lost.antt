-- ===== src/Gossip/Engine/Lost.antt =====
-- `check_suspect_timeouts` of src/cluster/gossip_engine.c: its loop, which gives up the lock of the
-- view at each member that it buries, against a description of the result.
use roole.Base.{
  ℕ, ◌+◌, ◌≡◌, ◌≢◌, refl, sym, ap, ◌∙◌, subst, inl, inr, none, some, List, [], ◌∷◌, ◌++◌,
  append_assoc, ◌==◌, arith, length, length-append, get_elem?, map, if◌then◌else◌, Bool-cases,
  ==_refl,
}
use roole.Base.Status.{dead}
use roole.Table.{find, modify}
use roole.Table.Distinct.{IsDistinct}
use roole.ClusterView
use roole.ClusterView.{ClusterView, ClusterMember, member_id, restate}
use roole.Gossip.Engine.{Engine}
use roole.Gossip.Engine.Validity.{IsValid, notify-IsValid, queue_update-IsValid, set_status-IsValid}
use roole.Gossip.Engine.Protocol.{is_lost, bury, check_suspects, check_suspect_timeouts}

-- A member that has been SUSPECT for too long is DEAD; the others stay.
abbrev pub buried : ℕ → ℕ → ClusterMember → ClusterMember
buried timeout now m = if is_lost timeout now m then record m { status = dead } else m

get_elem?-append :
    (pre : List ClusterMember) (m : ClusterMember) (ms : List ClusterMember)
    → get_elem? (pre ++ m ∷ ms) (length pre) ≡ some m
get_elem?-append [] m ms = refl
get_elem?-append (x ∷ pre) m ms = get_elem?-append pre m ms

modify-append :
    (pre : List ClusterMember) (m : ClusterMember) (ms : List ClusterMember)
    (f : ClusterMember → ClusterMember)
    → find member_id m.node_id pre ≡ none
    → modify member_id m.node_id f (pre ++ m ∷ ms) ≡ some (pre ++ f m ∷ ms)
unfolding modify find
modify-append [] m ms f h = rw (==_refl m.node_id)
modify-append (x ∷ pre) m ms f h = elim (Bool-cases (x.node_id == m.node_id)) [
  | inl hit ↦ absurd (ground (arith, hit, h))
  | inr miss ↦ ground (arith, miss, h, modify-append pre m ms f)
]

other_key :
    (k : ℕ) (pre : List ClusterMember) (m : ClusterMember) (ms : List ClusterMember)
    → find member_id k (pre ++ m ∷ ms) ≡ none
    → m.node_id ≢ k
unfolding find
other_key k [] m ms h = ground arith
other_key k (x ∷ pre) m ms h = elim (Bool-cases (x.node_id == k)) [
  | inl hit ↦ absurd (ground (arith, hit, h))
  | inr miss ↦ other_key k pre m ms (ground (arith, miss, h))
]

not_before :
    (pre : List ClusterMember) (m : ClusterMember) (ms : List ClusterMember)
    → IsDistinct member_id (pre ++ m ∷ ms)
    → find member_id m.node_id pre ≡ none
unfolding find
not_before [] m ms d = refl
not_before (x ∷ pre) m ms (d, ds) =
    ground (arith, other_key x.node_id pre m ms d, not_before pre m ms ds)

restate-dead :
    (now : ℕ) (m : ClusterMember) → restate dead m.incarnation now m ≡ record m { status = dead }
unfolding restate
restate-dead now m = ground arith

module _ (now : ℕ) (engine : Engine) (pre : List ClusterMember) (m : ClusterMember)
    (ms : List ClusterMember) (here : engine.cluster_view.members ≡ pre ++ m ∷ ms)
    (distinct : IsDistinct member_id engine.cluster_view.members) where
  members-bury : (bury now engine m).cluster_view.members ≡ pre ++ record m { status = dead } ∷ ms
  unfolding ClusterView.update_status
  members-bury =
      let changed : modify member_id m.node_id (restate dead m.incarnation now)
            engine.cluster_view.members
          ≡ some (pre ++ restate dead m.incarnation now m ∷ ms) =
        ap (modify member_id m.node_id (restate dead m.incarnation now)) here
        ∙ modify-append pre m ms (restate dead m.incarnation now)
            (not_before pre m ms (subst (IsDistinct member_id) here distinct)) in
      rw (changed, ClusterView.update_status) (ap (λ x. pre ++ x ∷ ms) (restate-dead now m))

bury-IsValid :
    (now : ℕ) (engine : Engine) (m : ClusterMember) → IsValid engine → IsValid (bury now engine m)
bury-IsValid now engine m v =
    notify-IsValid _ _
      (queue_update-IsValid _ _ (set_status-IsValid now engine m.node_id dead m.incarnation v))

check_suspects_lem :
    (now : ℕ) (pre ms : List ClusterMember) (engine : Engine)
    → IsValid engine
    → engine.cluster_view.members ≡ pre ++ ms
    → (check_suspects now (length ms) (length pre) engine).cluster_view.members
      ≡ pre ++ map (buried engine.config.dead_timeout_ms now) ms
unfolding check_suspects
check_suspects_lem now pre [] engine v here = here
check_suspects_lem now pre (m ∷ ms) engine v here =
    let there : get_elem? engine.cluster_view.members (length pre) ≡ some m =
      ap (λ l. get_elem? l (length pre)) here ∙ get_elem?-append pre m ms in
    elim (Bool-cases (is_lost engine.config.dead_timeout_ms now m)) [
      | inl lost ↦
          let moved = members-bury now engine pre m ms here v.view.distinct in
          rw (there, lost, check_suspects)
            (next (record m { status = dead }) (bury now engine m)
              (check_suspects_lem now (pre ++ record m { status = dead } ∷ []) ms
                (bury now engine m) (bury-IsValid now engine m v)
                (moved ∙ sym (append_assoc pre (record m { status = dead } ∷ []) ms))))
      | inr waits ↦
          rw (there, waits, check_suspects)
            (next m engine (
              check_suspects_lem now (pre ++ m ∷ []) ms engine v
                (here ∙ sym (append_assoc pre (m ∷ []) ms))))
    ]
  where
    -- The loop goes on behind a member that it has left as `x`.
    next :
        (x : ClusterMember) (e : Engine)
        → (check_suspects now (length ms) (length (pre ++ x ∷ [])) e).cluster_view.members
          ≡ (pre ++ x ∷ []) ++ map (buried engine.config.dead_timeout_ms now) ms
        → (check_suspects now (length ms) (length pre + 1) e).cluster_view.members
          ≡ pre ++ x ∷ map (buried engine.config.dead_timeout_ms now) ms
    next x e later =
        ap (λ k. (check_suspects now (length ms) k e).cluster_view.members) {x = length pre + 1}
          (sym (length-append pre (x ∷ [])))
        ∙ later
        ∙ append_assoc pre (x ∷ []) (map (buried engine.config.dead_timeout_ms now) ms)

-- On a well-formed engine whose view no other thread changes meanwhile, `check_suspect_timeouts`
-- makes DEAD exactly the members that are SUSPECT and were last seen longer ago, by a difference
-- modulo 2^64, than the timeout, and leaves everything else of the members and their order as it is.
pub check_suspect_timeouts_lem :
    (now : ℕ) (engine : Engine)
    → IsValid engine
    → (check_suspect_timeouts now engine).cluster_view.members
      ≡ map
          (λ m.
            if is_lost engine.config.dead_timeout_ms now m then record m { status = dead } else m)
          engine.cluster_view.members
unfolding check_suspect_timeouts
check_suspect_timeouts_lem now engine v =
    check_suspects_lem now [] engine.cluster_view.members engine v refl
