-- ===== src/ClusterView/Refine.antt =====
-- The array of src/cluster/membership.c against the partial map of `Registry`.
use mathlib.Core.Path.{fun_ext}
use roole.Base.{
  ℕ, ◌≡◌, refl, ◌∙◌, ap, inl, inr, Option, none, some, List, [], ◌∷◌, ◌++◌, arith, length,
  Option-cases, length-append, leb, Bool-cases, ◌==◌, if◌then◌else◌,
}
use roole.Base.Status.{ResultStatus, ok, NodeStatus}
use roole.Table.{find, modify, remove}
use roole.Table.Laws.{
  length-modify, length-remove, find_of_modify, find-modify, find-append, find_of_remove,
  modify-eq_none, remove-eq_none,
}
use roole.Table.Distinct.{find-remove}
use roole.ClusterView.{
  ClusterView, ClusterMember, member_id, merge, add, append, restate, update_status, delete,
}
use roole.ClusterView.Invariant.{
  IsValid, node_id-merge, node_id-restate, Call, adds, updates, deletes, step, run, step-IsValid,
}
use roole.ClusterView.Registry
use roole.ClusterView.Registry.{Registry, update}

abbrev pub registry : ClusterView → Registry
registry v = record {
  lookup = λ k. find member_id k v.members;
  size = length v.members;
  capacity = v.capacity;
}

-- Two replies with the same status and capacity.
reply :
    (s : ResultStatus) (c : ℕ) {f g : ℕ → Option ClusterMember} {m n : ℕ}
    → f ≡ g
    → m ≡ n
    → ◌≡◌ {A = ResultStatus × Registry}
        (s, record { lookup = f; size = m; capacity = c })
        (s, record { lookup = g; size = n; capacity = c })
reply s c p q = λ i. (s, record { lookup = p i; size = q i; capacity = c })

module _ (v : ClusterView) where
  modified :
      (k : ℕ) (f : ClusterMember → ClusterMember) (ms : List ClusterMember) (old : ClusterMember)
      → ((a : ClusterMember) → a.node_id ≡ k → (f a).node_id ≡ k)
      → find member_id k v.members ≡ some old
      → modify member_id k f v.members ≡ some ms
      → (λ j. find member_id j ms) ≡ update (λ j. find member_id j v.members) k (some (f old))
  modified k f ms old same e got =
      fun_ext λ j. find-modify member_id k j f v.members ms same got ∙ rw e

  add_refines :
      (m : ClusterMember) (now : ℕ)
      → let (s, v') = add v m now in
        ◌≡◌ {A = ResultStatus × Registry} (s, registry v') (Registry.add (registry v) m now)
  unfolding add append Registry.add
  add_refines m now = elim (Option-cases (find member_id m.node_id v.members)) [
    | inl e ↦
        rw (e, modify-eq_none member_id m.node_id (merge now m) v.members e, add, Registry.add)
          (elim (Bool-cases (leb v.capacity (length v.members))) [
            | inl full ↦ rw full
            | inr room ↦ rw room (
                reply ok v.capacity (fun_ext (appended e))
                  (ground (arith, length-append v.members (record m { last_seen_ms = now } ∷ []))))
          ])
    | inr (old, e) ↦ elim (Option-cases (modify member_id m.node_id (merge now m) v.members)) [
      | inl gone ↦ cc (find_of_modify member_id m.node_id (merge now m) v.members gone)
      | inr (ms, got) ↦
          rw (e, got, add, Registry.add)
            (reply ok v.capacity
              (modified m.node_id (merge now m) ms old (λ a. node_id-merge now m a) e got)
              (length-modify member_id m.node_id (merge now m) v.members ms got))
    ]
  ]
    where
      new : ClusterMember
      new = record m { last_seen_ms = now }

      appended :
          find member_id m.node_id v.members ≡ none
          → (j : ℕ)
          → find member_id j (v.members ++ new ∷ [])
            ≡ (if m.node_id == j then some new else find member_id j v.members)
      appended e j = ground (arith, find-append member_id j v.members new)

  update_status_refines :
      (k : ℕ) (status : NodeStatus) (incarnation now : ℕ)
      → let (s, v') = update_status v k status incarnation now in
        ◌≡◌ {A = ResultStatus × Registry}
          (s, registry v')
          (Registry.update_status (registry v) k status incarnation now)
  unfolding update_status Registry.update_status
  update_status_refines k status incarnation now =
      elim (Option-cases (find member_id k v.members)) [
        | inl e ↦
            rw (e, modify-eq_none member_id k f v.members e, update_status, Registry.update_status)
        | inr (old, e) ↦ elim (Option-cases (modify member_id k f v.members)) [
          | inl gone ↦ cc (find_of_modify member_id k f v.members gone)
          | inr (ms, got) ↦
              rw (e, got, update_status, Registry.update_status)
                (reply ok v.capacity
                  (modified k f ms old (λ a h. node_id-restate status incarnation now a ∙ h) e got)
                  (length-modify member_id k f v.members ms got))
        ]
      ]
    where
      f : ClusterMember → ClusterMember
      f = restate status incarnation now

  delete_refines :
      (k : ℕ)
      → IsValid v
      → let (s, v') = delete v k in
        ◌≡◌ {A = ResultStatus × Registry} (s, registry v') (Registry.delete (registry v) k)
  unfolding delete Registry.delete
  delete_refines k valid = elim (Option-cases (remove member_id k v.members)) [
    | inl gone ↦ rw (gone, find_of_remove member_id k v.members gone, delete, Registry.delete)
    | inr (ms, got) ↦ elim (Option-cases (find member_id k v.members)) [
      | inl e ↦ cc (remove-eq_none member_id k v.members e)
      | inr (old, e) ↦
          rw (e, got, delete, Registry.delete)
            (reply ok v.capacity
              (fun_ext λ j. find-remove member_id k j v.members ms valid.distinct got)
              (omega (arith, length-remove member_id k v.members ms got)))
    ]
  ]

-- The same call on the map.
unfoldable pub spec_step : Registry → Call → ResultStatus × Registry
unfolding Registry.add Registry.update_status Registry.delete
spec_step r (adds m now) = Registry.add r m now
spec_step r (updates k status incarnation now) = Registry.update_status r k status incarnation now
spec_step r (deletes k) = Registry.delete r k

-- On a well-formed view `cluster_view_add`, `cluster_view_update_status` and
-- `cluster_view_remove` each return the status that the call on the map returns, and leave the
-- view that stands for the resulting map.
pub cluster_step_refines :
    (v : ClusterView) (c : Call)
    → IsValid v
    → let (s, v') = step v c in
      ◌≡◌ {A = ResultStatus × Registry} (s, registry v') (spec_step (registry v) c)
unfolding step spec_step
cluster_step_refines v (adds m now) valid = add_refines v m now
cluster_step_refines v (updates k status incarnation now) valid =
    update_status_refines v k status incarnation now
cluster_step_refines v (deletes k) valid = delete_refines v k valid

pub spec_run : Registry → List Call → Registry
spec_run r [] = r
spec_run r (c ∷ cs) = spec_run (spec_step r c).1 cs

-- From a well-formed view, any sequence of `cluster_view_add`, `cluster_view_update_status` and
-- `cluster_view_remove` leaves a view that stands for the map that the same calls leave of the
-- map it stood for: the same members under the same ids, as many, and the same capacity.
pub cluster_run_refines :
    (v : ClusterView) (cs : List Call) → IsValid v → registry (run v cs) ≡ spec_run (registry v) cs
unfolding run spec_run
cluster_run_refines v [] valid = refl
cluster_run_refines v (c ∷ cs) valid =
    cluster_run_refines (step v c).1 cs (step-IsValid v c valid)
    ∙ ap (λ r. spec_run r.1 cs) (cluster_step_refines v c valid)
