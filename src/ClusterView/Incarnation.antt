-- ===== src/ClusterView/Incarnation.antt =====
-- Incarnation numbers in src/cluster/membership.c: which calls may change a member and how the
-- number moves.
use mathlib.Core.Option
use roole.Base.{
  if◌then◌else◌, ◌==◌, ℕ, ◌+◌, ◌%◌, ◌^◌, ◌≤◌, ◌<◌, ◌≡◌, ap, Bool, false, ◌&&◌, none, some, arith,
  leb, length, inl, inr, Bool-cases,
}
use roole.Base.Status.{ok, NodeStatus, alive, dead, eq_status}
use roole.ClusterView.{ClusterView, ClusterMember, merge, add, restate, update_status, get}
use roole.ClusterView.Invariant.{IsValid, Call, adds, updates, deletes, step}
use roole.ClusterView.Refine.{registry, spec_step, cluster_step_refines}

-- Whether the call takes a member that is DEAD back as ALIVE.
abbrev pub is_rejoin : Call → ClusterMember → Bool
is_rejoin (adds m now) old = eq_status m.status alive && eq_status old.status dead
is_rejoin (updates k status i now) old = false
is_rejoin (deletes k) old = false

-- A look-up after a call is that of the specification.
lookup-step :
    (v : ClusterView) (c : Call) (j : ℕ)
    → IsValid v
    → get (step v c).1 j ≡ (spec_step (registry v) c).1.lookup j
unfolding get
lookup-step v c j valid = ap (λ r. r.1.lookup j) (cluster_step_refines v c valid)

status-step : (v : ClusterView) (c : Call) → IsValid v → (step v c).0 ≡ (spec_step (registry v) c).0
status-step v c valid = ap (λ r. r.0) (cluster_step_refines v c valid)

-- A status update changes the member with the id, and no other.
pub get-update_status :
    (v : ClusterView) (k : ℕ) (status : NodeStatus) (i now j : ℕ)
    → IsValid v
    → get (update_status v k status i now).1 j
      ≡ (if k == j then Option.map (restate status i now) (get v k) else get v j)
unfolding get step spec_step
get-update_status v k status i now j valid =
    ground (arith, lookup-step v (updates k status i now) j valid)

-- An addition changes what is found under the id of the member, and nothing else.
pub get-add_new :
    (v : ClusterView) (m : ClusterMember) (now j : ℕ)
    → IsValid v
    → get v m.node_id ≡ none
    → get (add v m now).1 j ≡ (
        if m.node_id == j
        then if leb v.capacity (length v.members)
          then none
          else some (record m { last_seen_ms = now })
        else get v j)
unfolding get step spec_step
get-add_new v m now j valid new = elim (Bool-cases (m.node_id == j)) [
  | inr other ↦ ground (arith, other, new, lookup-step v (adds m now) j valid)
  | inl hit ↦
      let same : m.node_id ≡ j = ground arith in
      ground (arith, hit, same, new, lookup-step v (adds m now) j valid)
]

pub get-add_known :
    (v : ClusterView) (m old : ClusterMember) (now j : ℕ)
    → IsValid v
    → get v m.node_id ≡ some old
    → get (add v m now).1 j ≡ (if m.node_id == j then some (merge now m old) else get v j)
unfolding get step spec_step
get-add_known v m old now j valid found = ground (arith, found, lookup-step v (adds m now) j valid)

-- On a well-formed view no call lowers the incarnation number of a member that is listed before
-- and after it, but a rejoin: the addition of an ALIVE member over a DEAD one.
pub step-incarnation :
    (v : ClusterView) (c : Call) (j : ℕ) (a b : ClusterMember)
    → IsValid v
    → get v j ≡ some a
    → get (step v c).1 j ≡ some b
    → is_rejoin c a ≡ false
    → a.incarnation ≤ b.incarnation
unfolding get spec_step merge restate
step-incarnation v (adds m now) j a b valid before after calm =
    ground (arith, lookup-step v (adds m now) j valid)
step-incarnation v (updates k status i now) j a b valid before after calm =
    ground (arith, lookup-step v (updates k status i now) j valid)
step-incarnation v (deletes k) j a b valid before after calm =
    ground (arith, lookup-step v (deletes k) j valid)

-- On a well-formed view, an update of a listed member with a lower incarnation number that is not
-- a rejoin is accepted by `cluster_view_add` and changes no look-up, and neither does
-- `cluster_view_update_status` with that number.
pub stale_ignored :
    (v : ClusterView) (m : ClusterMember) (now k : ℕ) (old : ClusterMember)
    → IsValid v
    → get v m.node_id ≡ some old
    → m.incarnation < old.incarnation
    → is_rejoin (adds m now) old ≡ false
    → (status : NodeStatus)
    → ((add v m now).0 ≡ ok)
      × (get (add v m now).1 k ≡ get v k)
      × (get (update_status v m.node_id status m.incarnation now).1 k ≡ get v k)
unfolding get step spec_step merge restate
stale_ignored v m now k old valid found stale calm status = (
  ground (arith, status-step v (adds m now) valid),
  ground (arith, lookup-step v (adds m now) k valid),
  ground (arith, lookup-step v (updates m.node_id status m.incarnation now) k valid),
)

-- On a well-formed view, `cluster_view_add` of an ALIVE member over a DEAD one, with an
-- incarnation number that is lower by two or more, leaves the member ALIVE with a number below
-- the one it had, whatever that was below 2^64.
pub rejoin_lowers :
    (v : ClusterView) (m : ClusterMember) (now : ℕ) (old : ClusterMember)
    → IsValid v
    → get v m.node_id ≡ some old
    → old.status ≡ dead
    → m.status ≡ alive
    → m.incarnation + 1 < old.incarnation
    → old.incarnation < 2 ^ 64
    → (new : ClusterMember) × (get (add v m now).1 m.node_id ≡ some new)
      × (new.status ≡ alive)
      × (new.incarnation < old.incarnation)
unfolding get step spec_step merge
rejoin_lowers v m now old valid found gone back low bound = (
  record m { last_seen_ms = now; incarnation = (m.incarnation + 1) % 2 ^ 64 },
  ground (arith, lookup-step v (adds m now) m.node_id valid),
  back,
  omega arith,
)
