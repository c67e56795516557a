-- ===== src/ClusterView/Invariant.antt =====
-- The well-formedness of the cluster view: no node is listed twice and the array is not overrun.
use roole.Base.{
  ℕ, ◌≤◌, ◌<◌, ◌≡◌, ◌∙◌, subst, inl, inr, Bool, some, List, [], ◌∷◌, arith, length, Option-cases,
  length-append, leb, Bool-cases,
}
use roole.Base.Status.{ResultStatus, ok, NodeStatus}
use roole.Table.{modify, remove}
use roole.Table.Laws.{length-modify, length-remove, find_of_modify}
use roole.Table.Distinct.{IsDistinct, append-IsDistinct, modify-IsDistinct, remove-IsDistinct}
use roole.ClusterView.{
  ClusterView, ClusterMember, member_id, init, merge, add, append, restate, update_status, delete,
}

pub record IsValid (view : ClusterView) : Type 0 where
  pub distinct : IsDistinct member_id view.members
  pub bounded : length view.members ≤ view.capacity

pub node_id-merge :
    (now : ℕ) (m : ClusterMember) (x : ClusterMember)
    → x.node_id ≡ m.node_id
    → (merge now m x).node_id ≡ m.node_id
unfolding merge
node_id-merge now m x e = ground arith

pub node_id-restate :
    (status : NodeStatus) (incarnation now : ℕ) (x : ClusterMember)
    → (restate status incarnation now x).node_id ≡ x.node_id
unfolding restate
node_id-restate status incarnation now x = ground arith

-- A view that `cluster_view_init` hands out is well formed and lists nobody.
pub cluster_init-IsValid :
    (capacity : ℕ) (allocated locked : Bool) {view : ClusterView}
    → init capacity allocated locked ≡ (ok, some view)
    → IsValid view × (view.members ≡ []) × (0 < view.capacity)
unfolding init
cluster_init-IsValid capacity allocated locked {view} e = (
  subst IsValid made (record { distinct = tt; bounded = ground arith }),
  ground arith,
  ground arith,
)
  where
    made : record { members = []; capacity = capacity } ≡ view
    made = ground arith

module _ (view : ClusterView) (valid : IsValid view) where
  replaced-IsValid :
      (k : ℕ) (f : ClusterMember → ClusterMember) (ms : List ClusterMember)
      → ((m : ClusterMember) → m.node_id ≡ k → (f m).node_id ≡ k)
      → modify member_id k f view.members ≡ some ms
      → IsValid (record view { members = ms })
  replaced-IsValid k f ms same e = record {
    distinct = modify-IsDistinct member_id k f view.members ms same valid.distinct e;
    bounded = omega (arith, length-modify member_id k f view.members ms e, valid.bounded);
  }

  pub add-IsValid : (member : ClusterMember) (now : ℕ) → IsValid (add view member now).1
  unfolding add append
  add-IsValid member now =
      elim (Option-cases (modify member_id member.node_id (merge now member) view.members)) [
        | inr (ms, e) ↦
            rw (e, add)
              (replaced-IsValid member.node_id (merge now member) ms
                (λ m. node_id-merge now member m) e)
        | inl e ↦
            rw (e, add)
              (elim (Bool-cases (leb view.capacity (length view.members))) [
                | inl full ↦ rw full valid
                | inr room ↦ rw room (record {
                  distinct =
                      append-IsDistinct member_id view.members
                        (record member { last_seen_ms = now }) valid.distinct
                        (find_of_modify member_id member.node_id (merge now member) view.members e);
                  bounded = ground (
                    arith,
                    length-append view.members (record member { last_seen_ms = now } ∷ []),
                  );
                })
              ])
      ]

  pub update_status-IsValid :
      (node_id : ℕ) (status : NodeStatus) (incarnation now : ℕ)
      → IsValid (update_status view node_id status incarnation now).1
  unfolding update_status
  update_status-IsValid node_id status incarnation now =
      elim (Option-cases (modify member_id node_id f view.members)) [
        | inr (ms, e) ↦ rw (e, update_status) (replaced-IsValid node_id f ms (λ m. same m) e)
        | inl e ↦ rw (e, update_status) valid
      ]
    where
      f : ClusterMember → ClusterMember
      f = restate status incarnation now

      same : (m : ClusterMember) → m.node_id ≡ node_id → (f m).node_id ≡ node_id
      same m e = node_id-restate status incarnation now m ∙ e

  pub delete-IsValid : (node_id : ℕ) → IsValid (delete view node_id).1
  unfolding delete
  delete-IsValid node_id = elim (Option-cases (remove member_id node_id view.members)) [
    | inr (ms, e) ↦
        rw (e, delete)
          (record {
            distinct = remove-IsDistinct member_id node_id view.members ms valid.distinct e;
            bounded =
                omega (arith, length-remove member_id node_id view.members ms e, valid.bounded);
          })
    | inl e ↦ rw (e, delete) valid
  ]

-- One call under the view's write lock.
pub data Call : Type 0 where
  adds : ClusterMember → ℕ → Call
  updates : ℕ → NodeStatus → ℕ → ℕ → Call
  deletes : ℕ → Call

unfoldable pub step : ClusterView → Call → ResultStatus × ClusterView
step view (adds member now) = add view member now
step view (updates node_id status incarnation now) =
    update_status view node_id status incarnation now
step view (deletes node_id) = delete view node_id

-- Calls in any order, by any threads: the lock makes a sequence of them.
unfoldable pub run : ClusterView → List Call → ClusterView
unfolding step
run view [] = view
run view (c ∷ cs) = run (step view c).1 cs

pub step-IsValid : (view : ClusterView) (c : Call) → IsValid view → IsValid (step view c).1
unfolding step
step-IsValid view (adds member now) v = add-IsValid view v member now
step-IsValid view (updates n status i now) v = update_status-IsValid view v n status i now
step-IsValid view (deletes n) v = delete-IsValid view v n

-- A view that lists no node twice and does not overrun its array stays so through any sequence of
-- `cluster_view_add`, `cluster_view_update_status` and `cluster_view_remove`.
pub cluster_run-IsValid :
    (view : ClusterView) (cs : List Call) → IsValid view → IsValid (run view cs)
unfolding run
cluster_run-IsValid view [] v = v
cluster_run-IsValid view (c ∷ cs) v = cluster_run-IsValid (step view c).1 cs (step-IsValid view c v)
