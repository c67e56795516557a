-- ===== src/ExecutionTracker/Lookup.antt =====
-- What `execution_tracker_get` of src/node/execution_tracker.c answers after each operation.
use mathlib.Core.Option
use roole.Base.{
  ℕ, ◌<◌, ◌≡◌, ◌≢◌, refl, ◌∙◌, ◌⊎◌, inl, inr, true, ◌||◌, none, some, List, [], ◌∷◌, ◌==◌, ltb,
  if◌then◌else◌, arith, length, All, Bool-cases, Option-cases,
}
use roole.Base.Status.{ok, err_invalid, err_notfound}
use roole.Slots.{modify, claim}
use roole.Slots.Laws.{find-claim, find-modify, find_of_modify, find_of_modify-some}
use roole.ExecutionTracker.{
  ExecutionTracker, ExecutionRecord, ExecutionStatus, record_id, is_active, submitted, add, restate,
  update_status, deactivate, delete, get, max_message_size,
}
use roole.ExecutionTracker.Invariant.{IsValid, exec_id-restate, active-restate, next_unused}

-- A claim fails only where every slot is in use.
claim-eq_none :
    (r : ExecutionRecord) (rs : List ExecutionRecord)
    → claim record_id is_active r rs ≡ none
    → All (λ s. s.active ≡ true) rs
unfolding claim
claim-eq_none r [] e = tt
claim-eq_none r (s ∷ ss) e = (ground arith, claim-eq_none r ss (ground arith))

-- On a well-formed tracker `execution_tracker_add` either returns 0 and changes nothing, which it
-- does only for an empty or oversized message or with every slot in use, or it returns another id
-- that was unknown, under which the PENDING record with the arguments is found afterwards, while
-- every other id is answered as before.
pub tracker_add_lem :
    (t : ExecutionTracker) (dag_id peer_id : ℕ) (message : List ℕ) (max_retries now j : ℕ)
    → IsValid t
    → let (id, t') = add t dag_id peer_id message max_retries now in
      ((id ≡ 0)
        × (t' ≡ t)
        × ((length message ≡ 0)
            ⊎ ((max_message_size < length message) ⊎ All (λ r. r.active ≡ true) t.records)))
      ⊎ ((id ≢ 0)
          × (get t id ≡ none)
          × (get t' j ≡ (
              if id == j
              then some (submitted t dag_id peer_id message max_retries now)
              else get t j)))
unfolding add get
tracker_add_lem t dag_id peer_id message max_retries now j v =
    elim (Bool-cases (length message == 0 || ltb max_message_size (length message))) [
      | inl bad ↦ rw bad (
          inl (
            refl,
            refl,
            elim (Bool-cases (length message == 0)) [
              | inl empty ↦ inl (ground arith)
              | inr long ↦ inr (inl (ground arith))
            ],
          ))
      | inr good ↦ rw good (elim (Option-cases (claim record_id is_active r t.records)) [
        | inl gone ↦ rw gone (inl (refl, refl, inr (inr (claim-eq_none r t.records gone))))
        | inr (rs, got) ↦ rw got (
            inr (
              (λ e. omega (arith, v.positive)),
              ground (arith, next_unused t v),
              ground (
                arith,
                v.positive,
                find-claim record_id is_active j r t.records rs refl (next_unused t v) got,
              ),
            ))
      ])
    ]
  where
    r : ExecutionRecord
    r = submitted t dag_id peer_id message max_retries now

-- On a well-formed tracker `execution_tracker_update_status` fails with INVALID for the id 0 and
-- with NOTFOUND for an unknown id, else succeeds, and changes what is found under that id, by the
-- new status and its time, and under no other.
pub tracker_update_status_lem :
    (t : ExecutionTracker) (k : ℕ) (status : ExecutionStatus) (now j : ℕ)
    → IsValid t
    → let (s, t') = update_status t k status now in
      (s ≡ (if k == 0 then err_invalid else elim (get t k) [ none ↦ err_notfound | some r ↦ ok ]))
      × (get t' j ≡ (if k == j then Option.map (restate status now) (get t k) else get t j))
unfolding update_status get
tracker_update_status_lem t k status now j v =
    elim (Option-cases (modify record_id is_active k f t.records)) [
      | inl gone ↦ ground (arith, gone, find_of_modify record_id is_active k f t.records gone)
      | inr (rs, got) ↦
          let (r, found, on) = find_of_modify-some record_id is_active k f t.records rs got in
          ground (
            arith,
            got,
            found,
            on,
            active-restate status now r,
            find-modify record_id is_active k j f t.records rs
                (λ a h. exec_id-restate status now a ∙ h) v.distinct got,
          )
    ]
  where
    f : ExecutionRecord → ExecutionRecord
    f = restate status now

-- On a well-formed tracker `execution_tracker_remove` fails with INVALID for the id 0 and with
-- NOTFOUND for an unknown id, else succeeds, and afterwards that id is unknown and every other is
-- answered as before.
pub tracker_delete_lem :
    (t : ExecutionTracker) (k j : ℕ)
    → IsValid t
    → let (s, t') = delete t k in
      (s ≡ (if k == 0 then err_invalid else elim (get t k) [ none ↦ err_notfound | some r ↦ ok ]))
      × (get t' j ≡ (if k == j then none else get t j))
unfolding delete get
tracker_delete_lem t k j v =
    elim (Option-cases (modify record_id is_active k deactivate t.records)) [
      | inl gone ↦
          ground (arith, gone, find_of_modify record_id is_active k deactivate t.records gone)
      | inr (rs, got) ↦
          let (r, found, on) =
            find_of_modify-some record_id is_active k deactivate t.records rs got in
          ground (
            arith,
            got,
            found,
            find-modify record_id is_active k j deactivate t.records rs (λ a h. h) v.distinct got,
          )
    ]
