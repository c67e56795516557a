-- ===== src/ExecutionTracker/Run.antt =====
-- Sequences of calls on the tracker of src/node/execution_tracker.c.
use roole.Base.{ℕ, ◌+◌, ◌^◌, ◌≤◌, ◌<◌, inl, inr, List, [], ◌∷◌, arith, length, Option-cases}
use roole.Slots.{claim, modify}
use roole.ExecutionTracker.{
  ExecutionTracker, ExecutionStatus, record_id, is_active, submitted, add, restate, update_status,
  deactivate, delete, cleanup_completed,
}
use roole.ExecutionTracker.Invariant.{IsValid, add-IsValid, update_status-IsValid, delete-IsValid}
use roole.ExecutionTracker.Cleanup.{cleanup_completed-IsValid}

-- One call under the tracker's write lock.
pub data Call : Type 0 where
  adds : ℕ → ℕ → List ℕ → ℕ → ℕ → Call
  updates : ℕ → ExecutionStatus → ℕ → Call
  deletes : ℕ → Call
  cleans : ℕ → Call

pub step : ExecutionTracker → Call → ExecutionTracker
step t (adds dag_id peer_id message max_retries now) =
    (add t dag_id peer_id message max_retries now).1
step t (updates k status now) = (update_status t k status now).1
step t (deletes k) = (delete t k).1
step t (cleans now) = (cleanup_completed t now).1

pub run : ExecutionTracker → List Call → ExecutionTracker
unfolding step
run t [] = t
run t (c ∷ cs) = run (step t c) cs

step-IsValid :
    (t : ExecutionTracker) (c : Call) → IsValid t → t.next_exec_id + 1 < 2 ^ 64 → IsValid (step t c)
unfolding step
step-IsValid t (adds dag_id peer_id message max_retries now) v room =
    add-IsValid t v dag_id peer_id message max_retries now room
step-IsValid t (updates k status now) v room = update_status-IsValid t v k status now
step-IsValid t (deletes k) v room = delete-IsValid t v k
step-IsValid t (cleans now) v room = cleanup_completed-IsValid t now v

-- A call takes at most one id.
next_exec_id-step :
    (t : ExecutionTracker) (c : Call)
    → t.next_exec_id + 1 < 2 ^ 64
    → (step t c).next_exec_id ≤ t.next_exec_id + 1
unfolding step add update_status delete cleanup_completed
next_exec_id-step t (adds dag_id peer_id message max_retries now) room =
    elim (Option-cases
      (claim record_id is_active (submitted t dag_id peer_id message max_retries now) t.records)) [
        | inl gone ↦ ground (arith, gone)
        | inr (rs, got) ↦ ground (arith, got)
      ]
next_exec_id-step t (updates k status now) room =
    elim (Option-cases (modify record_id is_active k (restate status now) t.records)) [
      | inl gone ↦ ground (arith, gone)
      | inr (rs, got) ↦ ground (arith, got)
    ]
next_exec_id-step t (deletes k) room =
    elim (Option-cases (modify record_id is_active k deactivate t.records)) [
      | inl gone ↦ ground (arith, gone)
      | inr (rs, got) ↦ ground (arith, got)
    ]
next_exec_id-step t (cleans now) room = omega arith

-- A well-formed tracker stays so through any sequence of calls during which the counter of ids
-- cannot wrap around: its array keeps its size, no id is in use twice, and every id in use is
-- positive and below the next one.
pub tracker_run-IsValid :
    (t : ExecutionTracker) (cs : List Call)
    → IsValid t
    → t.next_exec_id + length cs < 2 ^ 64
    → IsValid (run t cs)
unfolding run
tracker_run-IsValid t [] v room = v
tracker_run-IsValid t (c ∷ cs) v room =
    let more : t.next_exec_id + 1 < 2 ^ 64 = omega arith in
    tracker_run-IsValid (step t c) cs (step-IsValid t c v more)
      (omega (arith, next_exec_id-step t c more))
