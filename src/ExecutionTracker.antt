-- ===== src/ExecutionTracker.antt =====
-- The execution tracker of src/node/execution_tracker.c and include/roole/node.h: the table of the
-- executions that a node has handed out. The functions run under the tracker's lock, so each is one
-- step on the state. `now` is what `time_now_ms` returns during the call.
pub mod Invariant
pub mod Lookup
pub mod Cleanup
pub mod Run
mod Tests
use mathlib.Core.Option
use roole.Base.{
  ℕ, zero, suc, ◌+◌, ◌-◌, ◌*◌, ◌%◌, ◌^◌, Bool, true, false, not, ◌&&◌, ◌||◌, Option, none, some,
  List, [], ◌∷◌, ◌==◌, ltb, if◌then◌else◌, length, replicate,
}
use roole.Base.Status.{ResultStatus, ok, err_nomem, err_invalid, err_notfound}
use roole.Slots.{find, modify, claim}

-- `execution_status_t`.
pub data ExecutionStatus : Type 0 where
  pending running completed failed retrying timeout : ExecutionStatus

abbrev pub is_completed : ExecutionStatus → Bool
is_completed completed = true
is_completed _ = false

abbrev pub is_failed : ExecutionStatus → Bool
is_failed failed = true
is_failed _ = false

abbrev pub is_running : ExecutionStatus → Bool
is_running running = true
is_running _ = false

abbrev pub is_pending : ExecutionStatus → Bool
is_pending pending = true
is_pending _ = false

-- `execution_record_t`. `message_data` is the `message_len` bytes in use.
pub record ExecutionRecord : Type 0 where
  pub exec_id : ℕ
  pub dag_id : ℕ
  pub assigned_peer : ℕ
  pub status : ExecutionStatus
  pub submit_time_ms : ℕ
  pub start_time_ms : ℕ
  pub complete_time_ms : ℕ
  pub retry_count : ℕ
  pub max_retries : ℕ
  pub message_data : List ℕ
  pub active : Bool

abbrev pub record_id : ExecutionRecord → ℕ
record_id r = r.exec_id

abbrev pub is_active : ExecutionRecord → Bool
is_active r = r.active

-- A slot as `calloc` leaves it.
abbrev pub blank : ExecutionRecord
blank = record {
  exec_id = 0;
  dag_id = 0;
  assigned_peer = 0;
  status = pending;
  submit_time_ms = 0;
  start_time_ms = 0;
  complete_time_ms = 0;
  retry_count = 0;
  max_retries = 0;
  message_data = [];
  active = false;
}

-- `execution_tracker_t`.
pub record ExecutionTracker : Type 0 where
  pub records : List ExecutionRecord
  pub capacity : ℕ
  pub next_exec_id : ℕ

abbrev pub max_message_size : ℕ
max_message_size = 4096

-- `execution_tracker_init`. The tests are whether `safe_calloc` and `pthread_rwlock_init` succeed.
pub init : ℕ → Bool → Bool → ResultStatus × Option ExecutionTracker
init capacity allocated locked =
    if capacity == 0
    then (err_invalid, none)
    else if allocated
    then if locked
      then (
        ok,
        some (record { records = replicate capacity blank; capacity = capacity; next_exec_id = 1 }),
      )
      else (err_invalid, none)
    else (err_nomem, none)

-- `execution_tracker_destroy`.
abbrev pub destroy : ExecutionTracker → ExecutionTracker
destroy t = record t { records = []; capacity = 0 }

-- The record that `execution_tracker_add` writes.
abbrev pub submitted : ExecutionTracker → ℕ → ℕ → List ℕ → ℕ → ℕ → ExecutionRecord
submitted t dag_id peer_id message max_retries now = record {
  exec_id = t.next_exec_id;
  dag_id = dag_id;
  assigned_peer = peer_id;
  status = pending;
  submit_time_ms = now;
  start_time_ms = 0;
  complete_time_ms = 0;
  retry_count = 0;
  max_retries = max_retries;
  message_data = message;
  active = true;
}

-- `execution_tracker_add`: the new id, or 0.
pub add : ExecutionTracker → ℕ → ℕ → List ℕ → ℕ → ℕ → ℕ × ExecutionTracker
add t dag_id peer_id message max_retries now =
    if length message == 0 || ltb max_message_size (length message)
    then (0, t)
    else elim (claim record_id is_active (submitted t dag_id peer_id message max_retries now)
        t.records) [
          | none ↦ (0, t)
          | some records ↦ (
            t.next_exec_id,
            record t { records = records; next_exec_id = (t.next_exec_id + 1) % 2 ^ 64 },
          )
        ]

-- The slot after `execution_tracker_update_status`.
pub restate : ExecutionStatus → ℕ → ExecutionRecord → ExecutionRecord
restate status now r =
    if is_running status && is_pending r.status
    then record r { status = status; start_time_ms = now }
    else if is_completed status || is_failed status
    then record r { status = status; complete_time_ms = now }
    else record r { status = status }

-- `execution_tracker_update_status`.
pub update_status : ExecutionTracker → ℕ → ExecutionStatus → ℕ → ResultStatus × ExecutionTracker
update_status t exec_id status now =
    if exec_id == 0
    then (err_invalid, t)
    else elim (modify record_id is_active exec_id (restate status now) t.records) [
      | none ↦ (err_notfound, t)
      | some records ↦ (ok, record t { records = records })
    ]

-- `execution_tracker_get`, the record as it is while the caller holds the read lock.
pub get : ExecutionTracker → ℕ → Option ExecutionRecord
get t exec_id = if exec_id == 0 then none else find record_id is_active exec_id t.records

abbrev pub is_open : ℕ → ExecutionRecord → Bool
is_open worker_id r =
    r.active
    && r.assigned_peer == worker_id
    && not (is_completed r.status)
    && not (is_failed r.status)

-- The loop of `execution_tracker_get_by_worker`, with room for so many ids more.
pub by_worker : ℕ → ℕ → List ExecutionRecord → List ℕ
by_worker worker_id zero rs = []
by_worker worker_id (suc room) [] = []
by_worker worker_id (suc room) (r ∷ rs) =
    if is_open worker_id r
    then r.exec_id ∷ by_worker worker_id room rs
    else by_worker worker_id (suc room) rs

-- `execution_tracker_get_by_worker`.
pub get_by_worker : ExecutionTracker → ℕ → ℕ → List ℕ
unfolding by_worker
get_by_worker t worker_id max_count = by_worker worker_id max_count t.records

abbrev pub deactivate : ExecutionRecord → ExecutionRecord
deactivate r = record r { active = false }

-- `execution_tracker_remove`.
pub delete : ExecutionTracker → ℕ → ResultStatus × ExecutionTracker
delete t exec_id =
    if exec_id == 0
    then (err_invalid, t)
    else elim (modify record_id is_active exec_id deactivate t.records) [
      | none ↦ (err_notfound, t)
      | some records ↦ (ok, record t { records = records })
    ]

-- Five minutes.
abbrev pub cleanup_threshold_ms : ℕ
cleanup_threshold_ms = 5 * 60 * 1000

-- The test of `execution_tracker_cleanup_completed`; the age is a subtraction of `uint64_t`.
abbrev pub is_stale : ℕ → ExecutionRecord → Bool
is_stale now r =
    (is_completed r.status || is_failed r.status)
    && ltb 0 r.complete_time_ms
    && ltb cleanup_threshold_ms ((now + 2 ^ 64 - r.complete_time_ms) % 2 ^ 64)

pub clean : ℕ → List ExecutionRecord → ℕ × List ExecutionRecord
clean now [] = (0, [])
clean now (r ∷ rs) =
    let (cleaned, rest) = clean now rs in
    if r.active && is_stale now r then (cleaned + 1, deactivate r ∷ rest) else (cleaned, r ∷ rest)

-- `execution_tracker_cleanup_completed`: how many records it freed.
pub cleanup_completed : ExecutionTracker → ℕ → ℕ × ExecutionTracker
unfolding clean
cleanup_completed t now =
    let (cleaned, records) = clean now t.records in (cleaned, record t { records = records })
