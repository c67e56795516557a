-- ===== src/ExecutionTracker/Tests.antt =====
-- Runs of src/node/execution_tracker.c on a tracker of two slots.
use roole.Base.{◌+◌, ◌≡◌, refl, true, [], ◌∷◌, arith}
use roole.Slots.{find}
use roole.ExecutionTracker.{
  ExecutionTracker, ExecutionRecord, running, completed, blank, get, cleanup_completed,
}
use roole.ExecutionTracker.Invariant.{IsValid}
use roole.ExecutionTracker.Run.{adds, updates, cleans, deletes, run, tracker_run-IsValid}
use roole.ExecutionTracker.Cleanup.{unless_stale, count_active, cleanup_completed_lem}

-- Execution 3 is done, and the other slot is free.
abbrev execution_3 : ExecutionRecord
execution_3 = record {
  exec_id = 3;
  dag_id = 4;
  assigned_peer = 7;
  status = completed;
  submit_time_ms = 10;
  start_time_ms = 20;
  complete_time_ms = 30;
  retry_count = 0;
  max_retries = 2;
  message_data = 104 ∷ [];
  active = true;
}

abbrev one_done : ExecutionTracker
one_done = record { records = execution_3 ∷ blank ∷ []; capacity = 2; next_exec_id = 4 }

one_done-IsValid : IsValid one_done
unfolding find
one_done-IsValid = record {
  full_array = refl;
  distinct = (refl, (refl, tt));
  issued = (omega arith, (omega arith, tt));
  numbered = (refl, (refl, tt));
  word = omega arith;
  positive = omega arith;
}

tracker_run-IsValid_example : IsValid (
    run one_done (adds 5 8 (105 ∷ []) 1 50 ∷ updates 4 running 60 ∷ cleans 400000 ∷ deletes 4 ∷ []))
tracker_run-IsValid_example =
    tracker_run-IsValid one_done
      (adds 5 8 (105 ∷ []) 1 50 ∷ updates 4 running 60 ∷ cleans 400000 ∷ deletes 4 ∷ [])
      one_done-IsValid (omega arith)

cleanup_completed_lem_example :
    let (cleaned, t') = cleanup_completed one_done 400000 in
    (get t' 3 ≡ unless_stale 400000 (get one_done 3))
    × (count_active one_done.records ≡ cleaned + count_active t'.records)
cleanup_completed_lem_example = cleanup_completed_lem one_done 400000 3 one_done-IsValid
