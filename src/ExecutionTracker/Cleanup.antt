-- ===== src/ExecutionTracker/Cleanup.antt =====
-- `execution_tracker_cleanup_completed` of src/node/execution_tracker.c.
use roole.Base.{
  ℕ, ◌+◌, ◌<◌, ◌≡◌, refl, true, ◌∙◌, inl, inr, ◌&&◌, Option, none, some, List, [], ◌∷◌,
  if◌then◌else◌, arith, length, All, Bool-cases,
}
use roole.Slots.{find, IsDistinct}
use roole.ExecutionTracker.{
  ExecutionTracker, ExecutionRecord, record_id, is_active, is_stale, deactivate, clean,
  cleanup_completed, get,
}
use roole.ExecutionTracker.Invariant.{is_numbered, IsValid}

-- How many records are in use.
abbrev pub count_active : List ExecutionRecord → ℕ
count_active [] = 0
count_active (r ∷ rs) = (if r.active then 1 else 0) + count_active rs

abbrev pub unless_stale : ℕ → Option ExecutionRecord → Option ExecutionRecord
unless_stale now none = none
unless_stale now (some r) = if is_stale now r then none else some r

length-clean : (now : ℕ) (rs : List ExecutionRecord) → length (clean now rs).1 ≡ length rs
unfolding clean
length-clean now [] = refl
length-clean now (r ∷ rs) = ground (arith, length-clean now rs)

count-clean :
    (now : ℕ) (rs : List ExecutionRecord)
    → count_active rs ≡ (clean now rs).0 + count_active (clean now rs).1
unfolding clean
count-clean now [] = omega arith
count-clean now (r ∷ rs) = ground (arith, count-clean now rs)

find-clean :
    (now k : ℕ) (rs : List ExecutionRecord)
    → IsDistinct record_id is_active rs
    → find record_id is_active k (clean now rs).1 ≡ unless_stale now (find record_id is_active k rs)
unfolding clean find
find-clean now k [] d = refl
find-clean now k (r ∷ rs) d = ground (arith, d.0, find-clean now k rs d.1)

clean-IsDistinct :
    (now : ℕ) (rs : List ExecutionRecord)
    → IsDistinct record_id is_active rs
    → IsDistinct record_id is_active (clean now rs).1
unfolding clean
clean-IsDistinct now [] d = tt
clean-IsDistinct now (r ∷ rs) d = elim (Bool-cases (r.active && is_stale now r)) [
  | inl stale ↦ rw stale (refl, clean-IsDistinct now rs d.1)
  | inr kept ↦
      rw kept (ground (arith, d.0, find-clean now r.exec_id rs d.1), clean-IsDistinct now rs d.1)
]

clean-All {κ} :
    (P : ExecutionRecord → Type κ) (now : ℕ) (rs : List ExecutionRecord)
    → ((r : ExecutionRecord) → P r → P (deactivate r))
    → All P rs
    → All P (clean now rs).1
unfolding clean
clean-All P now [] kept h = tt
clean-All P now (r ∷ rs) kept h = elim (Bool-cases (r.active && is_stale now r)) [
  | inl stale ↦ rw stale (kept r h.0, clean-All P now rs kept h.1)
  | inr stays ↦ rw stays (h.0, clean-All P now rs kept h.1)
]

-- A cleanup keeps the tracker well formed.
pub cleanup_completed-IsValid :
    (t : ExecutionTracker) (now : ℕ) → IsValid t → IsValid (cleanup_completed t now).1
unfolding cleanup_completed
cleanup_completed-IsValid t now v = record {
  full_array = length-clean now t.records ∙ v.full_array;
  distinct = clean-IsDistinct now t.records v.distinct;
  issued = clean-All (λ r. r.exec_id < t.next_exec_id) now t.records (λ r h. h) v.issued;
  numbered = clean-All (λ r. is_numbered r ≡ true) now t.records (λ r h. refl) v.numbered;
  word = v.word;
  positive = v.positive;
}

-- On a well-formed tracker a cleanup makes exactly those executions unknown that are COMPLETED or
-- FAILED, have a time of completion, and completed more than five minutes before `now`, by a
-- difference modulo 2^64; every other one is found as it was, and the number returned is the
-- number of records that are no longer in use.
pub cleanup_completed_lem :
    (t : ExecutionTracker) (now exec_id : ℕ)
    → IsValid t
    → let (cleaned, t') = cleanup_completed t now in
      (get t' exec_id ≡ unless_stale now (get t exec_id))
      × (count_active t.records ≡ cleaned + count_active t'.records)
unfolding cleanup_completed get
cleanup_completed_lem t now exec_id v =
    (ground (arith, find-clean now exec_id t.records v.distinct), count-clean now t.records)
