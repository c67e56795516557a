-- ===== src/ExecutionTracker/Invariant.antt =====
-- The well-formedness of the execution tracker: ids are unique, in use once, and never 0.
use roole.Base.{
  ℕ, zero, suc, ◌+◌, ◌%◌, ◌^◌, ◌≤◌, ◌<◌, ◌≡◌, refl, subst, ◌∙◌, inl, inr, Bool, true, none, some,
  List, [], ◌∷◌, ◌==◌, arith, length, length-replicate, replicate, All, Bool-cases, Option-cases,
  ltb, ◌||◌, not,
}
use roole.Base.Status.{ok}
use roole.Slots.{find, modify, claim, IsDistinct}
use roole.Slots.Laws.{
  length-claim, length-modify, claim-IsDistinct, modify-IsDistinct, All-claim, All-modify,
  find-eq_none,
}
use roole.ExecutionTracker.{
  ExecutionTracker, ExecutionRecord, ExecutionStatus, record_id, is_active, blank, submitted, init,
  add, restate, update_status, deactivate, delete, max_message_size,
}

-- An id in use is not 0.
abbrev pub is_numbered : ExecutionRecord → Bool
is_numbered r = not r.active || ltb 0 r.exec_id

pub record IsValid (t : ExecutionTracker) : Type 0 where
  pub full_array : length t.records ≡ t.capacity
  pub distinct : IsDistinct record_id is_active t.records
  pub issued : All (λ r. r.exec_id < t.next_exec_id) t.records
  pub numbered : All (λ r. is_numbered r ≡ true) t.records
  pub word : t.next_exec_id < 2 ^ 64
  pub positive : 0 < t.next_exec_id

pub exec_id-restate :
    (status : ExecutionStatus) (now : ℕ) (r : ExecutionRecord)
    → (restate status now r).exec_id ≡ r.exec_id
unfolding restate
exec_id-restate status now r = ground arith

pub active-restate :
    (status : ExecutionStatus) (now : ℕ) (r : ExecutionRecord)
    → (restate status now r).active ≡ r.active
unfolding restate
active-restate status now r = ground arith

pub numbered-restate :
    (status : ExecutionStatus) (now : ℕ) (r : ExecutionRecord)
    → is_numbered r ≡ true
    → is_numbered (restate status now r) ≡ true
numbered-restate status now r h = rw (exec_id-restate status now r, active-restate status now r) h

blank-All : (n : ℕ) → All (λ r. r.exec_id < 1) (replicate n blank)
blank-All zero = tt
blank-All (suc n) = (omega arith, blank-All n)

blank-numbered : (n : ℕ) → All (λ r. is_numbered r ≡ true) (replicate n blank)
blank-numbered zero = tt
blank-numbered (suc n) = (refl, blank-numbered n)

blank-IsDistinct : (n : ℕ) → IsDistinct record_id is_active (replicate n blank)
blank-IsDistinct zero = tt
blank-IsDistinct (suc n) = (refl, blank-IsDistinct n)

pub tracker_init-IsValid :
    (capacity : ℕ) (allocated locked : Bool) {t : ExecutionTracker}
    → init capacity allocated locked ≡ (ok, some t)
    → IsValid t
unfolding init
tracker_init-IsValid capacity allocated locked {t} e =
    let made : record { records = replicate capacity blank; capacity = capacity; next_exec_id = 1 }
        ≡ t =
      ground arith in
    subst IsValid made (record {
      full_array = length-replicate capacity blank;
      distinct = blank-IsDistinct capacity;
      issued = blank-All capacity;
      numbered = blank-numbered capacity;
      word = omega arith;
      positive = omega arith;
    })

All-issued_mono :
    {m n : ℕ} (rs : List ExecutionRecord)
    → m ≤ n
    → All (λ r. r.exec_id < m) rs
    → All (λ r. r.exec_id < n) rs
All-issued_mono [] h a = tt
All-issued_mono {m} {n} (r ∷ rs) h a =
    (omega (arith, a.0), All-issued_mono {m = m} {n = n} rs h a.1)

module _ (t : ExecutionTracker) (v : IsValid t) where
  -- The next id is not in use.
  pub next_unused : find record_id is_active t.next_exec_id t.records ≡ none
  next_unused =
      find-eq_none record_id is_active t.next_exec_id t.next_exec_id t.records v.issued
        (omega arith)

  modified-IsValid :
      (k : ℕ) (f : ExecutionRecord → ExecutionRecord) (rs : List ExecutionRecord)
      → ((r : ExecutionRecord) → (f r).exec_id ≡ r.exec_id)
      → ((r : ExecutionRecord) → is_numbered r ≡ true → is_numbered (f r) ≡ true)
      → modify record_id is_active k f t.records ≡ some rs
      → IsValid (record t { records = rs })
  modified-IsValid k f rs same kept e = record {
    full_array = length-modify record_id is_active k f t.records rs e ∙ v.full_array;
    distinct =
        modify-IsDistinct record_id is_active k f t.records rs (λ r h. same r ∙ h) v.distinct e;
    issued =
        All-modify record_id is_active (λ r. r.exec_id < t.next_exec_id) k f t.records rs
          (λ r h. rw (same r) h) v.issued e;
    numbered =
        All-modify record_id is_active (λ r. is_numbered r ≡ true) k f t.records rs kept v.numbered
          e;
    word = v.word;
    positive = v.positive;
  }

  pub claimed-IsValid :
      (r : ExecutionRecord) (rs : List ExecutionRecord)
      → r.exec_id ≡ t.next_exec_id
      → r.active ≡ true
      → t.next_exec_id + 1 < 2 ^ 64
      → claim record_id is_active r t.records ≡ some rs
      → IsValid (record t { records = rs; next_exec_id = (t.next_exec_id + 1) % 2 ^ 64 })
  claimed-IsValid r rs id on room e =
      let n : ℕ = (t.next_exec_id + 1) % 2 ^ 64 in
      let same : n ≡ t.next_exec_id + 1 = omega arith in
      record {
        full_array = length-claim record_id is_active r t.records rs e ∙ v.full_array;
        distinct =
            claim-IsDistinct record_id is_active r t.records rs on (rw id next_unused) v.distinct e;
        issued =
            All-claim record_id is_active (λ s. s.exec_id < n) r t.records rs (omega arith)
              (All-issued_mono {m = t.next_exec_id} {n = n} t.records (omega arith) v.issued) e;
        numbered =
            All-claim record_id is_active (λ s. is_numbered s ≡ true) r t.records rs
              (ground (arith, id, v.positive)) v.numbered e;
        word = omega arith;
        positive = omega arith;
      }

  pub add-IsValid :
      (dag_id peer_id : ℕ) (message : List ℕ) (max_retries now : ℕ)
      → t.next_exec_id + 1 < 2 ^ 64
      → IsValid (add t dag_id peer_id message max_retries now).1
  unfolding add
  add-IsValid dag_id peer_id message max_retries now room =
      elim (Bool-cases (length message == 0 || ltb max_message_size (length message))) [
        | inl bad ↦ rw bad v
        | inr good ↦ rw good (elim (Option-cases (claim record_id is_active r t.records)) [
          | inl gone ↦ rw gone v
          | inr (rs, got) ↦ rw got (claimed-IsValid r rs refl refl room got)
        ])
      ]
    where
      r : ExecutionRecord
      r = submitted t dag_id peer_id message max_retries now

  pub update_status-IsValid :
      (k : ℕ) (status : ExecutionStatus) (now : ℕ) → IsValid (update_status t k status now).1
  unfolding update_status
  update_status-IsValid k status now = elim (Bool-cases (k == 0)) [
    | inl bad ↦ rw bad v
    | inr good ↦
        rw good (elim (Option-cases (modify record_id is_active k (restate status now) t.records)) [
          | inl gone ↦ rw gone v
          | inr (rs, got) ↦ rw got (
              modified-IsValid k (restate status now) rs (exec_id-restate status now)
                (numbered-restate status now) got)
        ])
  ]

  pub delete-IsValid : (k : ℕ) → IsValid (delete t k).1
  unfolding delete
  delete-IsValid k = elim (Bool-cases (k == 0)) [
    | inl bad ↦ rw bad v
    | inr good ↦ rw good (elim (Option-cases (modify record_id is_active k deactivate t.records)) [
      | inl gone ↦ rw gone v
      | inr (rs, got) ↦ rw got (modified-IsValid k deactivate rs (λ r. refl) (λ r h. refl) got)
    ])
  ]
