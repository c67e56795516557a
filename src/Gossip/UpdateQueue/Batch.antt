-- ===== src/Gossip/UpdateQueue/Batch.antt =====
-- The update queue of src/cluster/gossip_engine.c against the list of the updates that it holds.
use roole.Base.{
  ℕ, zero, suc, ◌≤◌, ◌<◌, ◌≡◌, refl, ap, ◌∙◌, ◌⊎◌, inl, inr, min, List, [], ◌∷◌, ◌++◌, arith,
  length, ltb, leb, Bool-cases,
}
use roole.Base.Int.{pos, negsuc}
use roole.Ring
use roole.Ring.{Ring, put, pull}
use roole.Ring.Contents.{
  contents, put-IsValid, contents-put, pull-IsValid, contents-pull, count-pull,
}
use roole.Gossip.Message.{MemberUpdate, blank_update}
use roole.Gossip.UpdateQueue.{max_update_queue, UpdateQueue, push, pop_loop, pop_batch}

abbrev pub IsValid : UpdateQueue → Type 0
IsValid queue = Ring.IsValid max_update_queue queue

-- The updates in the queue, oldest first.
abbrev pub updates : UpdateQueue → List MemberUpdate
updates queue = contents max_update_queue blank_update queue

-- `update_queue_push` on a well-formed queue returns 0 and appends the update, or, if 256 updates are
-- queued, returns -1 and changes nothing.
pub update_push_lem :
    (queue : UpdateQueue) (update : MemberUpdate)
    → IsValid queue
    → let (s, queue') = push queue update in
      ((queue.count < max_update_queue)
        × (s ≡ pos 0)
        × IsValid queue'
        × (updates queue' ≡ updates queue ++ update ∷ []))
      ⊎ ((queue.count ≡ max_update_queue) × (s ≡ negsuc 0) × (queue' ≡ queue))
unfolding push
update_push_lem queue update v = elim (Bool-cases (leb max_update_queue queue.count)) [
  | inl full ↦ rw full (inr (ground (arith, v.count_in), refl, refl))
  | inr room ↦ rw room (
      inl (
        ground arith,
        refl,
        put-IsValid max_update_queue blank_update queue update v (ground arith),
        contents-put max_update_queue blank_update queue update v (ground arith),
      ))
]

pop_loop_lem :
    (n : ℕ) (queue : UpdateQueue)
    → IsValid queue
    → n ≤ queue.count
    → let (out, queue') = pop_loop n queue in
      IsValid queue' × (length out ≡ n) × (updates queue ≡ out ++ updates queue')
unfolding pop_loop
pop_loop_lem zero queue v h = (v, refl, refl)
pop_loop_lem (suc n) queue v h =
    let r = pull max_update_queue blank_update queue in
    let later =
      pop_loop_lem n r.1 (pull-IsValid max_update_queue blank_update queue v (omega arith))
        (omega (arith, count-pull max_update_queue blank_update queue)) in
    (
      later.0,
      ap suc later.1,
      contents-pull max_update_queue blank_update queue v (omega arith) ∙ ap (λ l. r.0 ∷ l) later.2,
    )

-- `update_queue_pop_batch` on a well-formed queue takes out its oldest updates in their order, as
-- many as there are and at most `max_count`, and leaves the others.
pub update_pop_batch_lem :
    (queue : UpdateQueue) (max_count : ℕ)
    → IsValid queue
    → let (out, queue') = pop_batch queue max_count in
      IsValid queue'
      × (length out ≡ min queue.count max_count)
      × (updates queue ≡ out ++ updates queue')
unfolding pop_batch
update_pop_batch_lem queue max_count v = elim (Bool-cases (ltb queue.count max_count)) [
  | inl few ↦
      let r = pop_loop_lem queue.count queue v (omega arith) in
      rw few (r.0, r.1 ∙ ground arith, r.2)
  | inr many ↦
      let r = pop_loop_lem max_count queue v (ground arith) in
      rw many (r.0, r.1 ∙ ground arith, r.2)
]
