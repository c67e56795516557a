-- ===== src/MessageQueue/Waiting.antt =====
-- What the calls of src/node/message_queue.c do when they return, across their waits.
use roole.Base.{
  ℕ, zero, suc, ◌≡◌, refl, if◌then◌else◌, inl, inr, Bool, false, not, Option, none, some, List, [],
  ◌∷◌, ◌++◌, arith, Bool-cases, All,
}
use roole.Base.Int.{ℤ, pos, negsuc}
use roole.Base.Status.{ResultStatus, ok, err_timeout, err_empty}
use roole.Ring.Contents.{put-IsValid, contents-put, contents-pull, pull-IsValid}
use roole.MessageQueue.{
  Message, MessageQueue, blank, is_full, is_empty, enqueue, dequeue, push, pop, pop_now, pop_timed,
  pop_forever, taken, Wake, signalled, timed_out, Popped, waiting, failed, popped, queue_of,
  queues_of,
}
use roole.MessageQueue.Fifo.{IsValid, messages}

-- The first state that passes a test.
abbrev pub first : (MessageQueue → Bool) → List MessageQueue → Option MessageQueue
first p [] = none
first p (q ∷ qs) = if p q then some q else first p qs

abbrev pub has_room : MessageQueue → Bool
has_room q = not (is_full q)

abbrev pub has_message : MessageQueue → Bool
has_message q = not (is_empty q)

-- The message stands at the end of what the queue held, and the call reports success.
abbrev pub Appended : Message → Option MessageQueue → Option (ResultStatus × MessageQueue) → Type 0
Appended m none r = r ≡ none
Appended m (some before) r =
    (q' : MessageQueue) × (r ≡ some (ok, q'))
    × IsValid q'
    × (messages q' ≡ messages before ++ m ∷ [])

-- The oldest message has been taken.
abbrev pub Taken : MessageQueue → Popped → Type 0
Taken before r =
    (m : Message) × (q' : MessageQueue) × (r ≡ popped m q')
    × IsValid q'
    × (messages before ≡ m ∷ messages q')

enqueue-Appended :
    (q : MessageQueue) (m : Message)
    → IsValid q
    → is_full q ≡ false
    → Appended m (some q) (some (ok, enqueue q m))
unfolding enqueue
enqueue-Appended q m v h = (
  enqueue q m,
  refl,
  put-IsValid q.capacity blank q.ring m v (ground arith),
  contents-put q.capacity blank q.ring m v (ground arith),
)

taken-Taken : (q : MessageQueue) → IsValid q → is_empty q ≡ false → Taken q (taken q)
unfolding taken dequeue
taken-Taken q v h = (
  (dequeue q).0,
  (dequeue q).1,
  refl,
  pull-IsValid q.capacity blank q.ring v (ground arith),
  contents-pull q.capacity blank q.ring v (ground arith),
)

-- `message_queue_push` on the well-formed states that it sees appends its message to the messages of
-- the first state with room and returns success, dropping nothing; it waits on if all are full.
pub push-Appended :
    (q : MessageQueue) (wakes : List MessageQueue) (m : Message)
    → All IsValid (q ∷ wakes)
    → Appended m (first has_room (q ∷ wakes)) (push q wakes m)
unfolding push
push-Appended q [] m v = elim (Bool-cases (is_full q)) [
  | inl full ↦ rw full
  | inr room ↦ rw room (enqueue-Appended q m v.0 room)
]
push-Appended q (w ∷ wakes) m v = elim (Bool-cases (is_full q)) [
  | inl full ↦ rw full (push-Appended w wakes m v.1)
  | inr room ↦ rw room (enqueue-Appended q m v.0 room)
]

-- The states at the wakes before the deadline, and the state at the deadline.
abbrev pub signals : List Wake → List MessageQueue
signals [] = []
signals (signalled q ∷ ws) = q ∷ signals ws
signals (timed_out q ∷ ws) = []

abbrev pub expired : List Wake → Option (ResultStatus × MessageQueue)
expired [] = none
expired (signalled q ∷ ws) = expired ws
expired (timed_out q ∷ ws) = some (err_timeout, q)

-- The states in which `message_queue_pop` looks for a message after the first one: none if its
-- timeout is 0, those before the deadline if it is positive, and all if it is negative.
abbrev pub seen : ℤ → List Wake → List MessageQueue
seen (negsuc n) ws = queues_of ws
seen (pos zero) ws = []
seen (pos (suc n)) ws = signals ws

-- How it fails if it finds none; with `none` it waits on.
abbrev pub failure : MessageQueue → ℤ → List Wake → Option (ResultStatus × MessageQueue)
failure q (negsuc n) ws = none
failure q (pos zero) ws = some (err_empty, q)
failure q (pos (suc n)) ws = expired ws

abbrev pub Ended : Option MessageQueue → Option (ResultStatus × MessageQueue) → Popped → Type 0
Ended (some before) f p = Taken before p
Ended none none p = p ≡ waiting
Ended none (some (status, q)) p = p ≡ failed status q

-- The way in which `message_queue_pop` ends.
abbrev pub Outcome : MessageQueue → ℤ → List Wake → Popped → Type 0
Outcome q t ws p = Ended (first has_message (q ∷ seen t ws)) (failure q t ws) p

pop_forever-Outcome :
    (q : MessageQueue) (n : ℕ) (ws : List Wake)
    → All IsValid (q ∷ queues_of ws)
    → Outcome q (negsuc n) ws (pop_forever q (queues_of ws))
unfolding pop_forever
pop_forever-Outcome q n [] v = elim (Bool-cases (is_empty q)) [
  | inl none_here ↦ rw none_here refl
  | inr here ↦ rw here (taken-Taken q v.0 here)
]
pop_forever-Outcome q n (w ∷ ws) v = elim (Bool-cases (is_empty q)) [
  | inl none_here ↦ rw none_here (pop_forever-Outcome (queue_of w) n ws v.1)
  | inr here ↦ rw here (taken-Taken q v.0 here)
]

pop_timed-Outcome :
    (q : MessageQueue) (n : ℕ) (ws : List Wake)
    → All IsValid (q ∷ queues_of ws)
    → Outcome q (pos (suc n)) ws (pop_timed q ws)
unfolding pop_timed
pop_timed-Outcome q n [] v = elim (Bool-cases (is_empty q)) [
  | inl none_here ↦ rw none_here refl
  | inr here ↦ rw here (taken-Taken q v.0 here)
]
pop_timed-Outcome q n (signalled w ∷ ws) v = elim (Bool-cases (is_empty q)) [
  | inl none_here ↦ rw none_here (pop_timed-Outcome w n ws v.1)
  | inr here ↦ rw here (taken-Taken q v.0 here)
]
pop_timed-Outcome q n (timed_out w ∷ ws) v = elim (Bool-cases (is_empty q)) [
  | inl none_here ↦ rw none_here refl
  | inr here ↦ rw here (taken-Taken q v.0 here)
]

-- `message_queue_pop` on the well-formed states that it sees, the first and one at each wake. Where
-- one of those in which it looks for a message has one, it takes the oldest message of the first of
-- them: it looks in the first state, and unless its timeout is 0 in those at the later wakes, with a
-- positive timeout only those before the deadline. Where none has one, it fails at once with EMPTY
-- if its timeout is 0, with TIMEOUT at the deadline if its timeout is positive and the deadline comes,
-- and waits on otherwise.
pub pop-Outcome :
    (q : MessageQueue) (t : ℤ) (ws : List Wake)
    → All IsValid (q ∷ queues_of ws)
    → Outcome q t ws (pop q t ws)
unfolding pop pop_now
pop-Outcome q (negsuc n) ws v = pop_forever-Outcome q n ws v
pop-Outcome q (pos zero) ws v = elim (Bool-cases (is_empty q)) [
  | inl none_here ↦ rw none_here refl
  | inr here ↦ rw here (taken-Taken q v.0 here)
]
pop-Outcome q (pos (suc n)) ws v = pop_timed-Outcome q n ws v
