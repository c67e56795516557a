-- ===== src/MessageQueue.antt =====
-- The bounded queue of src/node/message_queue.c and include/roole/node.h, through which RPC
-- handlers hand messages to the executor threads. A call holds the queue's lock but for its waits
-- on a condition variable: what other threads have made of the queue when a wait ends is a list of
-- states, the call's argument `wakes`.
pub mod Fifo
pub mod Waiting
pub mod Deadline
mod Tests
use roole.Base.{
  ℕ, zero, suc, ◌+◌, ◌-◌, ◌*◌, ◌/◌, ◌%◌, ◌^◌, Bool, Option, none, some, List, [], ◌∷◌, ◌==◌, leb,
  if◌then◌else◌, replicate,
}
use roole.Base.Int.{ℤ, pos, negsuc}
use roole.Base.Status.{ResultStatus, ok, err_nomem, err_invalid, err_timeout, err_empty}
use roole.Ring.{Ring, put, pull}

-- `message_t`. The payload is the `message_len` bytes of `message_data` in use.
pub record Message : Type 0 where
  pub exec_id : ℕ
  pub dag_id : ℕ
  pub message_data : List ℕ
  pub received_at_ms : ℕ
  pub sender_id : ℕ

-- A slot as `calloc` leaves it.
abbrev pub blank : Message
blank = record { exec_id = 0; dag_id = 0; message_data = []; received_at_ms = 0; sender_id = 0 }

-- `message_queue_t`.
pub record MessageQueue : Type 0 where
  pub ring : Ring Message
  pub open ring use *
  pub capacity : ℕ

-- `message_queue_init`. The four tests are whether `safe_calloc`, `pthread_mutex_init` and the two
-- calls of `pthread_cond_init` succeed.
pub init : ℕ → Bool → Bool → Bool → Bool → ResultStatus × Option MessageQueue
init capacity allocated locked empty_cond full_cond =
    if capacity == 0
    then (err_invalid, none)
    else if allocated
    then if locked
      then if empty_cond
        then if full_cond then (ok, some fresh) else (err_invalid, none)
        else (err_invalid, none)
      else (err_invalid, none)
    else (err_nomem, none)
  where
    fresh : MessageQueue
    fresh = record {
      ring = record { slots = replicate capacity blank; head = 0; tail = 0; count = 0 };
      capacity = capacity;
    }

-- `message_queue_destroy`.
abbrev pub destroy : MessageQueue → MessageQueue
destroy q = record q { ring = record (q.ring) { slots = []; count = 0 }; capacity = 0 }

abbrev pub is_full : MessageQueue → Bool
is_full q = leb q.capacity q.count

abbrev pub is_empty : MessageQueue → Bool
is_empty q = q.count == 0

-- What `message_queue_push` does once there is room.
pub enqueue : MessageQueue → Message → MessageQueue
enqueue q message = record q { ring = put q.capacity q.ring message }

-- What `message_queue_pop` does once there is a message.
pub dequeue : MessageQueue → Message × MessageQueue
dequeue q = let (m, r) = pull q.capacity blank q.ring in (m, record q { ring = r })

-- `message_queue_push`; `none` if it still waits at the end of `wakes`.
pub push : MessageQueue → List MessageQueue → Message → Option (ResultStatus × MessageQueue)
push q [] message = if is_full q then none else some (ok, enqueue q message)
push q (q' ∷ wakes) message =
    let later = push q' wakes message in if is_full q then later else some (ok, enqueue q message)

-- How a wait of `message_queue_pop` ends: by a signal, or at the deadline.
pub data Wake : Type 0 where
  signalled timed_out : MessageQueue → Wake

pub data Popped : Type 0 where
  waiting : Popped
  failed : ResultStatus → MessageQueue → Popped
  popped : Message → MessageQueue → Popped

taken : MessageQueue → Popped
taken q = let (m, q') = dequeue q in popped m q'

-- `timeout_ms < 0`: `pthread_cond_wait` has no deadline.
pub pop_forever : MessageQueue → List MessageQueue → Popped
pop_forever q [] = if is_empty q then waiting else taken q
pop_forever q (q' ∷ wakes) =
    let later = pop_forever q' wakes in if is_empty q then later else taken q

-- `timeout_ms > 0`: at the deadline the call fails, whatever the queue then holds.
pub pop_timed : MessageQueue → List Wake → Popped
pop_timed q [] = if is_empty q then waiting else taken q
pop_timed q (signalled q' ∷ wakes) =
    let later = pop_timed q' wakes in if is_empty q then later else taken q
pop_timed q (timed_out q' ∷ wakes) = if is_empty q then failed err_timeout q' else taken q

pub pop_now : MessageQueue → Popped
pop_now q = if is_empty q then failed err_empty q else taken q

abbrev pub queue_of : Wake → MessageQueue
queue_of (signalled q) = q
queue_of (timed_out q) = q

abbrev pub queues_of : List Wake → List MessageQueue
queues_of [] = []
queues_of (w ∷ ws) = queue_of w ∷ queues_of ws

-- `message_queue_pop`.
pub pop : MessageQueue → ℤ → List Wake → Popped
pop q (negsuc n) wakes = pop_forever q (queues_of wakes)
pop q (pos zero) wakes = pop_now q
pop q (pos (suc n)) wakes = pop_timed q wakes

-- `message_queue_size`.
abbrev pub size : MessageQueue → ℕ
size q = q.count

-- The deadline of a timed wait, from `clock_gettime`, as seconds and nanoseconds.
pub deadline : ℕ → ℕ → ℕ → ℕ × ℕ
deadline tv_sec tv_nsec timeout_ms =
    let sec = tv_sec + timeout_ms / 1000 in
    let nsec = tv_nsec + timeout_ms % 1000 * 1000000 in
    if leb 1000000000 nsec then (sec + 1, nsec - 1000000000) else (sec, nsec)
