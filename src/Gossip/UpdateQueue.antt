-- ===== src/Gossip/UpdateQueue.antt =====
-- The queue of updates to spread, of src/cluster/gossip_engine.c: `update_queue_push` and
-- `update_queue_pop_batch`, each a step under the queue's lock.
pub mod Batch
mod Tests
use roole.Base.{ℕ, zero, suc, ◌<◌, List, [], ◌∷◌, ltb, leb, if◌then◌else◌, replicate}
use roole.Base.Int.{ℤ, pos, negsuc}
use roole.Ring
use roole.Ring.{Ring, put, pull}
use roole.Gossip.Message.{MemberUpdate, blank_update}

abbrev pub max_update_queue : ℕ
max_update_queue = 256

-- `update_queue_t`.
abbrev pub UpdateQueue : Type 0
UpdateQueue = Ring MemberUpdate

-- `update_queue_init`, where `pthread_mutex_init` succeeds.
abbrev pub init : UpdateQueue
init = record { slots = replicate max_update_queue blank_update; head = 0; tail = 0; count = 0 }

-- `update_queue_push`.
pub push : UpdateQueue → MemberUpdate → ℤ × UpdateQueue
push queue update =
    if leb max_update_queue queue.count
    then (negsuc 0, queue)
    else (pos 0, put max_update_queue queue update)

-- The loop of `update_queue_pop_batch`.
pub pop_loop : ℕ → UpdateQueue → List MemberUpdate × UpdateQueue
pop_loop zero queue = ([], queue)
pop_loop (suc n) queue =
    let (update, queue') = pull max_update_queue blank_update queue in
    let (out, queue'') = pop_loop n queue' in (update ∷ out, queue'')

-- `update_queue_pop_batch`: the entries of `out` that it writes, as many as it returns.
pub pop_batch : UpdateQueue → ℕ → List MemberUpdate × UpdateQueue
unfolding pop_loop
pop_batch queue max_count =
    pop_loop (if ltb queue.count max_count then queue.count else max_count) queue
