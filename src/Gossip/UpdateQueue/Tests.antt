-- ===== src/Gossip/UpdateQueue/Tests.antt =====
-- Runs of the update queue of src/cluster/gossip_engine.c from the empty queue.
use roole.Base.{◌≡◌, refl, min, ◌++◌, arith, length, length-replicate}
use roole.Gossip.Message.{blank_update}
use roole.Gossip.UpdateQueue.{max_update_queue, UpdateQueue, init, pop_batch}
use roole.Gossip.UpdateQueue.Batch.{IsValid, updates, update_pop_batch_lem}

-- Three updates, of which two lie at the end of the array.
abbrev three_updates : UpdateQueue
three_updates = record init { head = 254; tail = 1; count = 3 }

three_updates-IsValid : IsValid three_updates
three_updates-IsValid = record {
  full_array = length-replicate max_update_queue blank_update;
  nonempty = omega arith;
  addressable = omega arith;
  head_in = omega arith;
  count_in = omega arith;
  tail_at = refl;
}

update_pop_batch_lem_example :
    let (out, queue') = pop_batch three_updates 2 in
    IsValid queue'
    × (length out ≡ min three_updates.count 2)
    × (updates three_updates ≡ out ++ updates queue')
update_pop_batch_lem_example = update_pop_batch_lem three_updates 2 three_updates-IsValid
