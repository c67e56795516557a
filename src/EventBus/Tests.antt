-- ===== src/EventBus/Tests.antt =====
-- Runs of src/core/event_bus.c.
use roole.Base.{ℕ, ◌≡◌, refl, List, [], ◌∷◌, ◌++◌, arith, length-replicate}
use roole.EventBus.{Event, create, blank_event, event_queue_size}
use roole.EventBus.Delivery.{
  IsValid, Operation, queued, accepted, taken, run, event_bus_run, publishes, publishes_sync,
  subscribes, unsubscribes, rounds,
}

abbrev zeros : ℕ
zeros = 0

abbrev joined : Event ℕ
joined = record { type = 0; timestamp_ms = 1; source_node_id = 7; content = 5 }

abbrev left_event : Event ℕ
left_event = record { type = 1; timestamp_ms = 2; source_node_id = 7; content = 6 }

new_bus : IsValid zeros (create zeros)
new_bus = record {
  full_array = length-replicate event_queue_size (blank_event zeros);
  nonempty = omega arith;
  addressable = omega arith;
  head_in = omega arith;
  count_in = omega arith;
  tail_at = refl;
}

abbrev calls_and_rounds : List (Operation ℕ)
calls_and_rounds =
    subscribes 0 40 0
    ∷ publishes joined
    ∷ publishes left_event
    ∷ rounds
    ∷ unsubscribes 0 40
    ∷ publishes_sync joined
    ∷ []

event_bus_run_example :
    IsValid zeros (run zeros (create zeros) calls_and_rounds)
    × (queued zeros (create zeros) ++ accepted zeros (create zeros) calls_and_rounds
        ≡ taken zeros (create zeros) calls_and_rounds
          ++ queued zeros (run zeros (create zeros) calls_and_rounds))
event_bus_run_example = event_bus_run zeros (create zeros) calls_and_rounds new_bus
