-- ===== src/EventBus.antt =====
-- The event bus of src/core/event_bus.c and include/roole/event_bus.h. Each function is a step, though
-- it holds a lock at a time: the locks protect parts of the state that no other part is compared
-- with. Handlers are numbers, 0 for null, and a call of one is an entry of `calls`. The content of an
-- event is of any type, with a value of which all bytes are 0.
pub mod Delivery
mod Tests
use roole.Base.{
  ℕ, ◌+◌, ◌%◌, ◌^◌, Bool, true, false, not, ◌&&◌, Option, none, some, List, [], ◌∷◌, ◌++◌, ◌==◌,
  leb, if◌then◌else◌, length, get_or, set, replicate,
}
use roole.Base.Int.{ℤ, pos, negsuc}
use roole.Ring.{Ring, put, pull}
use roole.Slots.{modify, claim}

-- `event_t`.
pub record Event (D : Type 0) : Type 0 where
  pub type : ℕ
  pub timestamp_ms : ℕ
  pub source_node_id : ℕ
  pub content : D

-- `subscriber_t`.
pub record Subscriber : Type 0 where
  pub handler : ℕ
  pub user_data : ℕ
  pub active : Bool

-- A call of a handler.
pub record Call (D : Type 0) : Type 0 where
  pub handler : ℕ
  pub user_data : ℕ
  pub event : Event D

-- `struct event_bus`. `subscribers` has a row of 16 for each type of event.
pub record EventBus (D : Type 0) : Type 0 where
  pub subscribers : List (List Subscriber)
  pub queue : Ring (Event D)
  pub events_published : ℕ
  pub events_dispatched : ℕ
  pub events_dropped : ℕ
  pub calls : List (Call D)

abbrev pub event_type_max : ℕ
event_type_max = 11

abbrev pub max_subscribers_per_type : ℕ
max_subscribers_per_type = 16

abbrev pub event_queue_size : ℕ
event_queue_size = 1024

abbrev pub free_slot : Subscriber
free_slot = record { handler = 0; user_data = 0; active = false }

abbrev pub handler_of : Subscriber → ℕ
handler_of s = s.handler

abbrev pub is_active : Subscriber → Bool
is_active s = s.active

module _ {D : Type 0} where
  abbrev pub blank_event : D → Event D
  blank_event zeros = record { type = 0; timestamp_ms = 0; source_node_id = 0; content = zeros }

  -- `event_bus_create`, where the allocations, the locks and the thread succeed.
  abbrev pub create : D → EventBus D
  create zeros = record {
    subscribers = replicate event_type_max (replicate max_subscribers_per_type free_slot);
    queue = record {
      slots = replicate event_queue_size (blank_event zeros);
      head = 0;
      tail = 0;
      count = 0;
    };
    events_published = 0;
    events_dispatched = 0;
    events_dropped = 0;
    calls = [];
  }

  -- `event_queue_push` without blocking.
  abbrev pub event_queue_push : Ring (Event D) → Event D → ℤ × Ring (Event D)
  event_queue_push queue event =
      if leb event_queue_size queue.count
      then (negsuc 0, queue)
      else (pos 0, put event_queue_size queue event)

  -- The calls of the loop of `dispatch_event_to_subscribers`.
  unfoldable pub deliver : List Subscriber → Event D → List (Call D)
  deliver [] event = []
  deliver (s ∷ ss) event =
      let rest = deliver ss event in
      if s.active && not (s.handler == 0)
      then record { handler = s.handler; user_data = s.user_data; event = event } ∷ rest
      else rest

  -- `dispatch_event_to_subscribers`.
  unfoldable pub dispatch_event : EventBus D → Event D → EventBus D
  unfolding deliver
  dispatch_event bus event =
      let calls = deliver (get_or bus.subscribers event.type []) event in
      if leb event_type_max event.type then bus else record bus {
        calls = bus.calls ++ calls;
        events_dispatched = (bus.events_dispatched + length calls) % 2 ^ 64;
      }

  -- A round of `dispatch_thread_fn`: an event is taken out, or the wait for one times out.
  unfoldable pub dispatch_round : D → EventBus D → EventBus D
  unfolding dispatch_event
  dispatch_round zeros bus =
      let (event, queue) = pull event_queue_size (blank_event zeros) bus.queue in
      if bus.queue.count == 0 then bus else dispatch_event (record bus { queue = queue }) event

  -- `event_bus_publish`.
  unfoldable pub publish : EventBus D → Event D → ℤ × EventBus D
  publish bus event =
      let counted : EventBus D = record bus {
        events_published = (bus.events_published + 1) % 2 ^ 64;
      } in
      let pushed = event_queue_push bus.queue event in
      elim pushed.0 [
        | pos n ↦ (pos 0, record counted { queue = pushed.1 })
        | negsuc n ↦ (
          negsuc 0,
          record counted { queue = pushed.1; events_dropped = (bus.events_dropped + 1) % 2 ^ 64 },
        )
      ]

  -- `event_bus_publish_sync`.
  unfoldable pub publish_sync : EventBus D → Event D → ℤ × EventBus D
  unfolding dispatch_event
  publish_sync bus event = (
    pos 0,
    dispatch_event (record bus { events_published = (bus.events_published + 1) % 2 ^ 64 }) event,
  )

  -- The row of a type after a change of it.
  abbrev pub with_row : EventBus D → ℕ → Option (List Subscriber) → ℤ × EventBus D
  with_row bus type none = (negsuc 0, bus)
  with_row bus type (some row) = (pos 0, record bus { subscribers = set bus.subscribers type row })

  -- `event_bus_subscribe`.
  unfoldable pub subscribe : EventBus D → ℕ → ℕ → ℕ → ℤ × EventBus D
  subscribe bus type handler user_data =
      let row = get_or bus.subscribers type [] in
      let new : Subscriber = record { handler = handler; user_data = user_data; active = true } in
      if handler == 0
      then (negsuc 0, bus)
      else if leb event_type_max type
      then (negsuc 0, bus)
      else with_row bus type (claim handler_of is_active new row)

  -- `event_bus_unsubscribe`.
  unfoldable pub unsubscribe : EventBus D → ℕ → ℕ → ℤ × EventBus D
  unsubscribe bus type handler =
      let row = get_or bus.subscribers type [] in
      if handler == 0
      then (negsuc 0, bus)
      else if leb event_type_max type
      then (negsuc 0, bus)
      else with_row bus type (modify handler_of is_active handler (λ s. free_slot) row)
