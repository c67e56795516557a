-- ===== src/EventBus/Delivery.antt =====
-- The order in which src/core/event_bus.c delivers events.
use roole.Base.{
  ℕ, ◌≡◌, refl, sym, ap, subst, both, Option, none, some, ◌∙◌, inl, inr, true, false, List, [], ◌∷◌,
  ◌++◌, append_assoc, append-nil, ◌==◌, arith, leb, if◌then◌else◌, Bool-cases,
}
use roole.Base.Int.{ℤ, pos, negsuc}
use roole.Ring
use roole.Ring.{Ring, put, pull}
use roole.Ring.Contents.{contents, put-IsValid, contents-put, pull-IsValid, contents-pull}
use roole.EventBus.{
  Event, EventBus, event_queue_size, event_type_max, blank_event, dispatch_event, dispatch_round,
  event_queue_push, Subscriber, publish, publish_sync, subscribe, unsubscribe, with_row,
}

module _ {D : Type 0} (zeros : D) where
  abbrev pub IsValid : EventBus D → Type 0
  IsValid bus = Ring.IsValid event_queue_size bus.queue

  -- The events that wait, oldest first.
  abbrev pub queued : EventBus D → List (Event D)
  queued bus = contents event_queue_size (blank_event zeros) bus.queue

-- A call of the bus, or a round of its thread.
pub data Operation (D : Type 0) : Type 0 where
  publishes publishes_sync : Event D → Operation D
  subscribes : ℕ → ℕ → ℕ → Operation D
  unsubscribes : ℕ → ℕ → Operation D
  rounds : Operation D

module _ {D : Type 0} (zeros : D) where
  unfoldable pub step : EventBus D → Operation D → EventBus D
  step bus (publishes event) = (publish bus event).1
  step bus (publishes_sync event) = (publish_sync bus event).1
  step bus (subscribes type handler user_data) = (subscribe bus type handler user_data).1
  step bus (unsubscribes type handler) = (unsubscribe bus type handler).1
  step bus rounds = dispatch_round zeros bus

  unfoldable pub run : EventBus D → List (Operation D) → EventBus D
  unfolding step
  run bus [] = bus
  run bus (o ∷ os) = run (step bus o) os

  -- An event that is published with this result.
  abbrev kept_event : Event D → ℤ → List (Event D)
  kept_event event (pos n) = event ∷ []
  kept_event event (negsuc n) = []

  -- The event of a call to publish that returned 0.
  abbrev accepts : EventBus D → Operation D → List (Event D)
  accepts bus (publishes event) = kept_event event (publish bus event).0
  accepts bus (publishes_sync event) = []
  accepts bus (subscribes type handler user_data) = []
  accepts bus (unsubscribes type handler) = []
  accepts bus rounds = []

  -- The event that an operation takes out of the queue.
  abbrev takes : EventBus D → Operation D → List (Event D)
  takes bus (publishes event) = []
  takes bus (publishes_sync event) = []
  takes bus (subscribes type handler user_data) = []
  takes bus (unsubscribes type handler) = []
  takes bus rounds =
      if bus.queue.count == 0
      then []
      else (pull event_queue_size (blank_event zeros) bus.queue).0 ∷ []

  -- The events that were accepted and taken out during a run.
  abbrev pub accepted : EventBus D → List (Operation D) → List (Event D)
  accepted bus [] = []
  accepted bus (o ∷ os) = accepts bus o ++ accepted (step bus o) os

  abbrev pub taken : EventBus D → List (Operation D) → List (Event D)
  taken bus [] = []
  taken bus (o ∷ os) = takes bus o ++ taken (step bus o) os

  -- One operation keeps the queue in order.
  abbrev Ordered : EventBus D → List (Event D) → List (Event D) → EventBus D → Type 0
  Ordered bus ins outs bus' =
      IsValid zeros bus' × (queued zeros bus ++ ins ≡ outs ++ queued zeros bus')

  untouched :
      (bus bus' : EventBus D) → IsValid zeros bus → bus'.queue ≡ bus.queue → Ordered bus [] [] bus'
  untouched bus bus' v same = (
    subst (Ring.IsValid event_queue_size) (sym same) v,
    append-nil (queued zeros bus) ∙ ap (contents event_queue_size (blank_event zeros)) (sym same),
  )

  same_queue-dispatch :
      (bus : EventBus D) (event : Event D) → (dispatch_event bus event).queue ≡ bus.queue
  unfolding dispatch_event
  same_queue-dispatch bus event = elim (Bool-cases (leb event_type_max event.type)) [
    | inl foreign ↦ rw foreign
    | inr known ↦ rw known
  ]

  same_queue-with_row :
      (bus : EventBus D) (type : ℕ) (row : Option (List Subscriber))
      → (with_row bus type row).1.queue ≡ bus.queue
  same_queue-with_row bus type none = refl
  same_queue-with_row bus type (some row) = refl

  push-full :
      (queue : Ring (Event D)) (event : Event D)
      → leb event_queue_size queue.count ≡ true
      → event_queue_push queue event ≡ (negsuc 0, queue)
  push-full queue event full = rw full

  push-room :
      (queue : Ring (Event D)) (event : Event D)
      → leb event_queue_size queue.count ≡ false
      → event_queue_push queue event ≡ (pos 0, put event_queue_size queue event)
  push-room queue event room = rw room

  publish-full :
      (bus : EventBus D) (event : Event D)
      → leb event_queue_size bus.queue.count ≡ true
      → ((publish bus event).0 ≡ negsuc 0) × ((publish bus event).1.queue ≡ bus.queue)
  unfolding publish
  publish-full bus event full =
      let pushed = push-full bus.queue event full in
      rw (publish, pushed) (refl, ap (λ r. r.1) pushed)

  publish-room :
      (bus : EventBus D) (event : Event D)
      → leb event_queue_size bus.queue.count ≡ false
      → ((publish bus event).0 ≡ pos 0)
        × ((publish bus event).1.queue ≡ put event_queue_size bus.queue event)
  unfolding publish
  publish-room bus event room =
      let pushed = push-room bus.queue event room in
      rw (publish, pushed) (refl, ap (λ r. r.1) pushed)

  abbrev Kept : EventBus D → ℤ × EventBus D → Type 0
  Kept bus r = r.1.queue ≡ bus.queue

  step-Ordered :
      (bus : EventBus D) (o : Operation D)
      → IsValid zeros bus
      → Ordered bus (accepts bus o) (takes bus o) (step bus o)
  unfolding step publish_sync subscribe unsubscribe dispatch_round
  step-Ordered bus (publishes event) v = elim (Bool-cases (leb event_queue_size bus.queue.count)) [
    | inl full ↦
        let (dropped, same) = publish-full bus event full in
        rw (accepts, dropped) (untouched bus (step bus (publishes event)) v same)
    | inr room ↦
        let (kept, same) = publish-room bus event room in
        rw (accepts, kept)
          (
            subst (Ring.IsValid event_queue_size) (sym same)
                (put-IsValid event_queue_size (blank_event zeros) bus.queue event v (ground arith)),
            sym (contents-put event_queue_size (blank_event zeros) bus.queue event v (ground arith))
                ∙ ap (contents event_queue_size (blank_event zeros)) (sym same),
          )
  ]
  step-Ordered bus (publishes_sync event) v =
      untouched bus (step bus (publishes_sync event)) v (same_queue-dispatch _ event)
  step-Ordered bus (subscribes type handler user_data) v =
      untouched bus (step bus (subscribes type handler user_data)) v (
        both (Kept bus) (handler == 0) refl
          (both (Kept bus) (leb event_type_max type) refl (same_queue-with_row bus type _)))
  step-Ordered bus (unsubscribes type handler) v =
      untouched bus (step bus (unsubscribes type handler)) v (
        both (Kept bus) (handler == 0) refl
          (both (Kept bus) (leb event_type_max type) refl (same_queue-with_row bus type _)))
  step-Ordered bus rounds v = elim (Bool-cases (bus.queue.count == 0)) [
    | inl empty ↦ rw empty (untouched bus bus v refl)
    | inr some_event ↦
        let r = pull event_queue_size (blank_event zeros) bus.queue in
        let next : EventBus D = record bus { queue = r.1 } in
        let same = same_queue-dispatch next r.0 in
        let w = pull-IsValid event_queue_size (blank_event zeros) bus.queue v (ground arith) in
        rw some_event (
          subst (Ring.IsValid event_queue_size) (sym same) w,
          append-nil (queued zeros bus)
              ∙ contents-pull event_queue_size (blank_event zeros) bus.queue v (ground arith)
              ∙ ap (λ q. r.0 ∷ contents event_queue_size (blank_event zeros) q) (sym same),
        )
  ]

  -- Whatever is called and however the rounds of the thread fall between the calls, a queue that is
  -- valid stays valid, and the events leave it in the order in which they entered it: those that
  -- waited, with those of the calls to publish that returned 0, are those that the rounds took out,
  -- with those that wait now.
  pub event_bus_run :
      (bus : EventBus D) (os : List (Operation D))
      → IsValid zeros bus
      → IsValid zeros (run bus os)
        × (queued zeros bus ++ accepted bus os ≡ taken bus os ++ queued zeros (run bus os))
  unfolding run
  event_bus_run bus [] v = (v, append-nil (queued zeros bus))
  event_bus_run bus (o ∷ os) v =
      let (w, first) = step-Ordered bus o v in
      let (x, others) = event_bus_run (step bus o) os w in
      (
        x,
        sym (append_assoc (queued zeros bus) (accepts bus o) (accepted (step bus o) os))
            ∙ ap (λ l. l ++ accepted (step bus o) os) first
            ∙ append_assoc (takes bus o) (queued zeros (step bus o)) (accepted (step bus o) os)
            ∙ ap (λ l. takes bus o ++ l) others
            ∙ sym (
                append_assoc (takes bus o) (taken (step bus o) os)
                  (queued zeros (run (step bus o) os))),
      )
