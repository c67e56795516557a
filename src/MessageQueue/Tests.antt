-- ===== src/MessageQueue/Tests.antt =====
-- Runs of src/node/message_queue.c on queues of two slots.
use roole.Base.{◌≡◌, refl, [], ◌∷◌, ◌++◌, arith}
use roole.Base.Int.{pos}
use roole.Ring.{put}
use roole.MessageQueue.{Message, MessageQueue, blank, enqueue, dequeue, push, pop, signalled}
use roole.MessageQueue.Fifo.{IsValid, messages, Run, pushes, pops, stop, next, Run-messages}
use roole.MessageQueue.Waiting.{Appended, Outcome, first, has_room, push-Appended, pop-Outcome}

abbrev first_message : Message
first_message = record {
  exec_id = 1;
  dag_id = 4;
  message_data = 104 ∷ 105 ∷ [];
  received_at_ms = 100;
  sender_id = 7;
}

abbrev second_message : Message
second_message = record first_message { exec_id = 2 }

-- One message, in the last slot of the array, so that the next one goes to the first.
abbrev one_waits : MessageQueue
one_waits = record {
  ring = record { slots = blank ∷ first_message ∷ []; head = 1; tail = 0; count = 1 };
  capacity = 2;
}

abbrev none_wait : MessageQueue
none_wait = record {
  ring = record { slots = blank ∷ blank ∷ []; head = 1; tail = 1; count = 0 };
  capacity = 2;
}

abbrev two_wait : MessageQueue
two_wait = record {
  ring = record { slots = second_message ∷ first_message ∷ []; head = 1; tail = 1; count = 2 };
  capacity = 2;
}

one_waits-IsValid : IsValid one_waits
one_waits-IsValid = record {
  full_array = refl;
  nonempty = omega arith;
  addressable = omega arith;
  head_in = omega arith;
  count_in = omega arith;
  tail_at = omega arith;
}

none_wait-IsValid : IsValid none_wait
none_wait-IsValid = record {
  full_array = refl;
  nonempty = omega arith;
  addressable = omega arith;
  head_in = omega arith;
  count_in = omega arith;
  tail_at = omega arith;
}

two_wait-IsValid : IsValid two_wait
two_wait-IsValid = record {
  full_array = refl;
  nonempty = omega arith;
  addressable = omega arith;
  head_in = omega arith;
  count_in = omega arith;
  tail_at = omega arith;
}

two_steps :
    Run one_waits
      (dequeue (enqueue one_waits second_message)).1
      (second_message ∷ [])
      ((dequeue (enqueue one_waits second_message)).0 ∷ [])
unfolding enqueue dequeue put
two_steps = next (pushes second_message refl) (next (pops refl) stop)

Run-messages_example :
    IsValid (dequeue (enqueue one_waits second_message)).1
    × (messages one_waits ++ second_message ∷ []
        ≡ ((dequeue (enqueue one_waits second_message)).0 ∷ [])
          ++ messages (dequeue (enqueue one_waits second_message)).1)
Run-messages_example = Run-messages two_steps one_waits-IsValid

-- The queue is full, and has room at the first wake.
push-Appended_example :
    Appended second_message
      (first has_room (two_wait ∷ one_waits ∷ []))
      (push two_wait (one_waits ∷ []) second_message)
push-Appended_example =
    push-Appended two_wait (one_waits ∷ []) second_message
      (two_wait-IsValid, (one_waits-IsValid, tt))

-- A wake without a message, then one with two.
pop-Outcome_example :
    Outcome none_wait
      (pos 50)
      (signalled none_wait ∷ signalled two_wait ∷ [])
      (pop none_wait (pos 50) (signalled none_wait ∷ signalled two_wait ∷ []))
pop-Outcome_example =
    pop-Outcome none_wait (pos 50) (signalled none_wait ∷ signalled two_wait ∷ [])
      (none_wait-IsValid, (none_wait-IsValid, (two_wait-IsValid, tt)))
