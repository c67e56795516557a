-- ===== src/MessageQueue/Fifo.antt =====
-- The messages that the queue of src/node/message_queue.c holds, and runs of its critical sections by
-- any number of threads.
use roole.Base.{
  ℕ, ◌^◌, ◌<◌, ◌≡◌, refl, subst, sym, ap, ◌∙◌, Bool, false, some, List, [], ◌∷◌, ◌++◌, append-nil,
  append_assoc, arith, replicate, length-replicate,
}
use roole.Base.Status.{ok}
use roole.Ring
use roole.Ring.{Ring, put, pull}
use roole.Ring.Contents.{contents, put-IsValid, contents-put, pull-IsValid, contents-pull}
use roole.MessageQueue.{Message, MessageQueue, blank, init, is_full, is_empty, enqueue, dequeue}

abbrev pub IsValid : MessageQueue → Type 0
IsValid q = Ring.IsValid q.capacity q.ring

-- The messages in the queue, oldest first.
abbrev pub messages : MessageQueue → List Message
messages q = contents q.capacity blank q.ring

-- A queue that `message_queue_init` hands out is well formed and empty.
pub queue_init-IsValid :
    (capacity : ℕ) (a l e f : Bool) {q : MessageQueue}
    → capacity < 2 ^ 64
    → init capacity a l e f ≡ (ok, some q)
    → IsValid q × (messages q ≡ []) × (q.capacity ≡ capacity)
unfolding init
queue_init-IsValid capacity a l e f {q} h made =
    let same : record {
      ring = record { slots = replicate capacity blank; head = 0; tail = 0; count = 0 };
      capacity = capacity;
    }
        ≡ q =
      ground arith in
    let positive : 0 < capacity = ground arith in
    subst (λ r. IsValid r × (messages r ≡ []) × (r.capacity ≡ capacity)) same
      (
        record {
          full_array = length-replicate capacity blank;
          nonempty = positive;
          addressable = h;
          head_in = positive;
          count_in = omega arith;
          tail_at = omega arith;
        },
        refl,
        refl,
      )

-- One critical section that puts a message in or takes one out. The guards are those of the loops
-- that wait: a section is entered only when they let it be.
pub data Step (q : MessageQueue) : MessageQueue → List Message → List Message → Type 0 where
  pushes : (m : Message) → is_full q ≡ false → Step q (enqueue q m) (m ∷ []) []
  pops : is_empty q ≡ false → Step q (dequeue q).1 [] ((dequeue q).0 ∷ [])

-- A run of sections by any number of threads, with what was put in and what was taken out.
pub data Run : MessageQueue → MessageQueue → List Message → List Message → Type 0 where
  stop : {q : MessageQueue} → Run q q [] []
  next :
      {q r s : MessageQueue} {ins outs ins' outs' : List Message}
      → Step q r ins outs
      → Run r s ins' outs'
      → Run q s (ins ++ ins') (outs ++ outs')

pub Step-IsValid :
    {q r : MessageQueue} {ins outs : List Message} → Step q r ins outs → IsValid q → IsValid r
unfolding enqueue dequeue
Step-IsValid {q} (pushes m h) v = put-IsValid q.capacity blank q.ring m v (ground arith)
Step-IsValid {q} (pops h) v = pull-IsValid q.capacity blank q.ring v (ground arith)

pub Step-messages :
    {q r : MessageQueue} {ins outs : List Message}
    → Step q r ins outs
    → IsValid q
    → messages q ++ ins ≡ outs ++ messages r
unfolding enqueue dequeue
Step-messages {q} (pushes m h) v = sym (contents-put q.capacity blank q.ring m v (ground arith))
Step-messages {q} (pops h) v =
    append-nil (messages q) ∙ contents-pull q.capacity blank q.ring v (ground arith)

-- From a well-formed queue, any run of critical sections that put messages in or take them out
-- leaves a well-formed queue, and the messages that were there, followed by those put in, are
-- those taken out, in that order, followed by those that are still there.
pub Run-messages :
    {q r : MessageQueue} {ins outs : List Message}
    → Run q r ins outs
    → IsValid q
    → IsValid r × (messages q ++ ins ≡ outs ++ messages r)
Run-messages {q} stop v = (v, append-nil (messages q))
Run-messages {q} {r}
      (next {r = mid} {ins = ins} {outs = outs} {ins' = ins'} {outs' = outs'} st rest) v =
    let later = Run-messages rest (Step-IsValid st v) in
    (
      later.0,
      sym (append_assoc (messages q) ins ins')
          ∙ ap (λ l. l ++ ins') (Step-messages st v)
          ∙ append_assoc outs (messages mid) ins'
          ∙ ap (λ l. outs ++ l) later.1
          ∙ sym (append_assoc outs outs' (messages r)),
    )
