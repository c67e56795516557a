-- ===== src/Gossip/Engine/Loop.antt =====
-- The loops over the updates of a message in src/cluster/gossip_engine.c, where the message has as
-- many updates as it announces.
use roole.Base.{
  ℕ, suc, ◌+◌, ◌≤◌, ◌≡◌, refl, sym, ap, ◌∙◌, subst₂, inl, inr, true, some, List, [], ◌∷◌, ◌++◌,
  append_assoc, append-nil, arith, length, length-append, get_or-append, ltb, replicate, take,
  take_all, take-take, take-append,
}
use roole.Ring.Contents.{length-contents}
use roole.Gossip.Message.{MemberUpdate, GossipMessage, blank_update, max_piggyback_updates}
use roole.Gossip.UpdateQueue.{UpdateQueue, push, max_update_queue}
use roole.Gossip.UpdateQueue.Batch
use roole.Gossip.UpdateQueue.Batch.{updates, update_push_lem}
use roole.Gossip.Engine.{Engine, queue_update, queue_times}
use roole.Gossip.Engine.Validity.{IsValid, queue_update-IsValid}
use roole.Gossip.Engine.Ping.{visit_updates, for_updates}

-- The rounds of a loop, one for each update.
unfoldable pub absorb : (Engine → MemberUpdate → Engine) → Engine → List MemberUpdate → Engine
absorb handle engine [] = engine
absorb handle engine (u ∷ us) = absorb handle (handle engine u) us

visit_updates_lem :
    (handle : Engine → MemberUpdate → Engine) (pre us : List MemberUpdate) (engine : Engine)
    → length pre + length us ≤ max_piggyback_updates
    → visit_updates handle (pre ++ us) (length us) (length pre) engine
      ≡ some (absorb handle engine us)
unfolding visit_updates absorb
visit_updates_lem handle pre [] engine h = refl
visit_updates_lem handle pre (u ∷ us) engine h =
    let inside : ltb (length pre) max_piggyback_updates ≡ true = ground arith in
    rw (inside, get_or-append pre u blank_update us)
      (subst₂
        (λ l k.
          visit_updates handle l (length us) k (handle engine u)
          ≡ some (absorb handle (handle engine u) us))
        (append_assoc pre (u ∷ []) us) (length-append pre (u ∷ []))
        (visit_updates_lem handle (pre ++ u ∷ []) us (handle engine u)
          (omega (arith, length-append pre (u ∷ [])))))

-- A message that announces the updates it has, at most ten, is handled update by update.
pub for_updates_lem :
    (handle : Engine → MemberUpdate → Engine) (msg : GossipMessage) (engine : Engine)
    → msg.num_updates ≡ length msg.updates
    → length msg.updates ≤ max_piggyback_updates
    → for_updates handle msg engine ≡ some (absorb handle engine msg.updates)
for_updates_lem handle msg engine counted few =
    ap (λ n. visit_updates handle msg.updates n 0 engine) counted
    ∙ visit_updates_lem handle [] msg.updates engine (omega arith)

-- A queue that holds at most 256 updates.
all_held :
    (queue : UpdateQueue)
    → Batch.IsValid queue
    → take max_update_queue (updates queue) ≡ updates queue
all_held queue v =
    take_all max_update_queue (updates queue)
      (omega (arith, length-contents max_update_queue blank_update queue, v.count_in))

updates-push :
    (queue : UpdateQueue) (u : MemberUpdate)
    → Batch.IsValid queue
    → updates (push queue u).1 ≡ take max_update_queue (updates queue ++ u ∷ [])
updates-push queue u v = elim (update_push_lem queue u v) [
  | inl (room, status, w, e) ↦ sym (all_held (push queue u).1 w) ∙ ap (take max_update_queue) e
  | inr (full, status, same) ↦
      ap updates same
      ∙ sym (take-append (updates queue) (u ∷ []))
      ∙ ap (λ n. take n (updates queue ++ u ∷ [])) {y = max_update_queue}
          (length-contents max_update_queue blank_update queue ∙ full)
]

-- An update that is pushed so many times is appended so many times, as far as there is room.
pub queue_times_lem :
    (n : ℕ) (engine : Engine) (u : MemberUpdate)
    → IsValid engine
    → updates (queue_times n engine u).update_queue
      ≡ take max_update_queue (updates engine.update_queue ++ replicate n u)
unfolding queue_times
queue_times_lem Prim.Native.Nat.zero engine u v =
    sym (all_held engine.update_queue v.queue)
    ∙ ap (take max_update_queue) (sym (append-nil (updates engine.update_queue)))
queue_times_lem (suc n) engine u v =
    queue_times_lem n (queue_update engine u) u (queue_update-IsValid engine u v)
    ∙ ap (λ us. take max_update_queue (us ++ replicate n u))
        (updates-push engine.update_queue u v.queue)
    ∙ take-take max_update_queue (updates engine.update_queue ++ u ∷ []) (replicate n u)
    ∙ ap (take max_update_queue)
        (append_assoc (updates engine.update_queue) (u ∷ []) (replicate n u))
