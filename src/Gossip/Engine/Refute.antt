-- ===== src/Gossip/Engine/Refute.antt =====
-- Suspicions that reach the suspected node: `handle_suspect_message` of
-- src/cluster/gossip_engine.c.
use roole.Base.{
  ℕ, zero, suc, ◌+◌, ◌%◌, ◌^◌, ◌≤◌, ◌<◌, ◌≡◌, refl, ap, ◌∙◌, subst, inl, inr, Bool, true, false,
  not, ◌&&◌, none, some, List, [], ◌∷◌, ◌++◌, ◌==◌, arith, leb, length, take, replicate,
  if◌then◌else◌, Bool-cases, both,
}
use roole.Base.Status.{alive, suspect, eq_status}
use roole.ClusterView
use roole.ClusterView.{ClusterView, ClusterMember}
use roole.ClusterView.Incarnation.{get-update_status}
use roole.Gossip.Message.{MemberUpdate, GossipMessage, max_piggyback_updates}
use roole.Gossip.UpdateQueue.{max_update_queue}
use roole.Gossip.UpdateQueue.Batch.{updates}
use roole.Gossip.Engine.{Engine, queue_times, queue_update}
use roole.Gossip.Engine.Ping.{set_status}
use roole.Gossip.Engine.Rumours.{self_update, refute, hear_suspect, handle_suspect_message}
use roole.Gossip.Engine.Validity.{IsValid, hear_suspect-IsValid}
use roole.Gossip.Engine.Loop.{absorb, for_updates_lem, queue_times_lem}

-- Whether an update says that a node is SUSPECT.
abbrev pub accuses : ℕ → MemberUpdate → Bool
accuses node u = u.node_id == node && eq_status u.status suspect

-- How many of the updates do.
abbrev pub accusations : ℕ → List MemberUpdate → ℕ
accusations node [] = 0
accusations node (u ∷ us) = (if accuses node u then 1 else 0) + accusations node us

-- The node itself as it is after a message that accuses it: its entry in the view, its id and number.
record Unmoved (before after : Engine) (raised : ℕ) : Type 0 where
  same_id : after.my_id ≡ before.my_id
  same_entry :
      ClusterView.get after.cluster_view before.my_id
      ≡ ClusterView.get before.cluster_view before.my_id
  number : after.incarnation ≡ (before.incarnation + raised) % 2 ^ 64
  word : after.incarnation < 2 ^ 64

refuted :
    (n : ℕ) (engine : Engine) (u : MemberUpdate)
    → ((queue_times n engine u).cluster_view ≡ engine.cluster_view)
      × ((queue_times n engine u).my_id ≡ engine.my_id)
      × ((queue_times n engine u).incarnation ≡ engine.incarnation)
unfolding queue_times
refuted Prim.Native.Nat.zero engine u = (refl, refl, refl)
refuted (suc n) engine u = refuted n _ u

hear_suspect-Unmoved :
    (now : ℕ) (engine : Engine) (u : MemberUpdate)
    → IsValid engine
    → engine.incarnation < 2 ^ 64
    → Unmoved engine (hear_suspect now engine u) (if accuses engine.my_id u then 1 else 0)
unfolding hear_suspect refute
hear_suspect-Unmoved now engine u v bound = elim (Bool-cases (accuses engine.my_id u)) [
  | inl accused ↦
      let raised : Engine = record engine { incarnation = (engine.incarnation + 1) % 2 ^ 64 } in
      let (view, id, number) = refuted 3 raised (self_update raised now) in
      rw (accused, hear_suspect)
        (record {
          same_id = id;
          same_entry = ap (λ w. ClusterView.get w engine.my_id) view;
          number = number;
          word = omega (arith, number);
        })
  | inr spared ↦
      let kept : Unmoved engine engine 0 = record {
        same_id = refl;
        same_entry = refl;
        number = omega arith;
        word = bound;
      } in
      elim (Bool-cases (u.node_id == engine.my_id)) [
        | inl ours ↦ rw (spared, ours, hear_suspect) kept
        | inr other ↦
            let lives : Bool = elim (ClusterView.get engine.cluster_view u.node_id) [
              | none ↦ false
              | some m ↦ leb m.incarnation u.incarnation && eq_status m.status alive
            ] in
            let P : (Engine → Type 0) = λ e. Unmoved engine e 0 in
            let elsewhere =
              get-update_status engine.cluster_view u.node_id suspect u.incarnation now engine.my_id
                v.view in
            let marked : P (set_status now engine u.node_id suspect u.incarnation) = record {
              same_id = refl;
              same_entry = ground (arith, other, elsewhere);
              number = omega arith;
              word = bound;
            } in
            rw (spared, other, hear_suspect)
              (both P (not false && eq_status u.status suspect)
                (both P lives (requeued marked) kept) kept)
      ]
]
  where
    requeued :
        Unmoved engine (set_status now engine u.node_id suspect u.incarnation) 0
        → Unmoved engine (queue_update (set_status now engine u.node_id suspect u.incarnation) u) 0
    requeued m = record {
      same_id = m.same_id;
      same_entry = m.same_entry;
      number = m.number;
      word = m.word;
    }

absorb-Unmoved :
    (now : ℕ) (engine : Engine) (us : List MemberUpdate)
    → IsValid engine
    → engine.incarnation < 2 ^ 64
    → Unmoved engine (absorb (hear_suspect now) engine us) (accusations engine.my_id us)
unfolding absorb
absorb-Unmoved now engine [] v bound = record {
  same_id = refl;
  same_entry = refl;
  number = omega arith;
  word = bound;
}
absorb-Unmoved now engine (u ∷ us) v bound =
    let here = hear_suspect-Unmoved now engine u v bound in
    let next : Engine = hear_suspect now engine u in
    let later = absorb-Unmoved now next us (hear_suspect-IsValid now engine u v) here.word in
    let there : Unmoved next (absorb (hear_suspect now) next us) (accusations engine.my_id us) =
      subst (λ k. Unmoved next (absorb (hear_suspect now) next us) (accusations k us)) here.same_id
        later in
    record {
      same_id = there.same_id ∙ here.same_id;
      same_entry =
          subst
            (λ k.
              ClusterView.get (absorb (hear_suspect now) next us).cluster_view k
              ≡ ClusterView.get next.cluster_view k)
            here.same_id there.same_entry
          ∙ here.same_entry;
      number = omega (arith, there.number, here.number);
      word = there.word;
    }

-- A SUSPECT message that has the updates it announces, at most ten, leaves what a well-formed view
-- has of this node as it is, whatever the updates say, and raises the node's own incarnation number
-- by one, modulo 2^64, for each of them that says that this node is SUSPECT.
pub handle_suspect_message_lem :
    (now : ℕ) (engine : Engine) (msg : GossipMessage)
    → msg.num_updates ≡ length msg.updates
    → length msg.updates ≤ max_piggyback_updates
    → IsValid engine
    → engine.incarnation < 2 ^ 64
    → (engine' : Engine) × (handle_suspect_message now engine msg ≡ some engine')
      × (ClusterView.get engine'.cluster_view engine.my_id
          ≡ ClusterView.get engine.cluster_view engine.my_id)
      × (engine'.incarnation ≡ (engine.incarnation + accusations engine.my_id msg.updates) % 2 ^ 64)
unfolding handle_suspect_message
handle_suspect_message_lem now engine msg counted few v bound =
    let r = absorb-Unmoved now engine msg.updates v bound in
    (
      absorb (hear_suspect now) engine msg.updates,
      for_updates_lem (hear_suspect now) msg engine counted few,
      r.same_entry,
      r.number,
    )

-- An update that says that this node is SUSPECT is answered by three updates in the queue, as far as
-- it has room for them, that say that the node is ALIVE with the incarnation number that follows its
-- own, and the view of a well-formed engine stays as it is.
pub refute_lem :
    (now : ℕ) (engine : Engine) (u : MemberUpdate)
    → u.node_id ≡ engine.my_id
    → u.status ≡ suspect
    → IsValid engine
    → let engine' = hear_suspect now engine u in
      let refutation = record (self_update engine now) {
        incarnation = (engine.incarnation + 1) % 2 ^ 64;
      } in
      (updates engine'.update_queue
        ≡ take max_update_queue (updates engine.update_queue ++ replicate 3 refutation))
      × (engine'.incarnation ≡ (engine.incarnation + 1) % 2 ^ 64)
      × (engine'.cluster_view ≡ engine.cluster_view)
unfolding hear_suspect refute
refute_lem now engine u ours bad v =
    let accused : accuses engine.my_id u ≡ true = ground (arith, ours, bad) in
    let raised : Engine = record engine { incarnation = (engine.incarnation + 1) % 2 ^ 64 } in
    let w : IsValid raised = record {
      view = v.view;
      queue = v.queue;
      waits = v.waits;
      piggyback = v.piggyback;
    } in
    let (view, id, number) = refuted 3 raised (self_update raised now) in
    rw (accused, hear_suspect) (queue_times_lem 3 raised (self_update raised now) w, number, view)
