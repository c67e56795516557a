-- ===== src/Gossip/Engine/Runs.antt =====
-- The two threads of src/cluster/gossip_engine.c together: datagrams that arrive and rounds of the
-- protocol, one after another.
use roole.Base.{
  ℕ, ◌≤◌, ◌<◌, ◌≡◌, refl, ◌⊎◌, inl, inr, Bool, Option, none, some, List, [], ◌∷◌, arith, length,
  ltb, leb, ◌==◌, both, Bool-cases, Option-cases, ◌∙◌, ap,
}
use roole.PeerPool.{PeerPool}
use roole.Gossip.Message.{GossipMessage, deserialize, max_piggyback_updates}
use roole.Gossip.Message.Bounds.{deserialize-total}
use roole.Gossip.Engine.{Engine}
use roole.Gossip.Engine.Dispatch.{receive}
use roole.Gossip.Engine.Protocol.{protocol_round}
use roole.Gossip.Engine.Validity.{IsValid}
use roole.Gossip.Engine.Safety.{SafeWith, dispatch_message-Safe}

-- What happens to an engine.
pub data Input : Type 0 where
  -- A datagram: the time, its bytes, its source and whether a channel to a worker can be opened.
  arrives : ℕ → List ℕ → List ℕ → ℕ → Bool → Input
  -- A round: the time, its number, and what it chooses.
  ticks : ℕ → ℕ → ℕ → Bool → List ℕ → Input

module _ {F : Type 0} (unloaded : F) where
  unfoldable pub step : Engine → Option (PeerPool F) → Input → Option (Engine × Option (PeerPool F))
  step engine pool (arrives now bytes src_ip src_port connected) =
      receive unloaded now engine pool bytes src_ip src_port connected
  step engine pool (ticks now round rand delivered rands) =
      elim (protocol_round now engine round rand delivered rands) [
        | none ↦ none
        | some engine' ↦ some (engine', pool)
      ]

  unfoldable pub run :
      Engine → Option (PeerPool F) → List Input → Option (Engine × Option (PeerPool F))
  unfolding step
  run engine pool [] = some (engine, pool)
  run engine pool (i ∷ is) = elim (step engine pool i) [
    | none ↦ none
    | some (engine', pool') ↦ run engine' pool' is
  ]

  -- Whatever bytes arrive from whatever address, the listener of a well-formed engine reads nothing
  -- out of bounds and leaves the engine well formed, or the bytes are a message that announces more
  -- than ten updates.
  pub receive-Safe :
      (now : ℕ) (engine : Engine) (pool : Option (PeerPool F)) (bytes src_ip : List ℕ)
      (src_port : ℕ) (connected : Bool)
      → IsValid engine
      → SafeWith unloaded (receive unloaded now engine pool bytes src_ip src_port connected)
        ⊎ ((msg : GossipMessage) × (deserialize bytes ≡ some (some msg))
            × (max_piggyback_updates < msg.num_updates))
  unfolding receive
  receive-Safe now engine pool bytes src_ip src_port connected v =
      let P : (Option (Engine × Option (PeerPool F)) → Type 0) = SafeWith unloaded in
      let ignored : P (some (engine, pool)) = (engine, pool, refl, v) in
      let (read, e, accepted) = deserialize-total bytes in
      elim (Bool-cases (ltb (length bytes) 16)) [
        | inl short ↦ inl (rw short ignored)
        | inr long ↦ elim (Option-cases read) [
          | inl refused ↦ inl (rw (long, e, refused) ignored)
          | inr (msg, got) ↦ elim (Bool-cases (leb msg.num_updates max_piggyback_updates)) [
            | inr many ↦ inr (msg, e ∙ ap some got, ground arith)
            | inl few ↦ inl (
                rw (long, e, got)
                  (both P (msg.sender_id == engine.my_id) ignored (
                    dispatch_message-Safe unloaded now engine pool msg src_ip src_port connected
                      (ground arith) v)))
          ]
        ]
      ]

-- Bytes that announce at most ten updates.
abbrev Counts : Option GossipMessage → Type 0
Counts none = Unit
Counts (some msg) = msg.num_updates ≤ max_piggyback_updates

abbrev pub IsFair : Input → Type 0
IsFair (arrives now bytes src_ip src_port connected) =
    (r : Option GossipMessage) × (deserialize bytes ≡ some r) × Counts r
IsFair (ticks now round rand delivered rands) = Unit
