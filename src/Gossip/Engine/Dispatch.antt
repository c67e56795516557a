-- ===== src/Gossip/Engine/Dispatch.antt =====
-- `dispatch_message` and a round of `gossip_listener_thread` of src/cluster/gossip_engine.c.
use roole.Base.{ℕ, Bool, Option, none, some, List, ◌==◌, ltb, if◌then◌else◌, length}
use roole.PeerPool.{PeerPool}
use roole.Gossip.Message.{GossipMessage, deserialize}
use roole.Gossip.Engine.{Engine}
use roole.Gossip.Engine.Ping.{handle_ping_message, handle_ack_message, msg_ping, msg_ack}
use roole.Gossip.Engine.Rumours.{
  handle_suspect_message, handle_alive_message, handle_dead_message, handle_join_message,
  handle_leave,
}
use roole.Gossip.Engine.WorkerJoin.{handle_worker_join_message, msg_alive}

abbrev pub msg_suspect : ℕ
msg_suspect = 4

abbrev pub msg_dead : ℕ
msg_dead = 6

abbrev pub msg_join : ℕ
msg_join = 7

abbrev pub msg_leave : ℕ
msg_leave = 8

abbrev pub msg_worker_join : ℕ
msg_worker_join = 9

module _ {F : Type 0} (unloaded : F) where
  -- `dispatch_message`: the engine and the pool of peers afterwards. `none` is a read past the array
  -- of updates. The other types change nothing.
  unfoldable pub dispatch_message :
      ℕ
      → Engine
      → Option (PeerPool F)
      → GossipMessage
      → List ℕ
      → ℕ
      → Bool
      → Option (Engine × Option (PeerPool F))
  dispatch_message now engine pool msg src_ip src_port connected =
      let keeping : Option Engine → Option (Engine × Option (PeerPool F)) =
        λ r. elim r [ none ↦ none | some engine' ↦ some (engine', pool) ] in
      if msg.msg_type == msg_ping
      then keeping (handle_ping_message now engine msg src_ip src_port)
      else if msg.msg_type == msg_ack
      then keeping (handle_ack_message now engine msg)
      else if msg.msg_type == msg_suspect
      then keeping (handle_suspect_message now engine msg)
      else if msg.msg_type == msg_alive
      then keeping (handle_alive_message now engine msg)
      else if msg.msg_type == msg_dead
      then keeping (handle_dead_message now engine msg)
      else if msg.msg_type == msg_join
      then keeping (handle_join_message now engine msg src_ip)
      else if msg.msg_type == msg_worker_join
      then some (handle_worker_join_message unloaded now engine pool msg src_ip src_port connected)
      else if msg.msg_type == msg_leave
      then keeping (some (handle_leave now engine msg))
      else keeping (some engine)

  -- What the listener does with the bytes of a datagram. `none` is a read out of bounds.
  unfoldable pub receive :
      ℕ
      → Engine
      → Option (PeerPool F)
      → List ℕ
      → List ℕ
      → ℕ
      → Bool
      → Option (Engine × Option (PeerPool F))
  receive now engine pool bytes src_ip src_port connected =
      if ltb (length bytes) 16 then some (engine, pool) else elim (deserialize bytes) [
        | none ↦ none
        | some none ↦ some (engine, pool)
        | some (some msg) ↦
            if msg.sender_id == engine.my_id
            then some (engine, pool)
            else dispatch_message now engine pool msg src_ip src_port connected
      ]
