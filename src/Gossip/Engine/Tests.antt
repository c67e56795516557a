-- ===== src/Gossip/Engine/Tests.antt =====
-- Runs of src/cluster/gossip_engine.c on node 1, a router that knows worker 7.
use roole.Base.{
  ℕ, ◌+◌, ◌%◌, ◌^◌, ◌≤◌, ◌<◌, ◌≡◌, refl, ◌⊎◌, true, false, Option, none, some, List, [], ◌∷◌, ◌++◌,
  arith, map, take, replicate, if◌then◌else◌, All,
}
use roole.Base.Status.{router, worker, alive, suspect, dead}
use roole.Table.{find}
use roole.ClusterView
use roole.ClusterView.{ClusterView, ClusterMember}
use roole.ClusterView.Invariant
use roole.PeerPool.{PeerPool}
use roole.Gossip.Message.{
  MemberUpdate, GossipMessage, deserialize, max_piggyback_updates, type_of_byte, status_of_byte,
}
use roole.Gossip.Message.Update.{IsWire}
use roole.Gossip.UpdateQueue
use roole.Gossip.UpdateQueue.{max_update_queue}
use roole.Gossip.UpdateQueue.Batch
use roole.Gossip.UpdateQueue.Batch.{updates}
use roole.Gossip.Engine.{Engine, gossip_default_config, max_pending_acks}
use roole.Gossip.Engine.Ping.{update_of, message_from, handle_ping_message, msg_ack}
use roole.Gossip.Engine.Rumours.{self_update, handle_suspect_message}
use roole.Gossip.Engine.WorkerJoin.{take_worker}
use roole.Gossip.Engine.Dispatch.{dispatch_message, receive}
use roole.Gossip.Engine.Protocol.{is_lost, check_suspect_timeouts}
use roole.Gossip.Engine.Validity.{IsValid}
use roole.Gossip.Engine.Safety.{SafeWith}
use roole.Gossip.Engine.Rank.{rank}
use roole.Gossip.Engine.Knowledge.{dispatch_message-rank}
use roole.Gossip.Engine.Runs.{Input, arrives, ticks, receive-Safe}
use roole.Gossip.Engine.Refute.{accusations, handle_suspect_message_lem}
use roole.Gossip.Engine.Reply.Ack.{told, handle_ping_message_lem}
use roole.Gossip.Engine.Lost.{check_suspect_timeouts_lem}
use roole.Gossip.Engine.Rejoin.{rejoin_announced_lower}

abbrev worker_7 : ClusterMember
worker_7 = record {
  node_id = 7;
  node_type = worker;
  ip_address = 49 ∷ [];
  gossip_port = 7000;
  data_port = 8000;
  status = suspect;
  last_seen_ms = 10;
  incarnation = 5;
}

abbrev node_1 : ClusterView → Engine
node_1 view = record {
  my_id = 1;
  my_type = router;
  my_ip = 48 ∷ [];
  gossip_port = 7001;
  data_port = 8001;
  incarnation = 2;
  sequence_num = 40;
  config = gossip_default_config;
  cluster_view = view;
  has_callback = true;
  acks = replicate max_pending_acks (record { target_node = 0; ping_sent_ms = 0; active = false });
  update_queue = UpdateQueue.init;
  events = [];
  sent = [];
}

abbrev engine : Engine
engine = node_1 (record { members = worker_7 ∷ []; capacity = 4 })

abbrev after_death : Engine
after_death = node_1 (record { members = record worker_7 { status = dead } ∷ []; capacity = 4 })

queue-IsValid : Batch.IsValid UpdateQueue.init
queue-IsValid = record {
  full_array = refl;
  nonempty = omega arith;
  addressable = omega arith;
  head_in = omega arith;
  count_in = omega arith;
  tail_at = refl;
}

one_member-IsValid :
    (m : ClusterMember) → Invariant.IsValid (record { members = m ∷ []; capacity = 4 })
unfolding find
one_member-IsValid m = record { distinct = (refl, tt); bounded = omega arith }

node_1-IsValid : (m : ClusterMember) → IsValid (node_1 (record { members = m ∷ []; capacity = 4 }))
node_1-IsValid m = record {
  view = one_member-IsValid m;
  queue = queue-IsValid;
  waits = refl;
  piggyback = omega arith;
}

-- Worker 7 is alive again, and somebody suspects node 1.
abbrev news : List MemberUpdate
news =
    record {
      node_id = 7;
      node_type = worker;
      ip_address = 49 ∷ [];
      gossip_port = 7000;
      data_port = 8000;
      status = alive;
      incarnation = 6;
      timestamp_ms = 900;
    }
    ∷ record {
      node_id = 1;
      node_type = router;
      ip_address = 48 ∷ [];
      gossip_port = 7001;
      data_port = 8001;
      status = suspect;
      incarnation = 2;
      timestamp_ms = 900;
    }
    ∷ []

abbrev message : ℕ → GossipMessage
message type = record {
  version = 1;
  msg_type = type;
  flags = 0;
  sender_id = 7;
  sequence_num = 3;
  num_updates = 2;
  updates = news;
}

abbrev no_pool : Option (PeerPool ℕ)
no_pool = none

abbrev source : List ℕ
source = 50 ∷ []

dispatch_message-rank_example :
    (engine' : Engine) × (pool' : Option (PeerPool ℕ)) × (dispatch_message 0 1000 engine no_pool
        (message 1)
        source
        7000
        true
      ≡ some (engine', pool'))
    × (rank engine.cluster_view 7 ≤ rank engine'.cluster_view 7)
dispatch_message-rank_example =
    dispatch_message-rank 0 1000 engine no_pool (message 1) source 7000 true 7 (omega arith)
      (omega arith, (omega arith, tt)) (omega arith) (omega arith) (node_1-IsValid worker_7)

news-IsWire : All IsWire news
unfolding type_of_byte status_of_byte
news-IsWire = (
  record {
    id_word = omega arith;
    type_byte = omega arith;
    type_known = refl;
    status_byte = omega arith;
    status_known = refl;
    address_fits = omega arith;
    address_text = ((omega arith, omega arith), tt);
    gossip_word = omega arith;
    data_word = omega arith;
    incarnation_word = omega arith;
    timestamp_word = omega arith;
  },
  (
    record {
      id_word = omega arith;
      type_byte = omega arith;
      type_known = refl;
      status_byte = omega arith;
      status_known = refl;
      address_fits = omega arith;
      address_text = ((omega arith, omega arith), tt);
      gossip_word = omega arith;
      data_word = omega arith;
      incarnation_word = omega arith;
      timestamp_word = omega arith;
    },
    tt,
  ),
)

-- A PING with the news, and two rounds, of which the second gossips.
abbrev inputs : List ℕ → List Input
inputs bytes =
    arrives 1000 bytes source 7000 true
    ∷ ticks 1100 2 5 true []
    ∷ ticks 2100 3 6 false (4 ∷ 5 ∷ [])
    ∷ []

receive-Safe_example :
    SafeWith 0 (receive 0 1000 engine no_pool (replicate 20 1) source 7000 true)
    ⊎ ((msg : GossipMessage) × (deserialize (replicate 20 1) ≡ some (some msg))
        × (max_piggyback_updates < msg.num_updates))
receive-Safe_example =
    receive-Safe 0 1000 engine no_pool (replicate 20 1) source 7000 true (node_1-IsValid worker_7)

handle_suspect_message_lem_example :
    (engine' : Engine) × (handle_suspect_message 1000 engine (message 4) ≡ some engine')
    × (ClusterView.get engine'.cluster_view 1 ≡ ClusterView.get engine.cluster_view 1)
    × (engine'.incarnation ≡ (2 + accusations 1 news) % 2 ^ 64)
handle_suspect_message_lem_example =
    handle_suspect_message_lem 1000 engine (message 4) refl (omega arith) (node_1-IsValid worker_7)
      (omega arith)

handle_ping_message_lem_example :
    (engine' : Engine) × (buffer : List ℕ) × (handle_ping_message 1000 engine
        (message 1)
        source
        7000
      ≡ some engine')
    × (engine'.sent ≡ record { payload = buffer; dest_ip = source; dest_port = 7000 } ∷ [])
    × (deserialize buffer
        ≡ some (
            some
              (message_from engine msg_ack (map (update_of 1000) (told 1 engine'.cluster_view)))))
unfolding type_of_byte status_of_byte
handle_ping_message_lem_example =
    handle_ping_message_lem 1000 engine (message 1) source 7000 refl (omega arith) news-IsWire
      (omega arith) (omega arith) (omega arith)
      (
        record {
          id_word = omega arith;
          type_byte = omega arith;
          type_known = refl;
          status_byte = omega arith;
          status_known = refl;
          address_fits = omega arith;
          address_text = ((omega arith, omega arith), tt);
          gossip_word = omega arith;
          data_word = omega arith;
          incarnation_word = omega arith;
          timestamp_word = omega arith;
        },
        tt,
      )

abbrev accusation : MemberUpdate
accusation = record (self_update engine 900) { status = suspect }

check_suspect_timeouts_lem_example :
    (check_suspect_timeouts 9000 engine).cluster_view.members
    ≡ map (λ m. if is_lost 5000 9000 m then record m { status = dead } else m) (worker_7 ∷ [])
check_suspect_timeouts_lem_example =
    check_suspect_timeouts_lem 9000 engine (node_1-IsValid worker_7)

dead_7 : ClusterView.get after_death.cluster_view 7 ≡ some (record worker_7 { status = dead })
unfolding ClusterView.get find
dead_7 = refl

-- Worker 7 leaves after three messages.
abbrev leaver : Engine
leaver = record (node_1 (record { members = record worker_7 { node_id = 1 } ∷ []; capacity = 4 })) {
  my_id = 7;
  sequence_num = 3;
}

rejoin_announced_lower_example :
    let engine' = take_worker 1000 after_death 7 (record accusation { node_id = 7 }) source in
    (new : ClusterMember) × (announced : MemberUpdate) × (ClusterView.get engine'.cluster_view 7
      ≡ some new)
    × (new.status ≡ alive)
    × (new.incarnation ≡ 7)
    × (updates engine'.update_queue
        ≡ take max_update_queue (updates after_death.update_queue ++ replicate 10 announced))
    × (announced.node_id ≡ 7)
    × (announced.incarnation ≡ 6)
rejoin_announced_lower_example =
    rejoin_announced_lower 1000 after_death (record accusation { node_id = 7 }) source
      (record worker_7 { status = dead }) (node_1-IsValid (record worker_7 { status = dead }))
      dead_7 refl (omega arith)
