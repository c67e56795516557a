-- ===== src/Gossip/Engine.antt =====
-- The gossip engine of src/cluster/gossip_engine.c: its state, and the calls by which the handlers
-- change it. Handlers are functions on the state; `now` is what `time_now_ms` returns while one
-- runs. Addresses are C strings of at most 15 bytes, so `safe_strncpy` copies them whole.
pub mod Ping
pub mod Rumours
pub mod WorkerJoin
pub mod Dispatch
pub mod Protocol
pub mod Announce
pub mod Validity
pub mod Safety
pub mod Peers
pub mod Rounds
pub mod Rank
pub mod Cases
pub mod Monotone
pub mod Knowledge
pub mod Runs
pub mod Loop
pub mod Lost
pub mod Rejoin
pub mod Leave
pub mod Refute
pub mod Reply
mod Tests
use roole.Base.{
  ℕ, zero, suc, ◌+◌, ◌-◌, ◌%◌, ◌^◌, Bool, true, false, Option, none, some, List, [], ◌∷◌, ◌++◌, ltb,
  if◌then◌else◌, replicate, take, length,
}
use roole.Base.Status.{NodeType, NodeStatus, alive, suspect, dead, eq_status}
use roole.ClusterView.{ClusterView, ClusterMember}
use roole.Gossip.Message.{MemberUpdate, GossipMessage, serialize}
use roole.Gossip.UpdateQueue
use roole.Gossip.UpdateQueue.{UpdateQueue, push}

-- `pending_ack_t`.
pub record PendingAck : Type 0 where
  pub target_node : ℕ
  pub ping_sent_ms : ℕ
  pub active : Bool

abbrev pub max_pending_acks : ℕ
max_pending_acks = 64

-- `gossip_config_t`.
pub record GossipConfig : Type 0 where
  pub protocol_period_ms : ℕ
  pub ack_timeout_ms : ℕ
  pub suspect_timeout_ms : ℕ
  pub dead_timeout_ms : ℕ
  pub fanout : ℕ
  pub max_piggyback : ℕ

-- `gossip_default_config`.
abbrev pub gossip_default_config : GossipConfig
gossip_default_config = record {
  protocol_period_ms = 1000;
  ack_timeout_ms = 500;
  suspect_timeout_ms = 5000;
  dead_timeout_ms = 5000;
  fanout = 3;
  max_piggyback = 10;
}

-- The strings that name what happened to a member.
pub data MemberEvent : Type 0 where
  member_join member_leave member_failed member_update : MemberEvent

-- One call of `event_callback`.
pub record Event : Type 0 where
  pub node_id : ℕ
  pub node_type : NodeType
  pub ip : List ℕ
  pub data_port : ℕ
  pub event_type : MemberEvent

-- What is handed to `gossip_send_udp`.
pub record Datagram : Type 0 where
  pub payload : List ℕ
  pub dest_ip : List ℕ
  pub dest_port : ℕ

-- `struct gossip_engine`. `has_callback` says whether `event_callback` is set, `events` are the calls
-- of it and `sent` the datagrams, oldest first. The view is shared with the node.
pub record Engine : Type 0 where
  pub my_id : ℕ
  pub my_type : NodeType
  pub my_ip : List ℕ
  pub gossip_port : ℕ
  pub data_port : ℕ
  pub incarnation : ℕ
  pub sequence_num : ℕ
  pub config : GossipConfig
  pub cluster_view : ClusterView
  pub has_callback : Bool
  pub acks : List PendingAck
  pub update_queue : UpdateQueue
  pub events : List Event
  pub sent : List Datagram

-- `gossip_engine_init`. The last three arguments are whether `calloc`, the two initialisations of
-- locks and `gossip_create_udp_socket` succeed.
abbrev pub init :
    ℕ
    → NodeType
    → List ℕ
    → ℕ
    → ℕ
    → Option GossipConfig
    → ClusterView
    → Bool
    → Bool
    → Bool
    → Bool
    → Option Engine
init my_id my_type bind_addr gossip_port data_port config view has_callback allocated locked bound =
    let engine : Engine = record {
      my_id = my_id;
      my_type = my_type;
      my_ip = take 15 bind_addr;
      gossip_port = gossip_port;
      data_port = data_port;
      incarnation = 0;
      sequence_num = 0;
      config = elim config [ none ↦ gossip_default_config | some c ↦ c ];
      cluster_view = view;
      has_callback = has_callback;
      acks =
          replicate max_pending_acks (record { target_node = 0; ping_sent_ms = 0; active = false });
      update_queue = UpdateQueue.init;
      events = [];
      sent = [];
    } in
    if allocated then if locked then if bound then some engine else none else none else none

-- `gossip_engine_set_callback`.
abbrev pub set_callback : Engine → Bool → Engine
set_callback engine has_callback = record engine { has_callback = has_callback }

-- A call of the callback, if there is one.
abbrev pub notify : Engine → Event → Engine
notify engine event = record engine {
  events = if engine.has_callback then engine.events ++ event ∷ [] else engine.events;
}

-- `update_queue_push` on the queue of the engine.
abbrev pub queue_update : Engine → MemberUpdate → Engine
queue_update engine update = record engine { update_queue = (push engine.update_queue update).1 }

-- The same update, so many times.
pub queue_times : ℕ → Engine → MemberUpdate → Engine
queue_times zero engine update = engine
queue_times (suc n) engine update = queue_times n (queue_update engine update) update

abbrev pub set_view : Engine → ClusterView → Engine
set_view engine view = record engine { cluster_view = view }

-- `__sync_fetch_and_add` on the sequence number.
abbrev pub next_sequence : Engine → Engine
next_sequence engine = record engine { sequence_num = (engine.sequence_num + 1) % 2 ^ 64 }

abbrev pub gossip_max_payload_size : ℕ
gossip_max_payload_size = 1400

-- A message written to a buffer of 1400 bytes, which has a byte 16, and sent to an address.
abbrev pub send : Engine → GossipMessage → List ℕ → ℕ → Engine
send engine message ip port = record engine {
  sent = elim (serialize message gossip_max_payload_size) [
    | none ↦ engine.sent
    | some none ↦ engine.sent
    | some (some buffer) ↦
        if ltb 0 (length buffer)
        then engine.sent ++ record { payload = buffer; dest_ip = ip; dest_port = port } ∷ []
        else engine.sent
  ];
}

-- What a handler tells the callback after a status changed; other numbers tell nothing.
pub notify_status : Engine → MemberUpdate → Engine
notify_status engine u =
    let event : (MemberEvent → Event) = λ type. record {
      node_id = u.node_id;
      node_type = u.node_type;
      ip = u.ip_address;
      data_port = u.data_port;
      event_type = type;
    } in
    if eq_status u.status suspect
    then notify engine (event member_failed)
    else if eq_status u.status dead
    then notify engine (event member_leave)
    else if eq_status u.status alive
    then notify engine (event member_update)
    else engine
