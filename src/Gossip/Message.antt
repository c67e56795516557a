-- ===== src/Gossip/Message.antt =====
-- The messages of src/cluster/gossip_protocol.c and include/roole/gossip.h: their layout on the
-- network, and the functions that write and read it.
pub mod Update
pub mod RoundTrip
pub mod Bounds
pub mod Truncated
mod Tests
use roole.Base.{
  ℕ, zero, suc, ◌+◌, ◌-◌, ◌*◌, ◌%◌, ◌≤◌, ◌<◌, min, Bool, Option, none, some, List, [], ◌∷◌, ◌++◌,
  ◌==◌, ltb, if◌then◌else◌, length, get_or, set,
}
use roole.Base.Status.{
  NodeType, unknown, router, worker, other_type, NodeStatus, alive, suspect, dead, other_status,
  type_code, status_code,
}
use roole.Wire.{Read, ◌>>=◌, ◌>>◌, pure, remaining, bytes, number, encode, c_string, padded}

-- `gossip_member_update_t`. The address is the bytes before the end of the C string.
pub record MemberUpdate : Type 0 where
  pub node_id : ℕ
  pub node_type : NodeType
  pub ip_address : List ℕ
  pub gossip_port : ℕ
  pub data_port : ℕ
  pub status : NodeStatus
  pub incarnation : ℕ
  pub timestamp_ms : ℕ

-- `gossip_message_t`. `updates` is the part of the array of ten that has been written; the rest is
-- zero. `num_updates` is a byte of its own.
pub record GossipMessage : Type 0 where
  pub version : ℕ
  pub msg_type : ℕ
  pub flags : ℕ
  pub sender_id : ℕ
  pub sequence_num : ℕ
  pub num_updates : ℕ
  pub updates : List MemberUpdate

abbrev pub max_piggyback_updates : ℕ
max_piggyback_updates = 10

abbrev pub member_update_size : ℕ
member_update_size = 40

abbrev pub blank_update : MemberUpdate
blank_update = record {
  node_id = 0;
  node_type = unknown;
  ip_address = [];
  gossip_port = 0;
  data_port = 0;
  status = alive;
  incarnation = 0;
  timestamp_ms = 0;
}

-- The casts of a byte to the enumerations.
unfoldable pub type_of_byte : ℕ → NodeType
type_of_byte n =
    if n == 0 then unknown else if n == 1 then router else if n == 2 then worker else other_type n

unfoldable pub status_of_byte : ℕ → NodeStatus
status_of_byte n =
    if n == 0 then alive else if n == 1 then suspect else if n == 2 then dead else other_status n

-- `gossip_serialize_member_update`.
pub serialize_member_update : MemberUpdate → List ℕ
serialize_member_update u =
    encode 2 u.node_id
    ++ (encode 1 (type_code u.node_type)
        ++ (encode 1 (status_code u.status)
            ++ (padded 16 u.ip_address
                ++ (encode 2 u.gossip_port
                    ++ (encode 2 u.data_port
                        ++ (encode 8 u.incarnation ++ encode 8 u.timestamp_ms))))))

-- `gossip_deserialize_member_update`.
pub deserialize_member_update : Read MemberUpdate
deserialize_member_update = do
  node_id ← number 2
  node_type ← number 1
  status ← number 1
  ip_address ← bytes 16
  gossip_port ← number 2
  data_port ← number 2
  incarnation ← number 8
  timestamp_ms ← number 8
  pure (record {
    node_id = node_id;
    node_type = type_of_byte node_type;
    ip_address = c_string (set ip_address 15 0);
    gossip_port = gossip_port;
    data_port = data_port;
    status = status_of_byte status;
    incarnation = incarnation;
    timestamp_ms = timestamp_ms;
  })

pub serialize_header : GossipMessage → List ℕ
serialize_header m =
    encode 1 m.version
    ++ (encode 1 m.msg_type
        ++ (encode 2 m.flags
            ++ (encode 2 m.sender_id
                ++ (encode 8 m.sequence_num ++ (encode 1 m.num_updates ++ encode 1 0)))))

-- The loop of `gossip_message_serialize` from update `i` on, with `left` rounds to go. Where the
-- buffer is too small it writes `i` to byte 16 of the buffer: that byte is beyond what is returned
-- if no update has been written, and `none`, a write past the buffer, if it has 16 bytes only.
pub serialize_updates : ℕ → List MemberUpdate → ℕ → ℕ → List ℕ → Option (List ℕ)
serialize_updates size updates zero i out = some out
serialize_updates size updates (suc left) i out =
    let rest =
      serialize_updates size updates left (i + 1)
        (out ++ serialize_member_update (get_or updates i blank_update)) in
    if ltb size (length out + member_update_size)
    then if ltb 16 size then some (set out 16 i) else none
    else rest

-- `gossip_message_serialize`: the bytes written. The inner `none` is -1, and the outer one a write past
-- the end of the buffer.
pub serialize : GossipMessage → ℕ → Option (Option (List ℕ))
unfolding serialize_header serialize_updates
serialize m size =
    if ltb size 16
    then some none
    else elim (serialize_updates size m.updates (min m.num_updates max_piggyback_updates) 0
        (serialize_header m)) [ none ↦ none | some out ↦ some (some out) ]

-- The loop of `gossip_message_deserialize`: the updates read, and `num_updates` after the loop.
pub deserialize_updates : ℕ → ℕ → ℕ → Read (ℕ × List MemberUpdate)
deserialize_updates num zero i = pure (num, [])
deserialize_updates num (suc left) i = do
  room ← remaining
  let more = do
    u ← deserialize_member_update
    (n, us) ← deserialize_updates num left (i + 1)
    pure (n, u ∷ us)
  if ltb room member_update_size then pure (i, []) else more

-- The body of `gossip_message_deserialize` after its first test; the inner `none` is -1.
pub deserialize_body : Read (Option GossipMessage)
unfolding deserialize_updates
deserialize_body = do
  version ← number 1
  msg_type ← number 1
  let rest = do
    flags ← number 2
    sender_id ← number 2
    sequence_num ← number 8
    num_updates ← number 1
    padding ← number 1
    (n, updates) ← deserialize_updates num_updates (min num_updates max_piggyback_updates) 0
    pure (
        some (record {
          version = version;
          msg_type = msg_type;
          flags = flags;
          sender_id = sender_id;
          sequence_num = sequence_num;
          num_updates = n;
          updates = updates;
        }))
  if version == 1 then rest else pure none

-- `gossip_message_deserialize`. The outer `none` is a read past the end of the buffer.
pub deserialize : List ℕ → Option (Option GossipMessage)
unfolding deserialize_body
deserialize buffer =
    if ltb (length buffer) 16
    then some none
    else elim (deserialize_body buffer) [ none ↦ none | some (m, rest) ↦ some m ]

-- `gossip_message_serialized_size`.
abbrev pub serialized_size : GossipMessage → ℕ
serialized_size m = 16 + m.num_updates * member_update_size
