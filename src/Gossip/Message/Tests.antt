-- ===== src/Gossip/Message/Tests.antt =====
-- Runs of src/cluster/gossip_protocol.c on a message with two updates.
use roole.Base.{ℕ, ◌+◌, ◌*◌, ◌≡◌, refl, Option, some, List, [], ◌∷◌, ◌++◌, arith, length, get_elem?}
use roole.Base.Status.{worker, suspect}
use roole.Gossip.Message.{
  MemberUpdate, GossipMessage, serialize, deserialize, member_update_size, type_of_byte,
  status_of_byte,
}
use roole.Gossip.Message.Update.{IsWire}
use roole.Gossip.Message.RoundTrip.{IsWireMessage, deserialize-serialize}
use roole.Gossip.Message.Bounds.{Accepted, deserialize-total}
use roole.Gossip.Message.Truncated.{serialize_truncated}

abbrev suspicion : MemberUpdate
suspicion = record {
  node_id = 7;
  node_type = worker;
  ip_address = 49 ∷ 46 ∷ 50 ∷ [];
  gossip_port = 7000;
  data_port = 8000;
  status = suspect;
  incarnation = 6;
  timestamp_ms = 1000;
}

suspicion-IsWire : IsWire suspicion
unfolding type_of_byte status_of_byte
suspicion-IsWire = record {
  id_word = omega arith;
  type_byte = omega arith;
  type_known = refl;
  status_byte = omega arith;
  status_known = refl;
  address_fits = omega arith;
  address_text =
      ((omega arith, omega arith), ((omega arith, omega arith), ((omega arith, omega arith), tt)));
  gossip_word = omega arith;
  data_word = omega arith;
  incarnation_word = omega arith;
  timestamp_word = omega arith;
}

abbrev ping : GossipMessage
ping = record {
  version = 1;
  msg_type = 1;
  flags = 0;
  sender_id = 3;
  sequence_num = 77;
  num_updates = 2;
  updates = suspicion ∷ suspicion ∷ [];
}

ping-IsWireMessage : IsWireMessage ping
ping-IsWireMessage = record {
  current = refl;
  type_byte = omega arith;
  flags_word = omega arith;
  sender_word = omega arith;
  sequence_word = omega arith;
  counted = refl;
  at_most_ten = omega arith;
  updates_wire = (suspicion-IsWire, (suspicion-IsWire, tt));
}

deserialize-serialize_example :
    (buffer : List ℕ) × (serialize ping 200 ≡ some (some buffer))
    × (length buffer ≡ 16 + 2 * member_update_size)
    × (deserialize (buffer ++ 9 ∷ []) ≡ some (some ping))
deserialize-serialize_example =
    deserialize-serialize ping 200 (9 ∷ []) ping-IsWireMessage (omega arith)

deserialize-total_example :
    (r : Option GossipMessage) × (deserialize (1 ∷ 1 ∷ 0 ∷ []) ≡ some r) × Accepted r
deserialize-total_example = deserialize-total (1 ∷ 1 ∷ 0 ∷ [])

serialize_truncated_example :
    (buffer : List ℕ) × (serialize ping 60 ≡ some (some buffer))
    × (get_elem? buffer 14 ≡ some 2)
    × (get_elem? buffer 16 ≡ some 1)
serialize_truncated_example =
    serialize_truncated ping 60 1 ping-IsWireMessage (omega arith) (omega arith) (omega arith)
      (omega arith)
