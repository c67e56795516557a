-- ===== src/Gossip/Engine/Reply/Ack.antt =====
-- The datagram that answers a PING, from `handle_ping_message` of src/cluster/gossip_engine.c to the
-- bytes of src/cluster/gossip_protocol.c.
use roole.Base.{
  ℕ, zero, suc, ◌^◌, ◌≤◌, ◌<◌, ◌≡◌, refl, sym, ap, ap₂, ◌∙◌, true, some, List, [], ◌∷◌, ◌++◌,
  append-nil, arith, ltb, length, take, keep, map, All, Bool-cases, inl, inr, length-take,
}
use roole.ClusterView.{ClusterView, ClusterMember}
use roole.Gossip.Message.{
  MemberUpdate, GossipMessage, serialize, deserialize, max_piggyback_updates,
}
use roole.Gossip.Message.Update.{IsWire}
use roole.Gossip.Message.RoundTrip.{IsWireMessage, deserialize-serialize}
use roole.Gossip.Engine.{Engine, next_sequence, send, gossip_max_payload_size}
use roole.Gossip.Engine.Ping.{
  merge_ping, update_of, snapshot, message_from, send_ack, handle_ping_message, msg_ack,
}
use roole.Gossip.Engine.Loop.{absorb, for_updates_lem}
use roole.Gossip.Engine.Cases.{Frame, merge_ping-Frame}
use roole.Gossip.Engine.Reply.{
  IsWireMember, IsWireView, is_told, stamped-IsWire, snapshot_loop_lem, merge_ping-IsWire,
}

absorbed-IsWire :
    (now : ℕ) (engine : Engine) (us : List MemberUpdate)
    → All IsWire us
    → IsWireView engine.cluster_view
    → IsWireView (absorb (merge_ping now) engine us).cluster_view
unfolding absorb
absorbed-IsWire now engine [] ws h = h
absorbed-IsWire now engine (u ∷ us) (w, ws) h =
    absorbed-IsWire now (merge_ping now engine u) us ws (merge_ping-IsWire now engine u w h)

absorbed-Frame :
    (now : ℕ) (engine : Engine) (us : List MemberUpdate)
    → Frame engine (absorb (merge_ping now) engine us)
unfolding absorb
absorbed-Frame now engine [] = record { same_id = refl; same_sequence = refl; same_sent = refl }
absorbed-Frame now engine (u ∷ us) =
    let here = merge_ping-Frame now engine u in
    let there = absorbed-Frame now (merge_ping now engine u) us in
    record {
      same_id = there.same_id ∙ here.same_id;
      same_sequence = there.same_sequence ∙ here.same_sequence;
      same_sent = there.same_sent ∙ here.same_sent;
    }

-- The members that an ACK tells of.
abbrev pub told : ℕ → ClusterView → List ClusterMember
told my_id view = keep (is_told my_id) (take max_piggyback_updates view.members)

told-IsWire :
    (now my_id : ℕ) (ms : List ClusterMember)
    → now < 2 ^ 64
    → All IsWireMember ms
    → All IsWire (map (update_of now) (keep (is_told my_id) ms))
told-IsWire now my_id [] bound h = tt
told-IsWire now my_id (m ∷ ms) bound (w, ws) = elim (Bool-cases (is_told my_id m)) [
  | inl here ↦ rw here (stamped-IsWire now m bound w, told-IsWire now my_id ms bound ws)
  | inr gone ↦ rw gone (told-IsWire now my_id ms bound ws)
]

All-take :
    (P : ClusterMember → Type 0) (n : ℕ) (ms : List ClusterMember) → All P ms → All P (take n ms)
All-take P Prim.Native.Nat.zero ms h = tt
All-take P (suc n) [] h = tt
All-take P (suc n) (m ∷ ms) (p, ps) = (p, All-take P n ms ps)

length-told :
    (now my_id : ℕ) (ms : List ClusterMember)
    → length (map (update_of now) (keep (is_told my_id) ms)) ≤ length ms
length-told now my_id [] = omega arith
length-told now my_id (m ∷ ms) = elim (Bool-cases (is_told my_id m)) [
  | inl here ↦ rw here (omega (arith, length-told now my_id ms))
  | inr gone ↦ rw gone (omega (arith, length-told now my_id ms))
]

-- A message that is written to some bytes is sent as these bytes.
pub sent-send :
    (engine : Engine) (m : GossipMessage) (ip : List ℕ) (port : ℕ) (buffer : List ℕ)
    → serialize m gossip_max_payload_size ≡ some (some buffer)
    → 0 < length buffer
    → (send engine m ip port).sent
      ≡ engine.sent ++ record { payload = buffer; dest_ip = ip; dest_port = port } ∷ []
sent-send engine m ip port buffer written long =
    let some_bytes : ltb 0 (length buffer) ≡ true = ground arith in rw (written, some_bytes, send)

-- The ACK, sent and read again.
send_ack_lem :
    (now : ℕ) (engine : Engine) (src_ip : List ℕ) (src_port : ℕ)
    → now < 2 ^ 64
    → engine.my_id < 2 ^ 16
    → engine.sequence_num < 2 ^ 64
    → IsWireView engine.cluster_view
    → (buffer : List ℕ) × ((send_ack now engine src_ip src_port).sent
        ≡ engine.sent ++ record { payload = buffer; dest_ip = src_ip; dest_port = src_port } ∷ [])
      × (deserialize buffer
          ≡ some (
              some (
                message_from engine msg_ack
                  (map (update_of now) (told engine.my_id engine.cluster_view)))))
send_ack_lem now engine src_ip src_port timely id seq wire =
    let members : List ClusterMember = take max_piggyback_updates engine.cluster_view.members in
    let few : length members ≤ max_piggyback_updates =
      omega (arith, length-take max_piggyback_updates engine.cluster_view.members) in
    let us : List MemberUpdate = map (update_of now) (keep (is_told engine.my_id) members) in
    let ack : GossipMessage = message_from engine msg_ack us in
    let ten : length us ≤ max_piggyback_updates =
      omega (arith, length-told now engine.my_id members) in
    let v : IsWireMessage ack = record {
      current = refl;
      type_byte = omega arith;
      flags_word = omega arith;
      sender_word = id;
      sequence_word = seq;
      counted = refl;
      at_most_ten = ten;
      updates_wire =
          told-IsWire now engine.my_id members timely
            (All-take IsWireMember max_piggyback_updates engine.cluster_view.members wire);
    } in
    let (buffer, written, long, read) =
      deserialize-serialize ack gossip_max_payload_size [] v (omega arith) in
    let copied : snapshot engine now max_piggyback_updates ≡ us =
      snapshot_loop_lem engine.my_id now max_piggyback_updates members 0 (omega arith) in
    (
      buffer,
      ap (λ l. (send (next_sequence engine) (message_from engine msg_ack l) src_ip src_port).sent)
            copied
          ∙ sent-send (next_sequence engine) ack src_ip src_port buffer written
              (omega (arith, long)),
      ap deserialize (sym (append-nil buffer)) ∙ read,
    )

-- A PING that has the updates it announces, at most ten, each with fields in the ranges of their C
-- types, to an engine whose members have such fields too, adds one datagram to what is sent, to the
-- address that the PING came from: reading its bytes gives an ACK of this node with its sequence
-- number, with the members among the first ten of the view after the PING's updates that are neither
-- DEAD nor this node, in their order.
pub handle_ping_message_lem :
    (now : ℕ) (engine : Engine) (msg : GossipMessage) (src_ip : List ℕ) (src_port : ℕ)
    → msg.num_updates ≡ length msg.updates
    → length msg.updates ≤ max_piggyback_updates
    → All IsWire msg.updates
    → now < 2 ^ 64
    → engine.my_id < 2 ^ 16
    → engine.sequence_num < 2 ^ 64
    → IsWireView engine.cluster_view
    → (engine' : Engine) × (buffer : List ℕ) × (handle_ping_message now engine msg src_ip src_port
        ≡ some engine')
      × (engine'.sent
          ≡ engine.sent ++ record { payload = buffer; dest_ip = src_ip; dest_port = src_port } ∷ [])
      × (deserialize buffer
          ≡ some (
              some (
                message_from engine msg_ack
                  (map (update_of now) (told engine.my_id engine'.cluster_view)))))
unfolding handle_ping_message
handle_ping_message_lem now engine msg src_ip src_port counted few wire timely id seq members =
    let merged : Engine = absorb (merge_ping now) engine msg.updates in
    let frame = absorbed-Frame now engine msg.updates in
    let (buffer, sent, read) =
      send_ack_lem now merged src_ip src_port timely (omega (arith, frame.same_id))
        (omega (arith, frame.same_sequence))
        (absorbed-IsWire now engine msg.updates wire members) in
    let reply : ℕ → ℕ → GossipMessage = λ my_id number. record {
      version = 1;
      msg_type = msg_ack;
      flags = 0;
      sender_id = my_id;
      sequence_num = number;
      num_updates = length (map (update_of now) (told my_id merged.cluster_view));
      updates = map (update_of now) (told my_id merged.cluster_view);
    } in
    (
      send_ack now merged src_ip src_port,
      buffer,
      rw (for_updates_lem (merge_ping now) msg engine counted few, handle_ping_message),
      sent
          ∙ ap (λ l. l ++ record { payload = buffer; dest_ip = src_ip; dest_port = src_port } ∷ [])
              frame.same_sent,
      read ∙ ap₂ (λ k n. some (some (reply k n))) frame.same_id frame.same_sequence,
    )
