-- ===== src/Gossip/Engine/Reply.antt =====
-- The ACK with which `handle_ping_message` of src/cluster/gossip_engine.c answers a PING.
pub mod Ack
use roole.Base.{
  ℕ, zero, suc, ◌+◌, ◌*◌, ◌%◌, ◌^◌, ◌≤◌, ◌<◌, ◌≡◌, refl, sym, ap, ◌∙◌, subst, inl, inr, Bool, true,
  not, ◌&&◌, ◌||◌, Option, none, some, List, [], ◌∷◌, ◌++◌, append-nil, ◌==◌, arith, ltb, leb,
  length, take, keep, map, if◌then◌else◌, All, Bool-cases, both, length-take, min,
}
use roole.Base.Status.{NodeStatus, status_code, alive, dead, eq_status}
use roole.ClusterView
use roole.ClusterView.{ClusterView, ClusterMember, merge, restate}
use roole.ClusterView.Each.{add-All, update_status-All}
use roole.Gossip.Message.{
  MemberUpdate, GossipMessage, serialize, deserialize, max_piggyback_updates, member_update_size,
  type_of_byte, status_of_byte,
}
use roole.Gossip.Message.Update.{IsWire, alive_known}
use roole.Gossip.Message.RoundTrip.{IsWireMessage, deserialize-serialize}
use roole.Gossip.Engine.{Engine, Datagram, next_sequence, send, gossip_max_payload_size}
use roole.Gossip.Engine.Ping.{
  for_updates, member_of, merge_ping, update_of, snapshot_loop, snapshot, message_from, send_ack,
  handle_ping_message, msg_ack,
}
use roole.Gossip.Engine.Loop.{absorb, for_updates_lem}
use roole.Gossip.Engine.Cases.{Frame, merge_ping-cases, merge_ping-Frame}

-- A member whose fields have the ranges of their C types.
abbrev pub IsWireMember : ClusterMember → Type 0
IsWireMember m = IsWire (update_of 0 m)

-- Whether a member is told of: it is not DEAD and not the node itself.
abbrev pub is_told : ℕ → ClusterMember → Bool
is_told my_id m = not (eq_status m.status dead || m.node_id == my_id)

pub stamped-IsWire :
    (now : ℕ) (m : ClusterMember) → now < 2 ^ 64 → IsWireMember m → IsWire (update_of now m)
stamped-IsWire now m bound w = record {
  id_word = w.id_word;
  type_byte = w.type_byte;
  type_known = w.type_known;
  status_byte = w.status_byte;
  status_known = w.status_known;
  address_fits = w.address_fits;
  address_text = w.address_text;
  gossip_word = w.gossip_word;
  data_word = w.data_word;
  incarnation_word = w.incarnation_word;
  timestamp_word = bound;
}

pub snapshot_loop_lem :
    (my_id now limit : ℕ) (ms : List ClusterMember) (n : ℕ)
    → n + length ms ≤ limit
    → snapshot_loop my_id now limit ms n ≡ map (update_of now) (keep (is_told my_id) ms)
unfolding snapshot_loop
snapshot_loop_lem my_id now limit [] n h = refl
snapshot_loop_lem my_id now limit (m ∷ ms) n h =
    elim (Bool-cases (eq_status m.status dead || m.node_id == my_id)) [
      | inl skipped ↦ rw skipped (snapshot_loop_lem my_id now limit ms n (omega arith))
      | inr told ↦ rw told (
          ap (λ r. update_of now m ∷ r)
            (last ms (snapshot_loop_lem my_id now limit ms (n + 1) (omega arith)) h))
    ]
  where
    last :
        (rest : List ClusterMember)
        → snapshot_loop my_id now limit rest (n + 1)
          ≡ map (update_of now) (keep (is_told my_id) rest)
        → n + suc (length rest) ≤ limit
        → (if leb limit (n + 1) then [] else snapshot_loop my_id now limit rest (n + 1))
          ≡ map (update_of now) (keep (is_told my_id) rest)
    last [] e k = ground arith
    last (x ∷ rest) e k = ground (arith, e)

module _ (now : ℕ) (m : ClusterMember) (w : IsWireMember m) where
  -- A member with another status and another number.
  renewed-IsWire :
      (status : NodeStatus) (incarnation : ℕ)
      → status_code status < 2 ^ 8
      → status_of_byte (status_code status) ≡ status
      → incarnation < 2 ^ 64
      → IsWireMember (record m { status = status; incarnation = incarnation })
  renewed-IsWire status incarnation byte known word = record {
    id_word = w.id_word;
    type_byte = w.type_byte;
    type_known = w.type_known;
    status_byte = byte;
    status_known = known;
    address_fits = w.address_fits;
    address_text = w.address_text;
    gossip_word = w.gossip_word;
    data_word = w.data_word;
    incarnation_word = word;
    timestamp_word = w.timestamp_word;
  }

  merge-IsWire : (old : ClusterMember) → IsWireMember old → IsWireMember (merge now m old)
  unfolding merge
  merge-IsWire old v =
      both IsWireMember (eq_status m.status alive && eq_status old.status dead)
        (renewed-IsWire m.status ((m.incarnation + 1) % 2 ^ 64) w.status_byte w.status_known
          (omega arith))
        (both IsWireMember (leb old.incarnation m.incarnation)
          (renewed-IsWire m.status m.incarnation w.status_byte w.status_known w.incarnation_word) v)

  restate-IsWire :
      (status : NodeStatus) (incarnation : ℕ)
      → status_code status < 2 ^ 8
      → status_of_byte (status_code status) ≡ status
      → incarnation < 2 ^ 64
      → IsWireMember (restate status incarnation now m)
  unfolding restate
  restate-IsWire status incarnation byte known word =
      both IsWireMember (leb m.incarnation incarnation)
        (renewed-IsWire status incarnation byte known word) w

-- A view whose members can be sent.
abbrev pub IsWireView : ClusterView → Type 0
IsWireView view = All IsWireMember view.members

pub merge_ping-IsWire :
    (now : ℕ) (engine : Engine) (u : MemberUpdate)
    → IsWire u
    → IsWireView engine.cluster_view
    → IsWireView (merge_ping now engine u).cluster_view
merge_ping-IsWire now engine u w h =
    let view = engine.cluster_view in
    let as_is = member_of u u.status now in
    let back = member_of u alive now in
    let as_is-IsWire : IsWireMember as_is = record {
      id_word = w.id_word;
      type_byte = w.type_byte;
      type_known = w.type_known;
      status_byte = w.status_byte;
      status_known = w.status_known;
      address_fits = w.address_fits;
      address_text = w.address_text;
      gossip_word = w.gossip_word;
      data_word = w.data_word;
      incarnation_word = w.incarnation_word;
      timestamp_word = omega arith;
    } in
    let back-IsWire : IsWireMember back =
      renewed-IsWire now as_is as_is-IsWire alive u.incarnation (omega arith) alive_known
        w.incarnation_word in
    merge_ping-cases now engine u IsWireView h
      (λ new.
        add-All IsWireMember view h as_is now (merge-IsWire now as_is as_is-IsWire) as_is-IsWire)
      (λ old found newer.
        add-All IsWireMember view h back now (merge-IsWire now back back-IsWire) back-IsWire)
      (update_status-All IsWireMember view h u.node_id u.status u.incarnation now (λ m x.
        restate-IsWire now m x u.status u.incarnation w.status_byte w.status_known
          w.incarnation_word))
