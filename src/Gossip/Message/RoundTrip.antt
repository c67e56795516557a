-- ===== src/Gossip/Message/RoundTrip.antt =====
-- Whole messages of src/cluster/gossip_protocol.c, written and then read.
use roole.Base.{
  ℕ, ◌+◌, ◌*◌, ◌^◌, ◌≤◌, ◌<◌, ◌≡◌, refl, sym, ap, subst, ◌∙◌, min, true, false, some, List, [], ◌∷◌,
  ◌++◌, append_assoc, append-nil, arith, length, get_or, get_or-append, length-append, All, ltb,
  ◌==◌,
}
use roole.Wire.{◌>>=◌}
use roole.Wire.Laws.{length-encode, number-encode}
use roole.Gossip.Message.{
  MemberUpdate, GossipMessage, blank_update, serialize_member_update, serialize_header,
  serialize_updates, serialize, deserialize_updates, deserialize_body, deserialize,
  max_piggyback_updates, member_update_size,
}
use roole.Gossip.Message.Update.{
  IsWire, length-serialize_member_update, deserialize-serialize_update,
}

-- The bytes of updates, one after another.
abbrev pub update_bytes : List MemberUpdate → List ℕ
update_bytes [] = []
update_bytes (u ∷ us) = serialize_member_update u ++ update_bytes us

-- With room for all of them the loop writes the updates one after another.
pub serialize_updates_lem :
    (size : ℕ) (pre us : List MemberUpdate) (out : List ℕ)
    → length out + length us * member_update_size ≤ size
    → serialize_updates size (pre ++ us) (length us) (length pre) out
      ≡ some (out ++ update_bytes us)
unfolding serialize_updates
serialize_updates_lem size pre [] out h = ap some (sym (append-nil out))
serialize_updates_lem size pre (u ∷ us) out h =
    let here : get_or (pre ++ u ∷ us) (length pre) blank_update ≡ u =
      get_or-append pre u blank_update us in
    let more : length (out ++ serialize_member_update u) + length us * member_update_size ≤ size =
      omega
        (arith, length-append out (serialize_member_update u), length-serialize_member_update u) in
    let later =
      serialize_updates_lem size (pre ++ u ∷ []) us (out ++ serialize_member_update u) more in
    let list : (pre ++ u ∷ []) ++ us ≡ pre ++ u ∷ us = append_assoc pre (u ∷ []) us in
    let index : length (pre ++ u ∷ []) ≡ length pre + 1 = length-append pre (u ∷ []) in
    let fits : ltb size (length out + member_update_size) ≡ false = ground arith in
    rw (fits, here)
      (subst
        (λ l.
          serialize_updates size l (length us) (length pre + 1) (out ++ serialize_member_update u)
          ≡ some (out ++ update_bytes (u ∷ us)))
        list
        (subst
          (λ k.
            serialize_updates size ((pre ++ u ∷ []) ++ us) (length us) k
              (out ++ serialize_member_update u)
            ≡ some (out ++ update_bytes (u ∷ us)))
          index (later ∙ ap some (append_assoc out (serialize_member_update u) (update_bytes us)))))

deserialize_updates_lem :
    (num i : ℕ) (us : List MemberUpdate) (rest : List ℕ)
    → All IsWire us
    → deserialize_updates num (length us) i (update_bytes us ++ rest) ≡ some ((num, us), rest)
unfolding deserialize_updates
deserialize_updates_lem num i [] rest h = refl
deserialize_updates_lem num i (u ∷ us) rest h =
    let room : ltb (length (update_bytes (u ∷ us) ++ rest)) member_update_size ≡ false = ground (
      arith,
      length-append (serialize_member_update u ++ update_bytes us) rest,
      length-append (serialize_member_update u) (update_bytes us),
      length-serialize_member_update u,
    ) in
    rw room (
      rw (
        ◌>>=◌,
        append_assoc (serialize_member_update u) (update_bytes us) rest,
        deserialize-serialize_update u (update_bytes us ++ rest) h.0,
        deserialize_updates_lem num (i + 1) us rest h.1,
      ))

deserialize_of_body :
    (buffer : List ℕ) (m : GossipMessage) (rest : List ℕ)
    → 16 ≤ length buffer
    → deserialize_body buffer ≡ some (some m, rest)
    → deserialize buffer ≡ some (some m)
unfolding deserialize
deserialize_of_body buffer m rest h e =
    let long : ltb (length buffer) 16 ≡ false = ground arith in rw (long, e)

-- A message whose fields have the ranges of their C types, with at most ten updates.
pub record IsWireMessage (m : GossipMessage) : Type 0 where
  pub current : m.version ≡ 1
  pub type_byte : m.msg_type < 2 ^ 8
  pub flags_word : m.flags < 2 ^ 16
  pub sender_word : m.sender_id < 2 ^ 16
  pub sequence_word : m.sequence_num < 2 ^ 64
  pub counted : m.num_updates ≡ length m.updates
  pub at_most_ten : length m.updates ≤ max_piggyback_updates
  pub updates_wire : All IsWire m.updates

pub length-serialize_header : (m : GossipMessage) → length (serialize_header m) ≡ 16
unfolding serialize_header
length-serialize_header m = omega (arith, length-append {0} {A = ℕ}, length-encode)

module _ (m : GossipMessage) (v : IsWireMessage m) where
  pub rounds : min m.num_updates max_piggyback_updates ≡ length m.updates
  rounds = omega (arith, v.counted, v.at_most_ten)

  serialize_updates_all :
      (size : ℕ)
      → 16 + m.num_updates * member_update_size ≤ size
      → serialize_updates size m.updates
          (min m.num_updates max_piggyback_updates)
          0
          (serialize_header m)
        ≡ some (serialize_header m ++ update_bytes m.updates)
  serialize_updates_all size room =
      ap (λ k. serialize_updates size m.updates k 0 (serialize_header m)) rounds
      ∙ serialize_updates_lem size [] m.updates (serialize_header m)
          (omega (arith, length-serialize_header m, v.counted))

  serialize_all :
      (size : ℕ)
      → 16 + m.num_updates * member_update_size ≤ size
      → serialize m size ≡ some (some (serialize_header m ++ update_bytes m.updates))
  unfolding serialize
  serialize_all size room =
      let wide : ltb size 16 ≡ false = ground arith in
      rw (wide, serialize_updates_all size room) refl

  deserialize_body_all :
      (rest : List ℕ)
      → deserialize_body ((serialize_header m ++ update_bytes m.updates) ++ rest)
        ≡ some (some m, rest)
  unfolding deserialize_body serialize_header
  deserialize_body_all rest =
      let version_byte : m.version < 2 ^ 8 = omega (arith, v.current) in
      let count_byte : m.num_updates < 2 ^ 8 = omega (arith, v.counted, v.at_most_ten) in
      let current : (m.version == 1) ≡ true = ground (arith, v.current) in
      simp append_assoc (
        rw (
          ◌>>=◌,
          number-encode 1 m.version _ version_byte,
          number-encode 1 m.msg_type _ v.type_byte,
          current,
          number-encode 2 m.flags _ v.flags_word,
          number-encode 2 m.sender_id _ v.sender_word,
          number-encode 8 m.sequence_num _ v.sequence_word,
          number-encode 1 m.num_updates _ count_byte,
          number-encode 1 0 _ (omega arith),
          rounds,
          deserialize_updates_lem m.num_updates 0 m.updates rest v.updates_wire,
        ))

length-update_bytes :
    (us : List MemberUpdate) → length (update_bytes us) ≡ length us * member_update_size
length-update_bytes [] = refl
length-update_bytes (u ∷ us) = omega (
  arith,
  length-append (serialize_member_update u) (update_bytes us),
  length-serialize_member_update u,
  length-update_bytes us,
)

-- A message with at most ten updates and fields in their ranges, written by
-- `gossip_message_serialize` to a buffer with room for all of it, takes 16 bytes and 40 for each
-- update, and `gossip_message_deserialize` reads the same message from those bytes, whatever
-- follows them.
pub deserialize-serialize :
    (m : GossipMessage) (size : ℕ) (rest : List ℕ)
    → IsWireMessage m
    → 16 + m.num_updates * member_update_size ≤ size
    → (buffer : List ℕ) × (serialize m size ≡ some (some buffer))
      × (length buffer ≡ 16 + m.num_updates * member_update_size)
      × (deserialize (buffer ++ rest) ≡ some (some m))
deserialize-serialize m size rest v room =
    let buffer : List ℕ = serialize_header m ++ update_bytes m.updates in
    let long : length buffer ≡ 16 + m.num_updates * member_update_size = omega (
      arith,
      length-append (serialize_header m) (update_bytes m.updates),
      length-serialize_header m,
      length-update_bytes m.updates,
      v.counted,
    ) in
    (
      buffer,
      serialize_all m v size room,
      long,
      deserialize_of_body (buffer ++ rest) m rest (omega (arith, long, length-append buffer rest))
          (deserialize_body_all m v rest),
    )
