-- ===== src/Gossip/Message/Truncated.antt =====
-- `gossip_message_serialize` of src/cluster/gossip_protocol.c on a buffer that holds some of the
-- updates and not all.
use roole.Base.{
  ℕ, zero, suc, ◌+◌, ◌*◌, ◌%◌, ◌≤◌, ◌<◌, ◌≡◌, refl, ap, subst, ◌∙◌, true, false, some, List, [],
  ◌∷◌, ◌++◌, append_assoc, append-nil, arith, length, get_or, get_or-append, get_elem?, take, set,
  min, length-append, ltb,
}
use roole.Wire.{encode}
use roole.Gossip.Message.{
  MemberUpdate, GossipMessage, blank_update, serialize_member_update, serialize_header,
  serialize_updates, serialize, member_update_size, max_piggyback_updates,
}
use roole.Gossip.Message.Update.{length-serialize_member_update}
use roole.Gossip.Message.RoundTrip.{update_bytes, IsWireMessage, rounds, length-serialize_header}

-- With room for `k` updates only, those are written, and then `k` goes to byte 16.
serialize_updates_cut :
    (size k : ℕ) (pre us : List MemberUpdate) (out : List ℕ)
    → 16 < size
    → k < length us
    → length out + k * member_update_size ≤ size
    → size < length out + suc k * member_update_size
    → serialize_updates size (pre ++ us) (length us) (length pre) out
      ≡ some (set (out ++ update_bytes (take k us)) 16 (length pre + k))
unfolding serialize_updates
serialize_updates_cut size k pre [] out wide h a b = absurd (omega arith)
serialize_updates_cut size zero pre (u ∷ us) out wide h a b =
    let inside : ltb 16 size ≡ true = ground arith in
    let full : ltb size (length out + member_update_size) ≡ true = ground arith in
    rw (full, inside, append-nil) (ap (λ i. some (set out 16 i)) (omega arith))
serialize_updates_cut size (suc k) pre (u ∷ us) out wide h a b =
    let here : get_or (pre ++ u ∷ us) (length pre) blank_update ≡ u =
      get_or-append pre u blank_update us in
    let grown : length (out ++ serialize_member_update u) ≡ length out + member_update_size =
      omega
        (arith, length-append out (serialize_member_update u), length-serialize_member_update u) in
    let later =
      serialize_updates_cut size k (pre ++ u ∷ []) us (out ++ serialize_member_update u) wide
        (omega arith) (omega arith) (omega arith) in
    let list : (pre ++ u ∷ []) ++ us ≡ pre ++ u ∷ us = append_assoc pre (u ∷ []) us in
    let index : length (pre ++ u ∷ []) ≡ length pre + 1 = length-append pre (u ∷ []) in
    let fits : ltb size (length out + member_update_size) ≡ false = ground arith in
    let out' : List ℕ = out ++ serialize_member_update u in
    let last : set (out' ++ update_bytes (take k us)) 16 (length (pre ++ u ∷ []) + k)
        ≡ set (out ++ update_bytes (take (suc k) (u ∷ us))) 16 (length pre + suc k) =
      ap (set (out' ++ update_bytes (take k us)) 16) (omega arith)
      ∙ ap (λ l. set l 16 (length pre + suc k))
          (append_assoc out (serialize_member_update u) (update_bytes (take k us))) in
    rw (fits, here)
      (subst
        (λ l.
          serialize_updates size l (length us) (length pre + 1) out'
          ≡ some (set (out ++ update_bytes (take (suc k) (u ∷ us))) 16 (length pre + suc k)))
        list
        (subst
          (λ j.
            serialize_updates size ((pre ++ u ∷ []) ++ us) (length us) j out'
            ≡ some (set (out ++ update_bytes (take (suc k) (u ∷ us))) 16 (length pre + suc k)))
          index (later ∙ ap some last)))

header_bytes :
    (m : GossipMessage) (u : MemberUpdate) (us : List MemberUpdate) (k : ℕ)
    → let b = set (serialize_header m ++ update_bytes (u ∷ us)) 16 k in
      (get_elem? b 14 ≡ some (m.num_updates % 256)) × (get_elem? b 16 ≡ some k)
unfolding serialize_header serialize_member_update encode
header_bytes m u us k = (refl, refl)

header_bytes_taken :
    (m : GossipMessage) (us : List MemberUpdate) (k j : ℕ)
    → 0 < k
    → k < length us
    → let b = set (serialize_header m ++ update_bytes (take k us)) 16 j in
      (get_elem? b 14 ≡ some (m.num_updates % 256)) × (get_elem? b 16 ≡ some j)
header_bytes_taken m [] k j a b = absurd (omega arith)
header_bytes_taken m (u ∷ us) zero j a b = absurd (omega arith)
header_bytes_taken m (u ∷ us) (suc k) j a b = header_bytes m u (take k us) j

serialize_cut :
    (m : GossipMessage) (size k : ℕ)
    → IsWireMessage m
    → 0 < k
    → k < length m.updates
    → 16 + k * member_update_size ≤ size
    → size < 16 + suc k * member_update_size
    → serialize m size
      ≡ some (some (set (serialize_header m ++ update_bytes (take k m.updates)) 16 k))
unfolding serialize
serialize_cut m size k v pos less fits tight =
    let wide : ltb size 16 ≡ false = ground arith in
    let long = length-serialize_header m in
    let cut : serialize_updates size m.updates (min m.num_updates max_piggyback_updates) 0
          (serialize_header m)
        ≡ some (set (serialize_header m ++ update_bytes (take k m.updates)) 16 k) =
      ap (λ n. serialize_updates size m.updates n 0 (serialize_header m)) (rounds m v)
      ∙ serialize_updates_cut size k [] m.updates (serialize_header m) (omega arith) less
          (omega arith) (omega arith)
      ∙ ap (λ i. some (set (serialize_header m ++ update_bytes (take k m.updates)) 16 i))
          (omega arith) in
    rw (wide, cut) refl

-- For a message with fields in their ranges and a buffer that holds `k` of its updates, at least
-- one and not all, what `gossip_message_serialize` writes still announces all of them in byte 14,
-- the counter of the header, and byte 16, the first of the first update's node id, is `k`.
pub serialize_truncated :
    (m : GossipMessage) (size k : ℕ)
    → IsWireMessage m
    → 0 < k
    → k < m.num_updates
    → 16 + k * member_update_size ≤ size
    → size < 16 + suc k * member_update_size
    → (buffer : List ℕ) × (serialize m size ≡ some (some buffer))
      × (get_elem? buffer 14 ≡ some m.num_updates)
      × (get_elem? buffer 16 ≡ some k)
serialize_truncated m size k v pos less fits tight =
    let bytes = header_bytes_taken m m.updates k k pos (omega (arith, v.counted)) in
    (
      set (serialize_header m ++ update_bytes (take k m.updates)) 16 k,
      serialize_cut m size k v pos (omega (arith, v.counted)) fits tight,
      bytes.0 ∙ ap some (omega (arith, v.counted, v.at_most_ten)),
      bytes.1,
    )
