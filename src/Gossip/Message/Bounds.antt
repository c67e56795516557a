-- ===== src/Gossip/Message/Bounds.antt =====
-- `gossip_message_deserialize` of src/cluster/gossip_protocol.c on arbitrary bytes: its reads, and
-- how the counter of updates and the updates it has read compare.
use roole.Base.{
  ℕ, zero, suc, ◌+◌, ◌≤◌, ◌<◌, ◌≡◌, refl, ap, ◌⊎◌, inl, inr, min, Option, none, some, List, [], ◌∷◌,
  arith, length, ltb, ◌==◌, Bool-cases, ==_iff,
}
use roole.Wire.{◌>>=◌}
use roole.Wire.Laws.{Ends, number-Ends, bytes-Ends, then-Ends}
use roole.Gossip.Message.{
  MemberUpdate, GossipMessage, deserialize_member_update, deserialize_updates, deserialize_body,
  deserialize, max_piggyback_updates, member_update_size,
}

-- Forty bytes are enough for an update.
abbrev Left : ℕ → MemberUpdate → List ℕ → Type 0
Left n u rest = length rest + member_update_size ≡ n

deserialize_member_update-total :
    (bs : List ℕ)
    → member_update_size ≤ length bs
    → Ends (Left (length bs)) deserialize_member_update bs
unfolding deserialize_member_update
deserialize_member_update-total bs h =
    let P : (MemberUpdate → List ℕ → Type 0) = Left (length bs) in
    number-Ends P 2 _ bs (omega arith) λ node_id r1 l1.
      number-Ends P 1 _ r1 (omega arith) λ node_type r2 l2.
        number-Ends P 1 _ r2 (omega arith) λ status r3 l3.
          bytes-Ends P 16 _ r3 (omega arith) λ ip r4 l4.
            number-Ends P 2 _ r4 (omega arith) λ gossip_port r5 l5.
              number-Ends P 2 _ r5 (omega arith) λ data_port r6 l6.
                number-Ends P 8 _ r6 (omega arith) λ incarnation r7 l7.
                  number-Ends P 8 _ r7 (omega arith)
                    λ timestamp_ms r8 l8. (_, r8, refl, omega arith)

-- How the loop ends: it has read all that were announced, or has met the end and corrected the count.
abbrev pub Counted : ℕ → ℕ → ℕ → ℕ → List MemberUpdate → Type 0
Counted num left i n us =
    ((n ≡ num) × (length us ≡ left)) ⊎ ((n ≡ i + length us) × (length us < left))

abbrev CountedRead : ℕ → ℕ → ℕ → ℕ × List MemberUpdate → List ℕ → Type 0
CountedRead num left i (n, us) rest = Counted num left i n us

deserialize_updates-total :
    (num left i : ℕ) (bs : List ℕ)
    → Ends (CountedRead num left i) (deserialize_updates num left i) bs
unfolding deserialize_updates
deserialize_updates-total num zero i bs = ((num, []), bs, refl, inl (refl, refl))
deserialize_updates-total num (suc left) i bs =
    elim (Bool-cases (ltb (length bs) member_update_size)) [
      | inl short ↦ ((i, []), bs, rw short, inr (omega arith, omega arith))
      | inr room ↦
          let (u, rest, e, l) = deserialize_member_update-total bs (ground arith) in
          let (r, rest', e', c) = deserialize_updates-total num left (i + 1) rest in
          ((r.0, u ∷ r.1), rest', rw room (rw (◌>>=◌, e, e')), widen r.0 u r.1 c)
    ]
  where
    widen :
        (n : ℕ) (u : MemberUpdate) (us : List MemberUpdate)
        → Counted num left (i + 1) n us
        → Counted num (suc left) i n (u ∷ us)
    widen n u us (inl (a, b)) = inl (a, ap suc b)
    widen n u us (inr (a, b)) = inr (omega arith, omega arith)

-- What a message that was accepted has.
abbrev pub Accepted : Option GossipMessage → Type 0
Accepted none = Unit
Accepted (some m) =
    (m.version ≡ 1)
    × (length m.updates ≤ max_piggyback_updates)
    × ((m.num_updates ≡ length m.updates)
        ⊎ ((length m.updates ≡ max_piggyback_updates) × (max_piggyback_updates < m.num_updates)))

accepted :
    (num n : ℕ) (us : List MemberUpdate)
    → Counted num (min num max_piggyback_updates) 0 n us
    → (length us ≤ max_piggyback_updates)
      × ((n ≡ length us) ⊎ ((length us ≡ max_piggyback_updates) × (max_piggyback_updates < n)))
accepted num n us (inr (a, b)) = (omega arith, inl (omega arith))
accepted num n us (inl (a, b)) = elim (Bool-cases (ltb max_piggyback_updates num)) [
  | inl many ↦ (omega arith, inr (ground arith, ground arith))
  | inr few ↦ (omega arith, inl (ground arith))
]

abbrev AcceptedRead : Option GossipMessage → List ℕ → Type 0
AcceptedRead m rest = Accepted m

deserialize_body-total : (bs : List ℕ) → 16 ≤ length bs → Ends AcceptedRead deserialize_body bs
unfolding deserialize_body
deserialize_body-total bs h =
    let P : (Option GossipMessage → List ℕ → Type 0) = AcceptedRead in
    number-Ends P 1 _ bs (omega arith) λ version r1 l1.
      number-Ends P 1 _ r1 (omega arith) λ msg_type r2 l2. elim (Bool-cases (version == 1)) [
        | inr other ↦ rw other (none, r2, refl, tt)
        | inl current ↦ rw current (
            number-Ends P 2 _ r2 (omega arith) λ flags r3 l3.
              number-Ends P 2 _ r3 (omega arith) λ sender_id r4 l4.
                number-Ends P 8 _ r4 (omega arith) λ sequence_num r5 l5.
                  number-Ends P 1 _ r5 (omega arith) λ num r6 l6.
                    number-Ends P 1 _ r6 (omega arith) λ padding r7 l7.
                      then-Ends P (CountedRead num (min num max_piggyback_updates) 0)
                        (deserialize_updates num (min num max_piggyback_updates) 0) _ r7
                        (deserialize_updates-total num (min num max_piggyback_updates) 0 r7)
                        λ r r8 c.
                          let a = accepted num r.0 r.1 c in
                          (some _, r8, refl, ((==_iff version 1).0 current, a.0, a.1)))
      ]

-- On any bytes `gossip_message_deserialize` returns without reading past the end of the buffer.
-- What it accepts has version 1, at most ten updates, and `num_updates` is their number, or there
-- are ten of them and `num_updates` is larger.
pub deserialize-total :
    (buffer : List ℕ) → (r : Option GossipMessage) × (deserialize buffer ≡ some r) × Accepted r
unfolding deserialize
deserialize-total buffer = elim (Bool-cases (ltb (length buffer) 16)) [
  | inl short ↦ (none, rw short, tt)
  | inr long ↦
      let (r, rest, e, a) = deserialize_body-total buffer (ground arith) in (r, rw (long, e), a)
]
