-- ===== src/Rpc/Stream/Progress.antt =====
-- `process_buffered_data` of src/core/rpc.c ends, whatever the bytes are.
use roole.Base.{
  ℕ, zero, suc, ◌+◌, ◌-◌, ◌≤◌, ◌<◌, ◌≡◌, refl, ap, inl, inr, Bool, true, false, Option, none, some,
  List, [], ◌∷◌, arith, ltb, length, take, drop, Bool-cases, length-drop,
}
use roole.Wire.Laws.{bytes_within, Ends, number-Ends, bytes-Ends}
use roole.Rpc.{Header, rpc_header_size, rpc_unpack_header}
use roole.Rpc.Stream.{
  Request, Ending, waits, invalid, no_memory, prepend, serve, process_loop, left,
  process_buffered_data,
}

-- What a header that was read says.
abbrev Announced : ℕ → Option Header → List ℕ → Type 0
Announced n none rest = Unit
Announced n (some h) rest = (rpc_header_size ≤ h.total_len) × (length rest + rpc_header_size ≡ n)

module _ (little : Bool) where
  -- Twelve bytes are enough for a header.
  pub unpack-total :
      (bs : List ℕ)
      → rpc_header_size ≤ length bs
      → Ends (Announced (length bs)) (rpc_unpack_header little) bs
  unfolding rpc_unpack_header
  unpack-total bs h =
      let P : (Option Header → List ℕ → Type 0) = Announced (length bs) in
      number-Ends P 4 _ bs (omega arith) λ total_len r1 l1.
        number-Ends P 4 _ r1 (omega arith) λ request_id r2 l2.
          bytes-Ends P 2 _ r2 (omega arith) λ sender r3 l3.
            number-Ends P 1 _ r3 (omega arith) λ type_and_status r4 l4.
              number-Ends P 1 _ r4 (omega arith) λ func_id r5 l5.
                elim (Bool-cases (ltb total_len rpc_header_size)) [
                  | inl short ↦ rw short (none, r5, refl, tt)
                  | inr long ↦ rw long (some _, r5, refl, (ground arith, omega arith))
                ]

-- A loop that ends, with what it leaves no longer than what it was given.
abbrev pub Finishes : ℕ → Option (List Request × Ending) → Type 0
Finishes n r =
    (requests : List Request) × (ending : Ending) × (r ≡ some (requests, ending))
    × (elim ending [ waits rest ↦ length rest ≤ n | invalid ↦ Unit | no_memory ↦ Unit ])

module _ (little : Bool) (starts : Header → List ℕ → Bool) (allocates : ℕ → Bool) (table : List ℕ)
    (fuel i : ℕ) (bs : List ℕ) where
  abbrev round : Option (List Request × Ending)
  round = process_loop little starts allocates table (suc fuel) i bs

  pub loop_short : length bs < rpc_header_size → round ≡ some ([], waits bs)
  unfolding process_loop
  loop_short h = let short : ltb (length bs) rpc_header_size ≡ true = ground arith in rw short

  module _ (enough : rpc_header_size ≤ length bs) where
    long : ltb (length bs) rpc_header_size ≡ false
    long = ground arith

    pub loop_invalid :
        (body : List ℕ)
        → rpc_unpack_header little bs ≡ some (none, body)
        → round ≡ some ([], invalid)
    unfolding process_loop
    loop_invalid body e = rw (long, e)

    module _ (h : Header) (body : List ℕ)
        (e : rpc_unpack_header little bs ≡ some (some h, body)) where
      pub loop_partial : length bs < h.total_len → round ≡ some ([], waits bs)
      unfolding process_loop
      loop_partial less =
          let part : ltb (length bs) h.total_len ≡ true = ground arith in rw (long, e, part)

      module _ (whole : h.total_len ≤ length bs) where
        all_there : ltb (length bs) h.total_len ≡ false
        all_there = ground arith

        pub loop_no_memory : allocates i ≡ false → round ≡ some ([], no_memory)
        unfolding process_loop
        loop_no_memory full = rw (long, e, all_there, full)

        -- The payload is in the buffer.
        pub loop_serves :
            length body + rpc_header_size ≡ length bs
            → allocates i ≡ true
            → round
              ≡ prepend
                  (serve little starts allocates table h
                    (take (h.total_len - rpc_header_size) body))
                  (process_loop little starts allocates table fuel
                    (i + 1)
                    (drop (h.total_len - rpc_header_size) body))
        unfolding process_loop
        loop_serves size free =
            let got =
              bytes_within (h.total_len - rpc_header_size) body (omega (arith, size, whole)) in
            rw (long, e, all_there, got, free)

module _ (little : Bool) (starts : Header → List ℕ → Bool) (allocates : ℕ → Bool)
    (table : List ℕ) where
  abbrev loop : ℕ → ℕ → List ℕ → Option (List Request × Ending)
  loop = process_loop little starts allocates table

  prepend-Finishes :
      (r : Request) (m n : ℕ) (res : Option (List Request × Ending))
      → m ≤ n
      → Finishes m res
      → Finishes n (prepend r res)
  prepend-Finishes r m n res le (requests, waits rest, e, h) =
      (r ∷ requests, waits rest, ap (prepend r) e, omega arith)
  prepend-Finishes r m n res le (requests, invalid, e, h) =
      (r ∷ requests, invalid, ap (prepend r) e, tt)
  prepend-Finishes r m n res le (requests, no_memory, e, h) =
      (r ∷ requests, no_memory, ap (prepend r) e, tt)

  -- A round of the loop, where the rounds that follow end.
  round-Finishes :
      (fuel i : ℕ) (bs : List ℕ)
      → rpc_header_size ≤ length bs
      → (header : Option Header) (body : List ℕ) → rpc_unpack_header little bs ≡ some (header, body)
      → Announced (length bs) header body
      → ((rest : List ℕ)
          → length rest < length bs
          → Finishes (length rest) (loop fuel (i + 1) rest))
      → Finishes (length bs) (loop (suc fuel) i bs)
  round-Finishes fuel i bs enough none body e announced later =
      ([], invalid, loop_invalid little starts allocates table fuel i bs enough body e, tt)
  round-Finishes fuel i bs enough (some h) body e announced later =
      elim (Bool-cases (ltb (length bs) h.total_len)) [
        | inl part ↦ (
          [],
          waits bs,
          loop_partial little starts allocates table fuel i bs enough h body e (ground arith),
          omega arith,
        )
        | inr whole ↦
            let there : h.total_len ≤ length bs = ground arith in
            elim (Bool-cases (allocates i)) [
              | inr full ↦ (
                [],
                no_memory,
                loop_no_memory little starts allocates table fuel i bs enough h body e there full,
                tt,
              )
              | inl free ↦
                  let behind = drop (h.total_len - rpc_header_size) body in
                  let fewer : length behind < length bs =
                    omega (arith, announced.1, length-drop (h.total_len - rpc_header_size) body) in
                  rw
                    (loop_serves little starts allocates table fuel i bs enough h body e there
                      announced.1 free)
                    (prepend-Finishes _ (length behind) (length bs) _ (omega (arith, fewer))
                      (later behind fewer))
            ]
      ]

  process_loop-Finishes :
      (fuel i : ℕ) (bs : List ℕ) → length bs < fuel → Finishes (length bs) (loop fuel i bs)
  process_loop-Finishes Prim.Native.Nat.zero i bs h = absurd (omega arith)
  process_loop-Finishes (suc fuel) i bs h = elim (Bool-cases (ltb (length bs) rpc_header_size)) [
    | inl short ↦ (
      [],
      waits bs,
      loop_short little starts allocates table fuel i bs (ground arith),
      omega arith,
    )
    | inr long ↦
        let enough : rpc_header_size ≤ length bs = ground arith in
        let (header, body, e, announced) = unpack-total little bs enough in
        round-Finishes fuel i bs enough header body e announced
          (λ rest fewer. process_loop-Finishes fuel (i + 1) rest (omega (arith, fewer)))
  ]

  -- What the loop does is what the function does.
  pub process_of_loop :
      (bs : List ℕ) (requests : List Request) (ending : Ending)
      → loop (suc (length bs)) 0 bs ≡ some (requests, ending)
      → process_buffered_data little starts allocates (some table) bs
        ≡ some (requests, left little starts allocates bs ending)
  unfolding process_buffered_data
  process_of_loop bs requests ending e = rw (e, process_buffered_data)

  -- Whatever bytes are in the buffer, `process_buffered_data` ends, since each request takes twelve
  -- bytes at least, reads no header and no payload past them, and leaves no more in the buffer than
  -- was there.
  pub process_buffered_data-total :
      (bs : List ℕ)
      → (requests : List Request) × (rest : List ℕ) × (process_buffered_data little starts allocates
            (some table)
            bs
          ≡ some (requests, rest))
        × (length rest ≤ length bs)
  process_buffered_data-total bs =
      ended (process_loop-Finishes (suc (length bs)) 0 bs (omega arith))
    where
      ended :
          Finishes (length bs) (loop (suc (length bs)) 0 bs)
          → (requests : List Request) × (rest : List ℕ) × (process_buffered_data little starts
                allocates
                (some table)
                bs
              ≡ some (requests, rest))
            × (length rest ≤ length bs)
      ended (requests, waits rest, e, h) =
          (requests, rest, process_of_loop bs requests (waits rest) e, h)
      ended (requests, invalid, e, h) =
          (requests, [], process_of_loop bs requests invalid e, omega arith)
      ended (requests, no_memory, e, h) =
          (requests, bs, process_of_loop bs requests no_memory e, omega arith)
