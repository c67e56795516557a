-- ===== src/Rpc/Stream/Framing.antt =====
-- Requests that were written by `rpc_pack_message` one after another, as `process_buffered_data` of
-- src/core/rpc.c finds them in the buffer.
use roole.Base.{
  ℕ, zero, suc, ◌+◌, ◌-◌, ◌%◌, ◌^◌, ◌<◌, ◌≡◌, ap, ap₂, ◌∙◌, ◌⊎◌, inl, inr, Bool, true, Option, some,
  List, [], ◌∷◌, ◌++◌, append_assoc, arith, ltb, length, take, drop, map, All, take-append,
  drop-append, length-append, Bool-cases,
}
use roole.Rpc.{Header, rpc_header_size, pack_header, rpc_pack_message, rpc_unpack_header}
use roole.Rpc.RoundTrip.{IsWire, length-pack_header, unpack-pack}
use roole.Rpc.Stream.{Request, Ending, waits, serve, prepend, process_loop, process_buffered_data}
use roole.Rpc.Stream.Progress.{loop_short, loop_partial, loop_serves, process_of_loop}

-- A request as it was sent.
pub record Sent : Type 0 where
  pub header : Header
  pub payload : List ℕ

-- Its length is the one it announces.
pub record IsSent (s : Sent) : Type 0 where
  pub wire : IsWire s.header
  pub announced : s.header.total_len ≡ rpc_header_size + length s.payload

module _ (little : Bool) where
  -- The bytes of a request.
  abbrev pub packed : Sent → List ℕ
  packed s =
      rpc_pack_message little s.header.sender_id s.header.request_id s.header.type s.header.status
        s.header.func_id s.payload

  packed_lem : (s : Sent) → IsSent s → packed s ≡ pack_header little s.header ++ s.payload
  packed_lem s w =
      ap (λ n. pack_header little (record s.header { total_len = n }) ++ s.payload)
        {x = (rpc_header_size + length s.payload) % 2 ^ 32} {y = s.header.total_len}
        (omega (arith, w.announced, w.wire.length_word))

  -- The bytes of requests, one after another.
  abbrev pub flat : List Sent → List ℕ
  flat [] = []
  flat (s ∷ ss) = packed s ++ flat ss

  -- Bytes that are less than a request: not even a header, or less than the header announces.
  abbrev pub IsPartial : List ℕ → Type 0
  IsPartial bs =
      (length bs < rpc_header_size)
      ⊎ ((h : Header) × (body : List ℕ) × (rpc_unpack_header little bs ≡ some (some h, body))
          × (length bs < h.total_len))

  -- The first of the requests is read, and the others are behind it.
  pub first-read :
      (s : Sent) (ss : List Sent) (tail : List ℕ)
      → IsSent s
      → let rest = flat ss ++ tail in
        let bs = flat (s ∷ ss) ++ tail in
        (rpc_unpack_header little bs ≡ some (some s.header, s.payload ++ rest))
        × (take (s.header.total_len - rpc_header_size) (s.payload ++ rest) ≡ s.payload)
        × (drop (s.header.total_len - rpc_header_size) (s.payload ++ rest) ≡ rest)
        × (length bs ≡ s.header.total_len + length rest)
  first-read s ss tail w =
      let head = pack_header little s.header in
      let rest = flat ss ++ tail in
      let bs = flat (s ∷ ss) ++ tail in
      let twelve : length head ≡ 12 = length-pack_header little s.header in
      let regroup : bs ≡ head ++ (s.payload ++ rest) =
        append_assoc (packed s) (flat ss) tail
        ∙ ap (λ l. l ++ rest) (packed_lem s w)
        ∙ append_assoc head s.payload rest in
      (
        ap (rpc_unpack_header little) regroup
            ∙ unpack-pack little s.header (s.payload ++ rest) w.wire,
        ap (λ n. take n (s.payload ++ rest)) {y = length s.payload} (omega (arith, w.announced))
            ∙ take-append s.payload rest,
        ap (λ n. drop n (s.payload ++ rest)) {y = length s.payload} (omega (arith, w.announced))
            ∙ drop-append s.payload rest,
        ap length regroup
            ∙ omega (
              arith,
              twelve,
              w.announced,
              length-append head (s.payload ++ rest),
              length-append s.payload rest,
            ),
      )

  module _ (starts : Header → List ℕ → Bool) (allocates : ℕ → Bool) (table : List ℕ) where
    abbrev loop : ℕ → ℕ → List ℕ → Option (List Request × Ending)
    loop = process_loop little starts allocates table

    abbrev pub served : Sent → Request
    served s = serve little starts allocates table s.header s.payload

    waits_for_more :
        (fuel i : ℕ) (bs : List ℕ) → IsPartial bs → loop (suc fuel) i bs ≡ some ([], waits bs)
    waits_for_more fuel i bs (inl short) = loop_short little starts allocates table fuel i bs short
    waits_for_more fuel i bs (inr (h, body, e, less)) =
        elim (Bool-cases (ltb (length bs) rpc_header_size)) [
          | inl short ↦ loop_short little starts allocates table fuel i bs (ground arith)
          | inr long ↦
              loop_partial little starts allocates table fuel i bs (ground arith) h body e less
        ]

    pub process_loop-first :
        (fuel i : ℕ) (s : Sent) (ss : List Sent) (tail : List ℕ)
        → IsSent s
        → allocates i ≡ true
        → loop (suc fuel) i (flat (s ∷ ss) ++ tail)
          ≡ prepend (served s) (loop fuel (i + 1) (flat ss ++ tail))
    process_loop-first fuel i s ss tail w free =
        let rest = flat ss ++ tail in
        let (read, payload, behind, size) = first-read s ss tail w in
        loop_serves little starts allocates table fuel i (flat (s ∷ ss) ++ tail)
          (omega (arith, size, w.announced)) s.header (s.payload ++ rest) read (omega (arith, size))
          (omega (arith, size, w.announced, length-append s.payload rest)) free
        ∙ ap₂ (λ l r. prepend (serve little starts allocates table s.header l) r) payload
            (ap (loop fuel (i + 1)) behind)

    process_loop-flat :
        (fuel i : ℕ) (ss : List Sent) (tail : List ℕ)
        → ((k : ℕ) → allocates k ≡ true)
        → length (flat ss ++ tail) < fuel
        → All IsSent ss
        → IsPartial tail
        → loop fuel i (flat ss ++ tail) ≡ some (map served ss, waits tail)
    process_loop-flat Prim.Native.Nat.zero i ss tail free h w p = absurd (omega arith)
    process_loop-flat (suc fuel) i [] tail free h w p = waits_for_more fuel i tail p
    process_loop-flat (suc fuel) i (s ∷ ss) tail free h (w, ws) p =
        let (read, payload, behind, size) = first-read s ss tail w in
        process_loop-first fuel i s ss tail w (free i)
        ∙ ap (prepend (served s))
            (process_loop-flat fuel (i + 1) ss tail free (omega (arith, size, w.announced)) ws p)

    -- Requests in the buffer that were written one after another, each with the length that it
    -- announces and fields in the ranges of their C types, with behind them less than one more
    -- request, are all served, in their order, with the payloads that were sent, and the incomplete
    -- one stays in the buffer, where every context can be allocated.
    pub process_buffered_data-flat :
        (ss : List Sent) (tail : List ℕ)
        → ((k : ℕ) → allocates k ≡ true)
        → All IsSent ss
        → IsPartial tail
        → process_buffered_data little starts allocates (some table) (flat ss ++ tail)
          ≡ some (map (λ s. serve little starts allocates table s.header s.payload) ss, tail)
    process_buffered_data-flat ss tail free w p =
        process_of_loop little starts allocates table (flat ss ++ tail) (map served ss) (waits tail)
          (process_loop-flat (suc (length (flat ss ++ tail))) 0 ss tail free (omega arith) w p)
