-- ===== src/Rpc/Stream/Memory.antt =====
-- `process_buffered_data` of src/core/rpc.c where the context of a request cannot be allocated.
use roole.Base.{
  ℕ, ◌-◌, ◌≡◌, ap, ◌∙◌, Bool, true, false, some, List, [], ◌∷◌, ◌++◌, arith, length, suc,
}
use roole.Rpc.{Header}
use roole.Rpc.Stream.{serve, prepend, process_loop, process_buffered_data, no_memory}
use roole.Rpc.Stream.Progress.{loop_no_memory, process_of_loop}
use roole.Rpc.Stream.Framing.{Sent, IsSent, flat, served, first-read, process_loop-first}

module _ (little : Bool) (starts : Header → List ℕ → Bool) (allocates : ℕ → Bool)
    (table : List ℕ) where
  -- Where the context of the first of two requests is allocated and that of the second is not, the
  -- first is served and the buffer is left as it was, so that the next call serves it again.
  pub request_repeated :
      (s t : Sent) (tail : List ℕ)
      → IsSent s
      → IsSent t
      → allocates 0 ≡ true
      → allocates 1 ≡ false
      → let bs = flat little (s ∷ t ∷ []) ++ tail in
        process_buffered_data little starts allocates (some table) bs
        ≡ some (serve little starts allocates table s.header s.payload ∷ [], bs)
  request_repeated s t tail w x free full =
      let bs = flat little (s ∷ t ∷ []) ++ tail in
      let behind = flat little (t ∷ []) ++ tail in
      let (read, payload, rest, size) = first-read little t [] tail x in
      let (read', payload', rest', size') = first-read little s (t ∷ []) tail w in
      let fuel : ℕ = length bs - 1 in
      let second : process_loop little starts allocates table (suc fuel) 1 behind
          ≡ some ([], no_memory) =
        loop_no_memory little starts allocates table fuel 1 behind
          (omega (arith, size, x.announced)) t.header (t.payload ++ tail) read (omega (arith, size))
          full in
      let all : process_loop little starts allocates table (suc (length bs)) 0 bs
          ≡ some (served little starts allocates table s ∷ [], no_memory) =
        process_loop-first little starts allocates table (length bs) 0 s (t ∷ []) tail w free
        ∙ ap
            (λ n.
              prepend (served little starts allocates table s)
                (process_loop little starts allocates table n 1 behind))
            {y = suc fuel} (omega (arith, size', w.announced))
        ∙ ap (prepend (served little starts allocates table s)) second in
      process_of_loop little starts allocates table bs (served little starts allocates table s ∷ [])
        no_memory all
