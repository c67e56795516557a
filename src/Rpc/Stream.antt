-- ===== src/Rpc/Stream.antt =====
-- The requests on a connection: `process_buffered_data` of src/core/rpc.c. `starts` is whether the
-- handler of a request returns 0, and `allocates` whether the context of the i-th request of a call
-- can be allocated. The handlers' own effects are not modelled.
pub mod Progress
pub mod Framing
pub mod Memory
use roole.Base.{
  ℕ, zero, suc, ◌+◌, ◌-◌, Bool, true, false, Option, none, some, List, [], ◌∷◌, ◌++◌, ltb,
  if◌then◌else◌, length, take, drop, contains,
}
use roole.Wire.{bytes}
use roole.Rpc.{Header, rpc_header_size, rpc_unpack_header}

-- What becomes of a request: its handler starts, or an error is sent at once.
pub data Outcome : Type 0 where
  async_started internal_error func_not_found : Outcome

-- A request with its payload.
pub record Request : Type 0 where
  pub header : Header
  pub payload : List ℕ
  pub outcome : Outcome

-- How the loop ends: it waits for more than the bytes left, drops the buffer at an invalid header, or
-- returns without memory.
pub data Ending : Type 0 where
  waits : List ℕ → Ending
  invalid no_memory : Ending

-- A request before the others.
abbrev pub prepend : Request → Option (List Request × Ending) → Option (List Request × Ending)
prepend r none = none
prepend r (some (requests, ending)) = some (r ∷ requests, ending)

module _ (little : Bool) (starts : Header → List ℕ → Bool) (allocates : ℕ → Bool) where
  -- The search of the service table, given by its function ids, and the call of the handler.
  abbrev pub serve : List ℕ → Header → List ℕ → Request
  serve table h payload = record {
    header = h;
    payload = payload;
    outcome =
        if contains h.func_id table
        then if starts h payload then async_started else internal_error
        else func_not_found;
  }

  -- The loop over the bytes that are not processed yet, the `i`-th request next. The outer `none` is
  -- the end of the fuel or a read past the bytes.
  unfoldable pub process_loop : List ℕ → ℕ → ℕ → List ℕ → Option (List Request × Ending)
  process_loop table zero i bs = none
  process_loop table (suc fuel) i bs =
      let framed : Option (List Request × Ending) = elim (rpc_unpack_header little bs) [
        | none ↦ none
        | some (none, body) ↦ some ([], invalid)
        | some (some h, body) ↦
            if ltb (length bs) h.total_len
            then some ([], waits bs)
            else if allocates i
            then elim (bytes (h.total_len - rpc_header_size) body) [
              | none ↦ none
              | some (payload, behind) ↦
                  prepend (serve table h payload) (process_loop table fuel (i + 1) behind)
            ]
            else some ([], no_memory)
      ] in
      if ltb (length bs) rpc_header_size then some ([], waits bs) else framed

  -- What is left in the buffer.
  abbrev pub left : List ℕ → Ending → List ℕ
  left bs (waits rest) = rest
  left bs invalid = []
  left bs no_memory = bs

  -- `process_buffered_data` on the bytes of the buffer, with the service table if it is set: the
  -- requests served, and the buffer afterwards.
  unfoldable pub process_buffered_data : Option (List ℕ) → List ℕ → Option (List Request × List ℕ)
  process_buffered_data none bs = some ([], [])
  process_buffered_data (some table) bs = elim (process_loop table (suc (length bs)) 0 bs) [
    | none ↦ none
    | some (requests, ending) ↦ some (requests, left bs ending)
  ]
