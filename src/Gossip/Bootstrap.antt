-- ===== src/Gossip/Bootstrap.antt =====
-- The list of routers that answers a WORKER_JOIN: `gossip_bootstrap_response_t` of
-- include/roole/gossip.h, and the functions of src/cluster/gossip_protocol.c that write and read it.
pub mod RoundTrip
mod Tests
use roole.Base.{
  ℕ, zero, suc, ◌+◌, min, Bool, true, false, Option, none, some, List, [], ◌∷◌, ◌++◌, ◌==◌, ltb,
  if◌then◌else◌, length, get_or, set,
}
use roole.Wire.{Read, ◌>>=◌, ◌>>◌, pure, remaining, bytes, number, encode, padded}

-- One entry of `routers`. The addresses are the bytes before the end of the C strings.
pub record Router : Type 0 where
  pub node_id : ℕ
  pub gossip_addr : List ℕ
  pub data_addr : List ℕ

-- `gossip_bootstrap_response_t`. `routers` is the part of the array that has been written; the rest
-- is zero.
pub record BootstrapResponse : Type 0 where
  pub num_routers : ℕ
  pub routers : List Router

abbrev pub max_config_routers : ℕ
max_config_routers = 16

abbrev pub router_size : ℕ
router_size = 130

abbrev pub blank_router : Router
blank_router = record { node_id = 0; gossip_addr = []; data_addr = [] }

-- The 130 bytes of a router.
pub serialize_router : Router → List ℕ
serialize_router r = encode 2 r.node_id ++ (padded 64 r.gossip_addr ++ padded 64 r.data_addr)

-- The loop of `gossip_serialize_bootstrap_response` from router `i` on, with `left` rounds to go.
pub serialize_routers : ℕ → List Router → ℕ → ℕ → List ℕ → List ℕ
unfolding serialize_router
serialize_routers size routers zero i out = out
serialize_routers size routers (suc left) i out =
    let rest =
      serialize_routers size routers left (i + 1)
        (out ++ serialize_router (get_or routers i blank_router)) in
    if ltb size (length out + router_size) then set out 0 i else rest

-- `gossip_serialize_bootstrap_response`: the bytes written, `none` for -1.
unfoldable pub serialize : BootstrapResponse → ℕ → Option (List ℕ)
unfolding serialize_routers
serialize resp size =
    if ltb size 1
    then none
    else some (
        serialize_routers size resp.routers (min resp.num_routers max_config_routers) 0
          (encode 1 resp.num_routers))

-- What `strncpy` copies of the bytes at a place, at most `n`; `none` is a read past the buffer.
pub text_at : ℕ → List ℕ → Option (List ℕ)
text_at zero bs = some []
text_at (suc n) [] = none
text_at (suc n) (b ∷ bs) =
    let rest : Option (List ℕ) = elim (text_at n bs) [ none ↦ none | some s ↦ some (b ∷ s) ] in
    if b == 0 then some [] else rest

-- The same at the offset, which stays.
abbrev pub peek_text : ℕ → Read (List ℕ)
peek_text n bs = elim (text_at n bs) [ none ↦ none | some s ↦ some (s, bs) ]

-- A field of 64 bytes, copied to an array of 256.
pub read_address : Read (List ℕ)
unfolding text_at
read_address = do address ← peek_text 255; field ← bytes 64; pure address

-- The loop of `gossip_deserialize_bootstrap_response` from router `i` on: `num_routers` after it and
-- the routers read.
pub deserialize_routers : ℕ → ℕ → ℕ → Read (ℕ × List Router)
unfolding read_address
deserialize_routers num zero i = pure (num, [])
deserialize_routers num (suc left) i = do
  room ← remaining
  let more = do
    node_id ← number 2
    gossip_addr ← read_address
    data_addr ← read_address
    (n, rs) ← deserialize_routers num left (i + 1)
    pure (n, record { node_id = node_id; gossip_addr = gossip_addr; data_addr = data_addr } ∷ rs)
  if ltb room router_size then pure (i, []) else more

pub deserialize_body : Read BootstrapResponse
unfolding deserialize_routers
deserialize_body = do
  num ← number 1
  (n, routers) ← deserialize_routers num (min num max_config_routers) 0
  pure (record { num_routers = n; routers = routers })

-- `gossip_deserialize_bootstrap_response`. The outer `none` is a read past the end of the buffer, the
-- inner one is -1.
pub deserialize : List ℕ → Option (Option BootstrapResponse)
unfolding deserialize_body
deserialize buffer =
    if ltb (length buffer) 1
    then some none
    else elim (deserialize_body buffer) [ none ↦ none | some (r, rest) ↦ some (some r) ]
