-- ===== src/Gossip/Bootstrap/RoundTrip.antt =====
-- Bootstrap responses of src/cluster/gossip_protocol.c, written and then read.
use roole.Base.{
  ℕ, zero, suc, ◌+◌, ◌-◌, ◌*◌, ◌^◌, ◌≤◌, ◌<◌, ◌≡◌, refl, sym, ap, subst₂, ◌∙◌, min, false, some,
  List, [], ◌∷◌, ◌++◌, append_assoc, append-nil, arith, length, get_or, get_or-append,
  length-append, All, ltb, replicate,
}
use roole.Wire.{◌>>=◌, encode, padded}
use roole.Wire.Laws.{length-encode, number-encode, bytes-append, IsText, length-padded, padded_lem}
use roole.Gossip.Bootstrap.{
  Router, BootstrapResponse, max_config_routers, router_size, blank_router, serialize_router,
  serialize_routers, serialize, text_at, read_address, deserialize_routers, deserialize_body,
  deserialize,
}

-- A router whose addresses fit the fields of the message.
pub record IsWire (r : Router) : Type 0 where
  pub id_word : r.node_id < 2 ^ 16
  pub gossip_fits : length r.gossip_addr < 64
  pub gossip_text : IsText r.gossip_addr
  pub data_fits : length r.data_addr < 64
  pub data_text : IsText r.data_addr

text_at-append :
    (n : ℕ) (s rest : List ℕ) → IsText s → length s < n → text_at n (s ++ 0 ∷ rest) ≡ some s
unfolding text_at
text_at-append zero s rest t h = absurd (omega arith)
text_at-append (suc n) [] rest t h = refl
text_at-append (suc n) (b ∷ bs) rest t h =
    ground (arith, t.0, text_at-append n bs rest t.1 (omega arith))

text_at-padded :
    (s rest : List ℕ) → length s < 64 → IsText s → text_at 255 (padded 64 s ++ rest) ≡ some s
text_at-padded s rest h t =
    ap (λ f. text_at 255 (f ++ rest))
      (padded_lem 64 s h ∙ ap (λ k. s ++ replicate k 0) {y = suc (63 - length s)} (omega arith))
    ∙ ap (text_at 255) (append_assoc s (0 ∷ replicate (63 - length s) 0) rest)
    ∙ text_at-append 255 s (replicate (63 - length s) 0 ++ rest) t (omega arith)

read_address-padded :
    (s rest : List ℕ)
    → length s < 64
    → IsText s
    → read_address (padded 64 s ++ rest) ≡ some (s, rest)
unfolding read_address
read_address-padded s rest h t = rw (
  ◌>>=◌,
  text_at-padded s rest h t,
  bytes-append 64 (padded 64 s) rest (length-padded 64 s (omega arith)),
)

length-serialize_router : (r : Router) → length (serialize_router r) ≡ router_size
unfolding serialize_router
length-serialize_router r = omega (
  arith,
  length-append {0} {A = ℕ},
  length-encode,
  length-padded 64 r.gossip_addr,
  length-padded 64 r.data_addr,
)

-- The bytes of routers, one after another.
abbrev pub router_bytes : List Router → List ℕ
router_bytes [] = []
router_bytes (r ∷ rs) = serialize_router r ++ router_bytes rs

length-router_bytes : (rs : List Router) → length (router_bytes rs) ≡ length rs * router_size
length-router_bytes [] = refl
length-router_bytes (r ∷ rs) = omega (
  arith,
  length-append (serialize_router r) (router_bytes rs),
  length-serialize_router r,
  length-router_bytes rs,
)

-- With room for all of them the loop writes the routers one after another.
serialize_routers_lem :
    (size : ℕ) (pre rs : List Router) (out : List ℕ)
    → length out + length rs * router_size ≤ size
    → serialize_routers size (pre ++ rs) (length rs) (length pre) out ≡ out ++ router_bytes rs
unfolding serialize_routers
serialize_routers_lem size pre [] out h = sym (append-nil out)
serialize_routers_lem size pre (r ∷ rs) out h =
    let here : get_or (pre ++ r ∷ rs) (length pre) blank_router ≡ r =
      get_or-append pre r blank_router rs in
    let more : length (out ++ serialize_router r) + length rs * router_size ≤ size =
      omega (arith, length-append out (serialize_router r), length-serialize_router r) in
    let later = serialize_routers_lem size (pre ++ r ∷ []) rs (out ++ serialize_router r) more in
    let fits : ltb size (length out + router_size) ≡ false = ground arith in
    rw (fits, here)
      (subst₂
        (λ l k.
          serialize_routers size l (length rs) k (out ++ serialize_router r)
          ≡ out ++ router_bytes (r ∷ rs))
        (append_assoc pre (r ∷ []) rs) (length-append pre (r ∷ []))
        (later ∙ append_assoc out (serialize_router r) (router_bytes rs)))

deserialize_routers_lem :
    (num i : ℕ) (rs : List Router) (rest : List ℕ)
    → All IsWire rs
    → deserialize_routers num (length rs) i (router_bytes rs ++ rest) ≡ some ((num, rs), rest)
unfolding deserialize_routers serialize_router
deserialize_routers_lem num i [] rest h = refl
deserialize_routers_lem num i (r ∷ rs) rest (w, ws) =
    let room : ltb (length (router_bytes (r ∷ rs) ++ rest)) router_size ≡ false = ground (
      arith,
      length-append (serialize_router r ++ router_bytes rs) rest,
      length-append (serialize_router r) (router_bytes rs),
      length-serialize_router r,
    ) in
    rw room (
      simp append_assoc (
        rw (
          ◌>>=◌,
          number-encode 2 r.node_id _ w.id_word,
          read_address-padded r.gossip_addr _ w.gossip_fits w.gossip_text,
          read_address-padded r.data_addr _ w.data_fits w.data_text,
          deserialize_routers_lem num (i + 1) rs rest ws,
        )))

-- A response with at most sixteen routers whose addresses have less than 64 bytes, written by
-- `gossip_serialize_bootstrap_response` to a buffer with room for all of it, takes a byte and 130
-- for each router, and `gossip_deserialize_bootstrap_response` reads the same response from those
-- bytes, whatever follows them.
pub deserialize_bootstrap-serialize :
    (resp : BootstrapResponse) (size : ℕ) (rest : List ℕ)
    → resp.num_routers ≡ length resp.routers
    → length resp.routers ≤ max_config_routers
    → All IsWire resp.routers
    → 1 + resp.num_routers * router_size ≤ size
    → (buffer : List ℕ) × (serialize resp size ≡ some buffer)
      × (length buffer ≡ 1 + resp.num_routers * router_size)
      × (deserialize (buffer ++ rest) ≡ some (some resp))
unfolding serialize deserialize deserialize_body
deserialize_bootstrap-serialize resp size rest counted few wire room =
    let count : ℕ = resp.num_routers in
    let rounds : min count max_config_routers ≡ length resp.routers = omega arith in
    let buffer : List ℕ = encode 1 count ++ router_bytes resp.routers in
    let wide : ltb size 1 ≡ false = ground arith in
    let written : serialize_routers size resp.routers (length resp.routers) 0 (encode 1 count)
        ≡ buffer =
      serialize_routers_lem size [] resp.routers (encode 1 count)
        (omega (arith, length-encode 1 count)) in
    let long : length buffer ≡ 1 + count * router_size = omega (
      arith,
      length-append (encode 1 count) (router_bytes resp.routers),
      length-encode 1 count,
      length-router_bytes resp.routers,
    ) in
    let some_bytes : ltb (length (buffer ++ rest)) 1 ≡ false =
      ground (arith, long, length-append buffer rest) in
    (
      buffer,
      rw (wide, rounds) (ap some written),
      long,
      rw some_bytes (
          simp append_assoc (
            rw (
              ◌>>=◌,
              number-encode 1 count _ (omega arith),
              rounds,
              deserialize_routers_lem count 0 resp.routers rest wire,
            ))),
    )
