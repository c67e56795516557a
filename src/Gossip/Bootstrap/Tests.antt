-- ===== src/Gossip/Bootstrap/Tests.antt =====
-- A run of src/cluster/gossip_protocol.c on a bootstrap response with one router.
use roole.Base.{ℕ, ◌≡◌, refl, some, List, [], ◌∷◌, ◌++◌, arith, length}
use roole.Gossip.Bootstrap.{BootstrapResponse, serialize, deserialize}
use roole.Gossip.Bootstrap.RoundTrip.{deserialize_bootstrap-serialize}

-- Router 1 at "1:7" and "1:8".
abbrev one_router : BootstrapResponse
one_router = record {
  num_routers = 1;
  routers =
      record { node_id = 1; gossip_addr = 49 ∷ 58 ∷ 55 ∷ []; data_addr = 49 ∷ 58 ∷ 56 ∷ [] } ∷ [];
}

deserialize_bootstrap-serialize_example :
    (buffer : List ℕ) × (serialize one_router 1384 ≡ some buffer)
    × (length buffer ≡ 131)
    × (deserialize (buffer ++ 9 ∷ []) ≡ some (some one_router))
deserialize_bootstrap-serialize_example =
    deserialize_bootstrap-serialize one_router 1384 (9 ∷ []) refl (omega arith)
      (
        record {
          id_word = omega arith;
          gossip_fits = omega arith;
          gossip_text = (
            (omega arith, omega arith),
            ((omega arith, omega arith), ((omega arith, omega arith), tt)),
          );
          data_fits = omega arith;
          data_text = (
            (omega arith, omega arith),
            ((omega arith, omega arith), ((omega arith, omega arith), tt)),
          );
        },
        tt,
      )
      (omega arith)
