-- ===== src/PeerPool.antt =====
-- The pool of peers of src/node/peer_pool.c and include/roole/node.h, from which a router chooses
-- the worker of an execution. The functions run under the pool's lock, so each is one step on the
-- state. `now` is what `time_now_ms` returns. `float` and its arithmetic are parameters.
pub mod Invariant
pub mod Lookup
pub mod LeastLoaded
pub mod RoundRobin
mod Tests
use roole.Base.{
  ℕ, zero, suc, ◌+◌, ◌-◌, ◌%◌, ◌^◌, Bool, true, false, not, ◌&&◌, Option, none, some, List, [], ◌∷◌,
  ◌++◌, ◌==◌, ltb, leb, if◌then◌else◌, length, take, get_elem?,
}
use roole.Base.Status.{
  ResultStatus, ok, err_nomem, err_invalid, err_notfound, err_full, NodeType, worker, NodeStatus,
  alive, eq_status,
}
use roole.Table.{find, modify, remove, collect}

-- `node_capabilities_t`.
pub record Capabilities : Type 0 where
  pub has_ingress : ℕ
  pub can_execute : ℕ
  pub can_route : ℕ

abbrev pub max_ip_len : ℕ
max_ip_len = 16

-- `peer_info_t`. The address is the bytes of the C string before its end; `has_channel` says whether
-- `data_channel` is set.
pub record Peer (F : Type 0) : Type 0 where
  pub node_id : ℕ
  pub node_type : NodeType
  pub ip : List ℕ
  pub gossip_port : ℕ
  pub data_port : ℕ
  pub status : NodeStatus
  pub active_executions : ℕ
  pub load_score : F
  pub last_seen_ms : ℕ
  pub has_channel : Bool
  pub capabilities : Capabilities

-- `peer_pool_t`. `count` is the length of the list.
pub record PeerPool (F : Type 0) : Type 0 where
  pub peers : List (Peer F)
  pub capacity : ℕ

module _ {F : Type 0} where
  abbrev pub peer_id : Peer F → ℕ
  peer_id p = p.node_id

  -- `peer_pool_init`. The tests are whether `safe_calloc` and `pthread_mutex_init` succeed.
  abbrev pub init : ℕ → Bool → Bool → ResultStatus × Option (PeerPool F)
  init capacity allocated locked =
      if capacity == 0
      then (err_invalid, none)
      else if allocated
      then if locked
        then (ok, some (record { peers = []; capacity = capacity }))
        else (err_invalid, none)
      else (err_nomem, none)

  -- `peer_pool_destroy`.
  abbrev pub destroy : PeerPool F → PeerPool F
  destroy pool = record { peers = []; capacity = 0 }

  -- The entry that `peer_pool_add` writes; `unloaded` is 0.0.
  abbrev pub joined : F → ℕ → List ℕ → ℕ → ℕ → ℕ → Peer F
  joined unloaded node_id ip gossip_port data_port now = record {
    node_id = node_id;
    node_type = worker;
    ip = take (max_ip_len - 1) ip;
    gossip_port = gossip_port;
    data_port = data_port;
    status = alive;
    active_executions = 0;
    load_score = unloaded;
    last_seen_ms = now;
    has_channel = false;
    capabilities = record { has_ingress = 0; can_execute = 1; can_route = 1 };
  }

  -- `peer_pool_add`.
  pub add : F → PeerPool F → ℕ → List ℕ → ℕ → ℕ → ℕ → ResultStatus × PeerPool F
  add unloaded pool node_id ip gossip_port data_port now = elim (find peer_id node_id pool.peers) [
    | some old ↦ (ok, pool)
    | none ↦ if leb pool.capacity (length pool.peers) then (err_full, pool) else (
      ok,
      record pool {
        peers = pool.peers ++ joined unloaded node_id ip gossip_port data_port now ∷ [];
      },
    )
  ]

  -- `peer_pool_remove`.
  pub delete : PeerPool F → ℕ → ResultStatus × PeerPool F
  delete pool node_id = elim (remove peer_id node_id pool.peers) [
    | some peers ↦ (ok, record pool { peers = peers })
    | none ↦ (err_notfound, pool)
  ]

  -- The loop of the three functions that follow.
  pub change : PeerPool F → ℕ → (Peer F → Peer F) → ResultStatus × PeerPool F
  change pool node_id f = elim (modify peer_id node_id f pool.peers) [
    | some peers ↦ (ok, record pool { peers = peers })
    | none ↦ (err_notfound, pool)
  ]

  -- `peer_pool_update_status`.
  pub update_status : PeerPool F → ℕ → NodeStatus → ℕ → ResultStatus × PeerPool F
  unfolding change
  update_status pool node_id status now =
      change pool node_id (λ p. record p { status = status; last_seen_ms = now })

  -- `peer_pool_update_load`.
  pub update_load : PeerPool F → ℕ → ℕ → F → ℕ → ResultStatus × PeerPool F
  unfolding change
  update_load pool node_id active_execs load_score now = change pool node_id (λ p. record p {
    active_executions = active_execs;
    load_score = load_score;
    last_seen_ms = now;
  })

  -- `peer_pool_update_capabilities`.
  pub update_capabilities : PeerPool F → ℕ → Capabilities → ResultStatus × PeerPool F
  unfolding change
  update_capabilities pool node_id caps =
      change pool node_id (λ p. record p { capabilities = caps })

  -- `peer_pool_get`, the entry as it is while the caller holds the lock.
  pub get : PeerPool F → ℕ → Option (Peer F)
  get pool node_id = find peer_id node_id pool.peers

  -- `peer_pool_list_alive`.
  pub list_alive : PeerPool F → ℕ → List ℕ
  list_alive pool max_count = collect peer_id (λ p. eq_status p.status alive) max_count pool.peers

  -- `peer_pool_list_by_capability`.
  pub list_by_capability : PeerPool F → ℕ → ℕ → List ℕ
  list_by_capability pool can_execute max_count =
      collect peer_id (λ p. eq_status p.status alive && p.capabilities.can_execute == can_execute)
        max_count pool.peers

  -- The peers that may be given an execution.
  abbrev pub is_eligible : Peer F → Bool
  is_eligible p = eq_status p.status alive && not (p.capabilities.can_execute == 0)

  -- The loop of `peer_pool_select_round_robin` with so many attempts left, from an index on: the
  -- choice and the index afterwards. An index outside the array would give nothing.
  pub attempt : List (Peer F) → ℕ → ℕ → ℕ × ℕ
  attempt peers zero index = (0, index)
  attempt peers (suc left) index =
      let later = attempt peers left ((index + 1) % 2 ^ 64) in
      elim (get_elem? peers (index % length peers)) [
        | none ↦ (0, index)
        | some p ↦ if is_eligible p then (p.node_id, (index + 1) % 2 ^ 64) else later
      ]

  -- `peer_pool_select_round_robin`, with `g_round_robin_index`.
  pub select_round_robin : PeerPool F → ℕ → ℕ × ℕ
  unfolding attempt
  select_round_robin pool index =
      if length pool.peers == 0 then (0, index) else attempt pool.peers (length pool.peers) index

  module _ (score : ℕ → F → F) (less : F → F → Bool) where
    abbrev pub score_of : Peer F → F
    score_of p = score p.active_executions p.load_score

    -- The loop of `peer_pool_select_least_loaded`: the best peer and score so far.
    pub least : List (Peer F) → ℕ → F → ℕ
    least [] best_peer best_score = best_peer
    least (p ∷ ps) best_peer best_score =
        let better = least ps p.node_id (score_of p) in
        let same = least ps best_peer best_score in
        if is_eligible p && less (score_of p) best_score then better else same

    -- `peer_pool_select_least_loaded`; `limit` is 1e9.
    pub select_least_loaded : F → PeerPool F → ℕ
    unfolding least
    select_least_loaded limit pool = least pool.peers 0 limit
