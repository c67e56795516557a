-- ===== src/PeerPool/Tests.antt =====
-- Runs of src/node/peer_pool.c on a pool of three peers, with natural numbers as scores.
use roole.Base.{ℕ, ◌+◌, ◌*◌, ◌≡◌, true, false, [], ◌∷◌, ltb, arith}
use roole.Base.Status.{worker, alive, suspect}
use roole.PeerPool.{Peer, PeerPool, Capabilities, select_least_loaded, select_round_robin}
use roole.PeerPool.LeastLoaded.{Chosen, select_least_loaded_lem}
use roole.PeerPool.RoundRobin.{Served, select_round_robin_lem}

abbrev executes : Capabilities
executes = record { has_ingress = 0; can_execute = 1; can_route = 1 }

abbrev peer_7 : Peer ℕ
peer_7 = record {
  node_id = 7;
  node_type = worker;
  ip = 49 ∷ [];
  gossip_port = 7000;
  data_port = 8000;
  status = alive;
  active_executions = 5;
  load_score = 1;
  last_seen_ms = 10;
  has_channel = false;
  capabilities = executes;
}

abbrev peer_8 : Peer ℕ
peer_8 = record peer_7 { node_id = 8; active_executions = 2 }

abbrev peer_9 : Peer ℕ
peer_9 = record peer_7 { node_id = 9; status = suspect; active_executions = 0 }

abbrev three_peers : PeerPool ℕ
three_peers = record { peers = peer_7 ∷ peer_8 ∷ peer_9 ∷ []; capacity = 4 }

abbrev weigh : ℕ → ℕ → ℕ
weigh executions load = executions + load * 10

ltb-irreflexive : (a : ℕ) → ltb a a ≡ false
ltb-irreflexive a = ground arith

ltb-transitive : (a b c : ℕ) → ltb a b ≡ true → ltb b c ≡ true → ltb a c ≡ true
ltb-transitive a b c h k = ground arith

select_least_loaded_lem_example :
    Chosen weigh ltb three_peers.peers 0 1000000000
      (select_least_loaded weigh ltb 1000000000 three_peers)
select_least_loaded_lem_example =
    select_least_loaded_lem weigh ltb ltb-irreflexive ltb-transitive 1000000000 three_peers

-- From the third place, which is skipped.
select_round_robin_lem_example : Served three_peers.peers 5 (select_round_robin three_peers 5)
select_round_robin_lem_example = select_round_robin_lem three_peers 5 (omega arith)
