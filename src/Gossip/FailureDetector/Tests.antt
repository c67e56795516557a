-- ===== src/Gossip/FailureDetector/Tests.antt =====
-- A run of the failure detector of src/cluster/gossip_engine.c with one overdue acknowledgement.
use roole.Base.{◌≡◌, refl, true, false, [], ◌∷◌, any, if◌then◌else◌, arith, map}
use roole.Base.Status.{worker, router, alive}
use roole.Table.{find}
use roole.ClusterView
use roole.ClusterView.{ClusterView, ClusterMember}
use roole.ClusterView.Invariant.{IsValid}
use roole.Gossip.UpdateQueue.{init}
use roole.Gossip.Engine.{Engine, gossip_default_config}
use roole.Gossip.FailureDetector.{deactivate, is_overdue, check_ack_timeouts}
use roole.Gossip.FailureDetector.Timeouts.{suspected, misses, check_ack_timeouts_lem}

abbrev pinged : ClusterMember
pinged = record {
  node_id = 7;
  node_type = worker;
  ip_address = 49 ∷ [];
  gossip_port = 7000;
  data_port = 8000;
  status = alive;
  last_seen_ms = 10;
  incarnation = 5;
}

-- Node 7 was pinged at 100 and again at 900.
abbrev waits_for_7 : Engine
waits_for_7 = record {
  my_id = 1;
  my_type = router;
  my_ip = 48 ∷ [];
  gossip_port = 7001;
  data_port = 8001;
  incarnation = 0;
  sequence_num = 0;
  config = gossip_default_config;
  has_callback = false;
  events = [];
  sent = [];
  acks =
      record { target_node = 7; ping_sent_ms = 100; active = true }
      ∷ record { target_node = 7; ping_sent_ms = 900; active = true }
      ∷ [];
  cluster_view = record { members = pinged ∷ []; capacity = 4 };
  update_queue = init;
}

pinged-IsValid : IsValid waits_for_7.cluster_view
unfolding find
pinged-IsValid = record { distinct = (refl, tt); bounded = omega arith }

check_ack_timeouts_lem_example :
    let engine' = check_ack_timeouts waits_for_7 1000 in
    IsValid engine'.cluster_view
    × (engine'.acks ≡ map (λ a. if is_overdue 500 1000 a then deactivate a else a) waits_for_7.acks)
    × (ClusterView.get engine'.cluster_view 7 ≡ (
        if any (misses 500 1000 7) waits_for_7.acks
        then suspected 1000 (ClusterView.get waits_for_7.cluster_view 7)
        else ClusterView.get waits_for_7.cluster_view 7))
check_ack_timeouts_lem_example = check_ack_timeouts_lem waits_for_7 1000 7 pinged-IsValid
