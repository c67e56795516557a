-- ===== src/ClusterView/Tests.antt =====
-- Runs of src/cluster/membership.c on a view of three members at most.
use roole.Base.{◌≡◌, ◌≤◌, refl, some, List, [], ◌∷◌, arith, contains}
use roole.Base.Status.{worker, router, alive, suspect, dead, eq_type}
use roole.Table.{find, modify}
use roole.Table.Collect.{passes}
use roole.ClusterView.{
  ClusterView, ClusterMember, get, restate, update_status, list_alive, list_by_type,
}
use roole.ClusterView.Invariant.{
  IsValid, Call, adds, updates, deletes, step, run, cluster_run-IsValid,
}
use roole.ClusterView.Refine.{registry, spec_run, cluster_run_refines}
use roole.ClusterView.Incarnation.{step-incarnation}
use roole.ClusterView.Lists.{is_alive_of, list-exact}

abbrev node_7 : ClusterMember
node_7 = record {
  node_id = 7;
  node_type = worker;
  ip_address = 49 ∷ [];
  gossip_port = 7000;
  data_port = 8000;
  status = alive;
  last_seen_ms = 10;
  incarnation = 5;
}

abbrev node_8 : ClusterMember
node_8 = record node_7 { node_id = 8; status = dead; incarnation = 9 }

abbrev two_nodes : ClusterView
two_nodes = record { members = node_7 ∷ node_8 ∷ []; capacity = 3 }

two_nodes-IsValid : IsValid two_nodes
unfolding find
two_nodes-IsValid = record { distinct = (refl, (refl, tt)); bounded = omega arith }

-- An update that is too old, a removal, a new member and a suspicion.
abbrev calls : List Call
calls =
    adds (record node_7 { incarnation = 2; status = dead }) 20
    ∷ deletes 8
    ∷ adds (record node_7 { node_id = 9; node_type = router }) 30
    ∷ updates 7 suspect 6 40
    ∷ []

cluster_run-IsValid_example : IsValid (run two_nodes calls)
cluster_run-IsValid_example = cluster_run-IsValid two_nodes calls two_nodes-IsValid

cluster_run_refines_example : registry (run two_nodes calls) ≡ spec_run (registry two_nodes) calls
cluster_run_refines_example = cluster_run_refines two_nodes calls two_nodes-IsValid

abbrev node_7_suspected : ClusterMember
node_7_suspected = record node_7 { status = suspect; incarnation = 6; last_seen_ms = 40 }

node_7-get : get two_nodes 7 ≡ some node_7
unfolding get find
node_7-get = refl

node_7_suspected-get : get (step two_nodes (updates 7 suspect 6 40)).1 7 ≡ some node_7_suspected
unfolding get find step update_status modify restate
node_7_suspected-get = refl

step-incarnation_example : node_7.incarnation ≤ node_7_suspected.incarnation
step-incarnation_example =
    step-incarnation two_nodes (updates 7 suspect 6 40) 7 node_7 node_7_suspected two_nodes-IsValid
      node_7-get node_7_suspected-get refl

list-exact_example :
    (contains 8 (list_alive two_nodes worker 2) ≡ passes (is_alive_of worker) (get two_nodes 8))
    × (contains 8 (list_by_type two_nodes worker 2)
        ≡ passes (λ m. eq_type m.node_type worker) (get two_nodes 8))
list-exact_example = list-exact two_nodes worker 2 8 two_nodes-IsValid (omega arith)
