-- ===== src/PeerPool/Invariant.antt =====
-- The well-formedness of the pool of peers: no id twice, no more entries than the array holds.
use roole.Base.{
  ℕ, ◌≤◌, ◌≡◌, refl, ◌∙◌, inl, inr, List, [], ◌∷◌, arith, length, length-append, leb, Bool-cases,
  Option-cases,
}
use roole.Base.Status.{NodeStatus}
use roole.Table.{find, modify, remove}
use roole.Table.Laws.{length-modify, length-remove}
use roole.Table.Distinct.{IsDistinct, append-IsDistinct, modify-IsDistinct, remove-IsDistinct}
use roole.PeerPool.{
  Peer, PeerPool, Capabilities, peer_id, joined, add, delete, change, update_status, update_load,
  update_capabilities,
}

pub record IsValid {F : Type 0} (pool : PeerPool F) : Type 0 where
  pub distinct : IsDistinct peer_id pool.peers
  pub bounded : length pool.peers ≤ pool.capacity

module _ {F : Type 0} (pool : PeerPool F) (v : IsValid pool) where
  add-IsValid :
      (unloaded : F) (node_id : ℕ) (ip : List ℕ) (gossip_port data_port now : ℕ)
      → IsValid (add unloaded pool node_id ip gossip_port data_port now).1
  unfolding add
  add-IsValid unloaded node_id ip gossip_port data_port now =
      elim (Option-cases (find peer_id node_id pool.peers)) [
        | inr (old, e) ↦ rw (e, add) v
        | inl e ↦
            rw (e, add)
              (elim (Bool-cases (leb pool.capacity (length pool.peers))) [
                | inl full ↦ rw full v
                | inr room ↦ rw room (record {
                  distinct = append-IsDistinct peer_id pool.peers new v.distinct e;
                  bounded = ground (arith, length-append pool.peers (new ∷ []));
                })
              ])
      ]
    where
      new : Peer F
      new = joined unloaded node_id ip gossip_port data_port now

  delete-IsValid : (node_id : ℕ) → IsValid (delete pool node_id).1
  unfolding delete
  delete-IsValid node_id = elim (Option-cases (remove peer_id node_id pool.peers)) [
    | inl e ↦ rw (e, delete) v
    | inr (ps, e) ↦
        rw (e, delete)
          (record {
            distinct = remove-IsDistinct peer_id node_id pool.peers ps v.distinct e;
            bounded = omega (arith, length-remove peer_id node_id pool.peers ps e, v.bounded);
          })
  ]

  change-IsValid :
      (node_id : ℕ) (f : Peer F → Peer F)
      → ((p : Peer F) → (f p).node_id ≡ p.node_id)
      → IsValid (change pool node_id f).1
  unfolding change
  change-IsValid node_id f same = elim (Option-cases (modify peer_id node_id f pool.peers)) [
    | inl e ↦ rw (e, change) v
    | inr (ps, e) ↦
        rw (e, change)
          (record {
            distinct =
                modify-IsDistinct peer_id node_id f pool.peers ps (λ p h. same p ∙ h) v.distinct e;
            bounded = omega (arith, length-modify peer_id node_id f pool.peers ps e, v.bounded);
          })
  ]

-- One call under the pool's lock.
pub data Call (F : Type 0) : Type 0 where
  adds : F → ℕ → List ℕ → ℕ → ℕ → ℕ → Call F
  deletes : ℕ → Call F
  updates_status : ℕ → NodeStatus → ℕ → Call F
  updates_load : ℕ → ℕ → F → ℕ → Call F
  updates_capabilities : ℕ → Capabilities → Call F

module _ {F : Type 0} where
  pub step : PeerPool F → Call F → PeerPool F
  step pool (adds unloaded node_id ip gossip_port data_port now) =
      (add unloaded pool node_id ip gossip_port data_port now).1
  step pool (deletes node_id) = (delete pool node_id).1
  step pool (updates_status node_id status now) = (update_status pool node_id status now).1
  step pool (updates_load node_id execs load now) = (update_load pool node_id execs load now).1
  step pool (updates_capabilities node_id caps) = (update_capabilities pool node_id caps).1

  pub run : PeerPool F → List (Call F) → PeerPool F
  unfolding step
  run pool [] = pool
  run pool (c ∷ cs) = run (step pool c) cs

  step-IsValid : (pool : PeerPool F) (c : Call F) → IsValid pool → IsValid (step pool c)
  unfolding step update_status update_load update_capabilities
  step-IsValid pool (adds unloaded node_id ip gossip_port data_port now) v =
      add-IsValid pool v unloaded node_id ip gossip_port data_port now
  step-IsValid pool (deletes node_id) v = delete-IsValid pool v node_id
  step-IsValid pool (updates_status node_id status now) v =
      change-IsValid pool v node_id _ (λ p. refl)
  step-IsValid pool (updates_load node_id execs load now) v =
      change-IsValid pool v node_id _ (λ p. refl)
  step-IsValid pool (updates_capabilities node_id caps) v =
      change-IsValid pool v node_id _ (λ p. refl)

  -- A pool that lists no peer twice and does not overrun its array stays so through any sequence of
  -- `peer_pool_add`, `peer_pool_remove`, `peer_pool_update_status`, `peer_pool_update_load` and
  -- `peer_pool_update_capabilities`.
  pub pool_run-IsValid :
      (pool : PeerPool F) (cs : List (Call F)) → IsValid pool → IsValid (run pool cs)
  unfolding run
  pool_run-IsValid pool [] v = v
  pool_run-IsValid pool (c ∷ cs) v = pool_run-IsValid (step pool c) cs (step-IsValid pool c v)
