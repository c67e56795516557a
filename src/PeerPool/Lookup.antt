-- ===== src/PeerPool/Lookup.antt =====
-- What `peer_pool_get` of src/node/peer_pool.c answers after each operation.
use mathlib.Core.Option
use roole.Base.{
  ℕ, ◌≡◌, refl, ◌∙◌, inl, inr, none, some, List, arith, length, leb, Option-cases, ◌==◌,
  if◌then◌else◌,
}
use roole.Base.Status.{ResultStatus, ok, err_notfound, err_full, NodeStatus}
use roole.Table.{find, modify, remove}
use roole.Table.Laws.{
  find-append, find-modify, find_of_modify, modify-eq_none, find_of_remove, remove-eq_none,
}
use roole.Table.Distinct.{find-remove}
use roole.PeerPool.{
  Peer, PeerPool, Capabilities, peer_id, joined, add, delete, change, update_status, update_load,
  update_capabilities, get,
}
use roole.PeerPool.Invariant.{IsValid}

module _ {F : Type 0} (pool : PeerPool F) where
  -- `peer_pool_add` returns OK for a known id and no look-up changes; for a new id it returns
  -- FULL and no look-up changes if the array is full, and else OK, the new peer is found under
  -- its id, and every other id is answered as before.
  pub pool_add_lem :
      (unloaded : F) (k : ℕ) (ip : List ℕ) (gossip_port data_port now j : ℕ)
      → let (s, pool') = add unloaded pool k ip gossip_port data_port now in
        let full = leb pool.capacity (length pool.peers) in
        (s ≡ elim (get pool k) [ some old ↦ ok | none ↦ if full then err_full else ok ])
        × (get pool' j ≡ elim (get pool k) [
          | some old ↦ get pool j
          | none ↦
              if full
              then get pool j
              else if k == j
              then some (joined unloaded k ip gossip_port data_port now)
              else get pool j
        ])
  unfolding add get
  pool_add_lem unloaded k ip gossip_port data_port now j =
      elim (Option-cases (find peer_id k pool.peers)) [
        | inr (old, e) ↦ ground (arith, e)
        | inl e ↦ ground (
          arith,
          e,
          find-append peer_id j pool.peers (joined unloaded k ip gossip_port data_port now),
        )
      ]

  -- On a well-formed pool `peer_pool_remove` returns NOTFOUND for an unknown id and else OK, and
  -- afterwards the id is unknown and every other is answered as before.
  pub pool_delete_lem :
      (k j : ℕ)
      → IsValid pool
      → let (s, pool') = delete pool k in
        (s ≡ elim (get pool k) [ none ↦ err_notfound | some old ↦ ok ])
        × (get pool' j ≡ (if k == j then none else get pool j))
  unfolding delete get
  pool_delete_lem k j v = elim (Option-cases (find peer_id k pool.peers)) [
    | inl e ↦ ground (arith, e, remove-eq_none peer_id k pool.peers e)
    | inr (old, e) ↦ elim (Option-cases (remove peer_id k pool.peers)) [
      | inl gone ↦ cc (find_of_remove peer_id k pool.peers gone)
      | inr (ps, got) ↦ ground (arith, e, got, find-remove peer_id k j pool.peers ps v.distinct got)
    ]
  ]

  -- The status of an update, and the answer afterwards.
  abbrev pub Updated : ℕ → (Peer F → Peer F) → ℕ → ResultStatus × PeerPool F → Type 0
  Updated k f j (s, pool') =
      (s ≡ elim (get pool k) [ none ↦ err_notfound | some old ↦ ok ])
      × (get pool' j ≡ (if k == j then Option.map f (get pool k) else get pool j))

  change-Updated :
      (k : ℕ) (f : Peer F → Peer F) (j : ℕ)
      → ((p : Peer F) → (f p).node_id ≡ p.node_id)
      → Updated k f j (change pool k f)
  unfolding change get
  change-Updated k f j same = elim (Option-cases (find peer_id k pool.peers)) [
    | inl e ↦ rw (modify-eq_none peer_id k f pool.peers e, change) (ground (arith, e, missing e))
    | inr (old, e) ↦ elim (Option-cases (modify peer_id k f pool.peers)) [
      | inl gone ↦ cc (find_of_modify peer_id k f pool.peers gone)
      | inr (ps, got) ↦
          rw (got, change)
            (ground (arith, e, find-modify peer_id k j f pool.peers ps (λ p h. same p ∙ h) got))
    ]
  ]
    where
      missing :
          find peer_id k pool.peers ≡ none
          → find peer_id j pool.peers ≡ (
              if k == j
              then Option.map f (find peer_id k pool.peers)
              else find peer_id j pool.peers)
      missing e = ground (arith, e)

  -- `peer_pool_update_status`, `peer_pool_update_load` and `peer_pool_update_capabilities` return
  -- NOTFOUND for an unknown id and else OK; what is found under the id then has the new values,
  -- for the first two also the time `now`, and every other id is answered as before.
  pub pool_update_lem :
      (k : ℕ) (status : NodeStatus) (execs : ℕ) (load : F) (caps : Capabilities) (now j : ℕ)
      → Updated k
          (λ p. record p { status = status; last_seen_ms = now })
          j
          (update_status pool k status now)
        × Updated k
            (λ p. record p { active_executions = execs; load_score = load; last_seen_ms = now })
            j
            (update_load pool k execs load now)
        × Updated k (λ p. record p { capabilities = caps }) j (update_capabilities pool k caps)
  unfolding update_status update_load update_capabilities
  pool_update_lem k status execs load caps now j = (
    change-Updated k _ j (λ p. refl),
    change-Updated k _ j (λ p. refl),
    change-Updated k _ j (λ p. refl),
  )
