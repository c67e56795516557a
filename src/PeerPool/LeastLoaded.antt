-- ===== src/PeerPool/LeastLoaded.antt =====
-- `peer_pool_select_least_loaded` of src/node/peer_pool.c.
use roole.Base.{
  ℕ, suc, ◌≡◌, refl, ◌⊎◌, inl, inr, Bool, true, false, ◌&&◌, some, List, [], ◌∷◌, arith, get_elem?,
  All, Bool-cases,
}
use roole.PeerPool.{Peer, PeerPool, is_eligible, score_of, least, select_least_loaded}

module _ {F : Type 0} (score : ℕ → F → F) (less : F → F → Bool) where
  -- No peer that may be chosen has a score below a bound.
  abbrev pub NoneBelow : F → List (Peer F) → Type 0
  NoneBelow bound = All (λ p. (is_eligible p && less (score_of score less p) bound) ≡ false)

  -- The result is the best peer so far, if no peer is better, or an eligible peer that is better and
  -- that no peer betters.
  abbrev pub Chosen : List (Peer F) → ℕ → F → ℕ → Type 0
  Chosen ps best_peer best_score id =
      ((id ≡ best_peer) × NoneBelow best_score ps)
      ⊎ ((p : Peer F) × (i : ℕ) × (get_elem? ps i ≡ some p)
          × (id ≡ p.node_id)
          × (is_eligible p ≡ true)
          × (less (score_of score less p) best_score ≡ true)
          × NoneBelow (score_of score less p) ps)

-- The comparison `<` of `float` is irreflexive and transitive, also where a value is not a number.
module _ {F : Type 0} (score : ℕ → F → F) (less : F → F → Bool)
    (irreflexive : (a : F) → less a a ≡ false)
    (transitive : (a b c : F) → less a b ≡ true → less b c ≡ true → less a c ≡ true) where
  not_below_self :
      (p : Peer F) → (is_eligible p && less (score_of score less p) (score_of score less p)) ≡ false
  not_below_self p = ground (arith, irreflexive (score_of score less p))

  -- What a peer betters is not better than the peer.
  not_below_better :
      (p : Peer F) (b : F)
      → less b (score_of score less p) ≡ true
      → (is_eligible p && less (score_of score less p) b) ≡ false
  not_below_better p b h =
      let s : F = score_of score less p in ground (arith, transitive b s b h, irreflexive b)

  -- A peer that is not below a bound is not below what is below the bound.
  not_below_lower :
      (p : Peer F) (b c : F)
      → (is_eligible p && less (score_of score less p) c) ≡ false
      → less b c ≡ true
      → (is_eligible p && less (score_of score less p) b) ≡ false
  not_below_lower p b c h k =
      let s : F = score_of score less p in
      elim (Bool-cases (less s b)) [
        | inr apart ↦ ground (arith, apart)
        | inl lower ↦ ground (arith, lower, transitive s b c lower k)
      ]

  least-Chosen :
      (ps : List (Peer F)) (best_peer : ℕ) (best_score : F)
      → Chosen score less ps best_peer best_score (least score less ps best_peer best_score)
  unfolding least
  least-Chosen [] best_peer best_score = inl (refl, tt)
  least-Chosen (p ∷ ps) best_peer best_score =
      let s : F = score_of score less p in
      elim (Bool-cases (is_eligible p && less s best_score)) [
        | inl better ↦ rw better (elim (least-Chosen ps p.node_id s) [
          | inl (e, all) ↦ inr (p, 0, refl, e, ground arith, ground arith, (not_below_self p, all))
          | inr (r, i, at, e, on, below, all) ↦ inr (
            r,
            suc i,
            at,
            e,
            on,
            transitive (score_of score less r) s best_score below (ground arith),
            (not_below_better p (score_of score less r) below, all),
          )
        ])
        | inr worse ↦ rw worse (elim (least-Chosen ps best_peer best_score) [
          | inl (e, all) ↦ inl (e, (refl, all))
          | inr (r, i, at, e, on, below, all) ↦ inr (
            r,
            suc i,
            at,
            e,
            on,
            below,
            (not_below_lower p (score_of score less r) best_score worse below, all),
          )
        ])
      ]

  -- Where the comparison of scores is irreflexive and transitive, `peer_pool_select_least_loaded`
  -- returns the id of a peer of the pool that is alive, can execute and has a score below the limit,
  -- with no such peer of a lower score; it returns 0 if no such peer has a score below the limit.
  pub select_least_loaded_lem :
      (limit : F) (pool : PeerPool F)
      → Chosen score less pool.peers 0 limit (select_least_loaded score less limit pool)
  unfolding select_least_loaded
  select_least_loaded_lem limit pool = least-Chosen pool.peers 0 limit
