-- ===== src/PeerPool/RoundRobin.antt =====
-- `peer_pool_select_round_robin` of src/node/peer_pool.c.
use native.Mathlib.Nat.{mod-lt, mod-add-mod, mod-eq_of_lt, mod-eq-sub-mod}
use roole.Base.{
  ℕ, zero, suc, ◌+◌, ◌-◌, ◌%◌, ◌^◌, ◌≤◌, ◌<◌, ◌≡◌, refl, sym, ap, subst, ◌∙◌, inl, inr, true, false,
  some, List, [], ◌∷◌, ◌==◌, ltb, arith, length, get_elem?, get_elem?_of_lt, get_elem?-lt, All,
  Bool-cases,
}
use roole.PeerPool.{Peer, PeerPool, is_eligible, attempt, select_round_robin}

-- Any position of an array of `n` is reached from `index` in fewer than `n` steps round the array.
reach : (n index i : ℕ) → i < n → (j : ℕ) × (j < n) × ((index + j) % n ≡ i)
reach n index i h =
    let r : ℕ = index % n in
    let below : r < n = mod-lt index (omega arith) in
    elim (Bool-cases (ltb i r)) [
      | inr up ↦
          let ahead : r ≤ i = ground arith in
          (
            i - r,
            omega arith,
            sym (mod-add-mod index n (i - r))
                ∙ ap (λ k. k % n) {y = i} (omega arith)
                ∙ mod-eq_of_lt h,
          )
      | inl down ↦
          let behind : i < r = ground arith in
          (
            i + n - r,
            omega arith,
            sym (mod-add-mod index n (i + n - r))
                ∙ ap (λ k. k % n) {y = i + n} (omega arith)
                ∙ mod-eq-sub-mod {n = i + n} {m = n} (omega arith)
                ∙ ap (λ k. k % n) {y = i} (omega arith)
                ∙ mod-eq_of_lt h,
          )
    ]

All-of :
    {A : Type 0} (P : A → Type 0) (xs : List A)
    → ((i : ℕ) (a : A) → get_elem? xs i ≡ some a → P a)
    → All P xs
All-of P [] h = tt
All-of P (x ∷ xs) h = (h 0 x refl, All-of P xs (λ i a e. h (suc i) a e))

module _ {F : Type 0} (peers : List (Peer F)) where
  -- The peer at an index, round the array.
  abbrev pub At : ℕ → Peer F → Type 0
  At index p = get_elem? peers (index % length peers) ≡ some p

  -- The `n` peers from an index on may not be chosen.
  abbrev pub Skipped : ℕ → ℕ → Type 0
  Skipped index zero = Unit
  Skipped index (suc n) =
      ((p : Peer F) × At index p × (is_eligible p ≡ false)) × Skipped (index + 1) n

  -- The first peer from the index on that may be chosen, with the index after it, or 0 and none.
  pub data Turn (left index : ℕ) : ℕ × ℕ → Type 0 where
    chosen :
        (k : ℕ) (p : Peer F)
        → k < left
        → Skipped index k
        → At (index + k) p
        → is_eligible p ≡ true
        → Turn left index (p.node_id, index + k + 1)
    nobody : Skipped index left → Turn left index (0, index + left)

  attempt-Turn :
      (left index : ℕ)
      → 0 < length peers
      → index + left < 2 ^ 64
      → Turn left index (attempt peers left index)
  unfolding attempt
  attempt-Turn zero index some_peer h = subst (λ k. Turn 0 index (0, k)) (omega arith) (nobody tt)
  attempt-Turn (suc left) index some_peer h =
      let (p, at) = get_elem?_of_lt peers (index % length peers) (mod-lt index some_peer) in
      let next : (index + 1) % 2 ^ 64 ≡ index + 1 = omega arith in
      elim (Bool-cases (is_eligible p)) [
        | inl on ↦
            let step : (p.node_id, index + 1) ≡ attempt peers (suc left) index =
              ground (arith, at, on) in
            subst (Turn (suc left) index) step (here p at on)
        | inr off ↦
            let step : attempt peers left ((index + 1) % 2 ^ 64) ≡ attempt peers (suc left) index =
              ground (arith, at, off) in
            subst (Turn (suc left) index) (ap (attempt peers left) (sym next) ∙ step)
              (later (p, at, off) (attempt-Turn left (index + 1) some_peer (omega arith)))
      ]
    where
      here :
          (p : Peer F)
          → At index p
          → is_eligible p ≡ true
          → Turn (suc left) index (p.node_id, index + 1)
      here p at on =
          subst (λ k. Turn (suc left) index (p.node_id, k)) (omega arith)
            (chosen 0 p (omega arith) tt
              (ap (λ k. get_elem? peers (k % length peers)) (omega arith) ∙ at) on)

      later :
          {r : ℕ × ℕ}
          → ((p : Peer F) × At index p × (is_eligible p ≡ false))
          → Turn left (index + 1) r
          → Turn (suc left) index r
      later first (chosen k p lt skipped at on) =
          subst (λ m. Turn (suc left) index (p.node_id, m)) (omega arith)
            (chosen (suc k) p (omega arith) (first, skipped)
              (ap (λ m. get_elem? peers (m % length peers)) (omega arith) ∙ at) on)
      later first (nobody skipped) =
          subst (λ m. Turn (suc left) index (0, m)) (omega arith) (nobody (first, skipped))

  Skipped-At :
      (n index j : ℕ)
      → j < n
      → Skipped index n
      → (p : Peer F) × At (index + j) p × (is_eligible p ≡ false)
  Skipped-At zero index j h s = absurd (omega arith)
  Skipped-At (suc n) index zero h s =
      (s.0.0, ap (λ k. get_elem? peers (k % length peers)) (omega arith) ∙ s.0.1, s.0.2)
  Skipped-At (suc n) index (suc j) h s =
      let (p, at, off) = Skipped-At n (index + 1) j (omega arith) s.1 in
      (p, ap (λ k. get_elem? peers (k % length peers)) (omega arith) ∙ at, off)

  -- A whole round of peers that may not be chosen is all of them.
  pub Skipped-All :
      (index : ℕ) → Skipped index (length peers) → All (λ p. is_eligible p ≡ false) peers
  Skipped-All index s =
      All-of (λ p. is_eligible p ≡ false) peers
        λ i a e.
          let (j, lt, same) = reach (length peers) index i (get_elem?-lt peers i e) in
          let (p, at, off) = Skipped-At (length peers) index j lt s in
          let one : p ≡ a = ground (arith, at, same, e) in
          subst (λ q. is_eligible q ≡ false) one off

  -- The choice is the next peer that is alive and can execute, round the array, and the index is
  -- moved past it; 0 is returned if no peer is and can.
  pub data Served (index : ℕ) : ℕ × ℕ → Type 0 where
    served :
        (k : ℕ) (p : Peer F)
        → k < length peers
        → Skipped index k
        → At (index + k) p
        → is_eligible p ≡ true
        → Served index (p.node_id, index + k + 1)
    refused : (index' : ℕ) → All (λ p. is_eligible p ≡ false) peers → Served index (0, index')

-- While the index does not wrap around, `peer_pool_select_round_robin` returns the id of the next
-- peer from the index on, round the array, that is alive and can execute, skipping only peers that
-- are not or cannot, and moves the index past it; it returns 0 if no peer of the pool is alive and
-- can execute.
pub select_round_robin_lem :
    {F : Type 0} (pool : PeerPool F) (index : ℕ)
    → index + length pool.peers < 2 ^ 64
    → Served pool.peers index (select_round_robin pool index)
unfolding select_round_robin
select_round_robin_lem {F} pool index h = elim (Bool-cases (length pool.peers == 0)) [
  | inl empty ↦ rw empty (
      refused index (
        All-of (λ p. is_eligible p ≡ false) pool.peers
          (λ i a e.
            let lt : i < length pool.peers = get_elem?-lt pool.peers i e in absurd (ground arith))))
  | inr some_peer ↦
      rw some_peer (turn (attempt-Turn pool.peers (length pool.peers) index (ground arith) h))
]
  where
    turn : {r : ℕ × ℕ} → Turn pool.peers (length pool.peers) index r → Served pool.peers index r
    turn (chosen k p lt skipped at on) = served k p lt skipped at on
    turn (nobody skipped) =
        refused (index + length pool.peers) (Skipped-All pool.peers index skipped)
