-- ===== src/Slots/Laws.antt =====
-- What the loops over slots do.
use mathlib.Core.Option
use roole.Base.{
  ℕ, ◌≤◌, ◌<◌, ◌≡◌, refl, subst, Bool, true, ◌&&◌, none, some, List, [], ◌∷◌, inl, inr, ◌==◌,
  if◌then◌else◌, arith, length, All, Bool-cases, Option-cases,
}
use roole.Slots.{find, modify, claim, IsDistinct, only_active}

module _ {A : Type 0} (key : A → ℕ) (active : A → Bool) where
  pub length-claim :
      (v : A) (xs ys : List A) → claim key active v xs ≡ some ys → length ys ≡ length xs
  unfolding claim
  length-claim v [] ys e = cc
  length-claim v (x ∷ xs) ys e = elim (Bool-cases (active x)) [
    | inr free ↦ ground (arith, free)
    | inl used ↦ elim (Option-cases (claim key active v xs)) [
      | inl gone ↦ ground (arith, used, gone)
      | inr (zs, got) ↦ ground (arith, used, got, length-claim v xs zs got)
    ]
  ]

  pub length-modify :
      (k : ℕ) (f : A → A) (xs ys : List A)
      → modify key active k f xs ≡ some ys
      → length ys ≡ length xs
  unfolding modify
  length-modify k f [] ys e = cc
  length-modify k f (x ∷ xs) ys e = elim (Bool-cases (active x && key x == k)) [
    | inl hit ↦ ground (arith, hit)
    | inr miss ↦ elim (Option-cases (modify key active k f xs)) [
      | inl gone ↦ ground (arith, miss, gone)
      | inr (zs, got) ↦ ground (arith, miss, got, length-modify k f xs zs got)
    ]
  ]

  pub modify-eq_none :
      (k : ℕ) (f : A → A) (xs : List A)
      → find key active k xs ≡ none
      → modify key active k f xs ≡ none
  unfolding find modify
  modify-eq_none k f [] e = refl
  modify-eq_none k f (x ∷ xs) e = ground (arith, modify-eq_none k f xs)

  pub find_of_modify :
      (k : ℕ) (f : A → A) (xs : List A)
      → modify key active k f xs ≡ none
      → find key active k xs ≡ none
  unfolding find modify
  find_of_modify k f [] e = refl
  find_of_modify k f (x ∷ xs) e = ground (arith, find_of_modify k f xs)

  -- A fresh key in a free slot is found there, and no other key is disturbed.
  pub find-claim :
      (j : ℕ) (v : A) (xs ys : List A)
      → active v ≡ true
      → find key active (key v) xs ≡ none
      → claim key active v xs ≡ some ys
      → find key active j ys ≡ (if key v == j then some v else find key active j xs)
  unfolding find claim
  find-claim j v [] ys on fresh e = cc
  find-claim j v (x ∷ xs) ys on fresh e = elim (Bool-cases (active x)) [
    | inr free ↦ ground (arith, free)
    | inl used ↦ elim (Option-cases (claim key active v xs)) [
      | inl gone ↦ ground (arith, used, gone)
      | inr (zs, got) ↦ ground (arith, used, got, find-claim j v xs zs on (ground arith) got)
    ]
  ]

  pub claim-IsDistinct :
      (v : A) (xs ys : List A)
      → active v ≡ true
      → find key active (key v) xs ≡ none
      → IsDistinct key active xs
      → claim key active v xs ≡ some ys
      → IsDistinct key active ys
  unfolding find claim
  claim-IsDistinct v [] ys on fresh d e = cc
  claim-IsDistinct v (x ∷ xs) ys on fresh d e = elim (Bool-cases (active x)) [
    | inr free ↦
        let same : (v ∷ xs) ≡ ys = ground arith in
        subst (IsDistinct key active) same (ground arith, d.1)
    | inl used ↦ elim (Option-cases (claim key active v xs)) [
      | inl gone ↦ ground (arith, used, gone)
      | inr (zs, got) ↦
          let same : (x ∷ zs) ≡ ys = ground arith in
          let rest : find key active (key v) xs ≡ none = ground arith in
          subst (IsDistinct key active) same (
            ground (arith, d.0, find-claim (key x) v xs zs on rest got),
            claim-IsDistinct v xs zs on rest d.1 got,
          )
    ]
  ]

  -- A change that keeps the key is seen at that key only; a slot made free is not found any more.
  pub find-modify :
      (k j : ℕ) (f : A → A) (xs ys : List A)
      → ((a : A) → key a ≡ k → key (f a) ≡ k)
      → IsDistinct key active xs
      → modify key active k f xs ≡ some ys
      → find key active j ys ≡ (
          if k == j
          then only_active key active (Option.map f (find key active k xs))
          else find key active j xs)
  unfolding find modify
  find-modify k j f [] ys h d e = cc
  find-modify k j f (x ∷ xs) ys h d e = elim (Bool-cases (active x && key x == k)) [
    | inl hit ↦ ground (arith, hit, h x, d.0)
    | inr miss ↦ elim (Option-cases (modify key active k f xs)) [
      | inl gone ↦ ground (arith, miss, gone)
      | inr (zs, got) ↦ ground (arith, miss, got, find-modify k j f xs zs h d.1 got)
    ]
  ]

  pub modify-IsDistinct :
      (k : ℕ) (f : A → A) (xs ys : List A)
      → ((a : A) → key a ≡ k → key (f a) ≡ k)
      → IsDistinct key active xs
      → modify key active k f xs ≡ some ys
      → IsDistinct key active ys
  unfolding modify
  modify-IsDistinct k f [] ys h d e = cc
  modify-IsDistinct k f (x ∷ xs) ys h d e = elim (Bool-cases (active x && key x == k)) [
    | inl hit ↦
        let same : (f x ∷ xs) ≡ ys = ground arith in
        let kept : key (f x) ≡ key x = ground (arith, h x) in
        subst (IsDistinct key active) same (rw kept (ground (arith, d.0)), d.1)
    | inr miss ↦ elim (Option-cases (modify key active k f xs)) [
      | inl gone ↦ ground (arith, miss, gone)
      | inr (zs, got) ↦
          let same : (x ∷ zs) ≡ ys = ground arith in
          subst (IsDistinct key active) same (
            ground (arith, d.0, find-modify k (key x) f xs zs h d.1 got),
            modify-IsDistinct k f xs zs h d.1 got,
          )
    ]
  ]

  pub All-claim {κ} :
      (P : A → Type κ) (v : A) (xs ys : List A)
      → P v
      → All P xs
      → claim key active v xs ≡ some ys
      → All P ys
  unfolding claim
  All-claim P v [] ys pv h e = absurd (cc e)
  All-claim P v (x ∷ xs) ys pv h e = elim (Bool-cases (active x)) [
    | inr free ↦ let same : (v ∷ xs) ≡ ys = ground arith in subst (All P) same (pv, h.1)
    | inl used ↦ elim (Option-cases (claim key active v xs)) [
      | inl gone ↦ absurd (ground (arith, used, gone))
      | inr (zs, got) ↦
          let same : (x ∷ zs) ≡ ys = ground arith in
          subst (All P) same (h.0, All-claim P v xs zs pv h.1 got)
    ]
  ]

  pub All-modify {κ} :
      (P : A → Type κ) (k : ℕ) (f : A → A) (xs ys : List A)
      → ((a : A) → P a → P (f a))
      → All P xs
      → modify key active k f xs ≡ some ys
      → All P ys
  unfolding modify
  All-modify P k f [] ys pf h e = absurd (cc e)
  All-modify P k f (x ∷ xs) ys pf h e = elim (Bool-cases (active x && key x == k)) [
    | inl hit ↦ let same : (f x ∷ xs) ≡ ys = ground arith in subst (All P) same (pf x h.0, h.1)
    | inr miss ↦ elim (Option-cases (modify key active k f xs)) [
      | inl gone ↦ absurd (ground (arith, miss, gone))
      | inr (zs, got) ↦
          let same : (x ∷ zs) ≡ ys = ground arith in
          subst (All P) same (h.0, All-modify P k f xs zs pf h.1 got)
    ]
  ]

  -- A key that no slot has is not found.
  pub find-eq_none :
      (n k : ℕ) (xs : List A) → All (λ a. key a < n) xs → n ≤ k → find key active k xs ≡ none
  unfolding find
  find-eq_none n k [] h le = refl
  find-eq_none n k (x ∷ xs) h le = ground (arith, h.0, find-eq_none n k xs h.1 le)

  -- What is found is active.
  pub active-find : (k : ℕ) (xs : List A) {a : A} → find key active k xs ≡ some a → active a ≡ true
  unfolding find
  active-find k [] e = cc
  active-find k (x ∷ xs) e = elim (Bool-cases (active x && key x == k)) [
    | inl hit ↦ ground (arith, hit)
    | inr miss ↦ active-find k xs (rw miss at e)
  ]

  -- `modify` succeeds only where something is found.
  pub find_of_modify-some :
      (k : ℕ) (f : A → A) (xs ys : List A)
      → modify key active k f xs ≡ some ys
      → (a : A) × (find key active k xs ≡ some a) × (active a ≡ true)
  find_of_modify-some k f xs ys e = elim (Option-cases (find key active k xs)) [
    | inl gone ↦ absurd (cc (e, modify-eq_none k f xs gone))
    | inr (a, got) ↦ (a, got, active-find k xs got)
  ]
