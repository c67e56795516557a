-- ===== src/Table/Laws.antt =====
-- What the loops over a keyed array do, entry by entry.
use mathlib.Core.Option
use roole.Base.{
  ℕ, zero, suc, ◌≡◌, refl, Bool, none, some, List, [], ◌∷◌, ◌++◌, map, inl, inr, ◌==◌,
  if◌then◌else◌, arith, length, take, keep, Bool-cases, Option-cases,
}
use roole.Table.{find, modify, remove, collect}

module _ {A : Type 0} (key : A → ℕ) where
  -- What was found has the key.
  pub key-find : (k : ℕ) (xs : List A) {a : A} → find key k xs ≡ some a → key a ≡ k
  unfolding find
  key-find k [] e = cc
  key-find k (x ∷ xs) e = elim (Bool-cases (key x == k)) [
    | inl hit ↦ ground (arith, hit)
    | inr miss ↦ key-find k xs (rw miss at e)
  ]

  pub find-append :
      (k : ℕ) (xs : List A) (x : A)
      → find key k (xs ++ x ∷ [])
        ≡ elim (find key k xs) [ some a ↦ some a | none ↦ if key x == k then some x else none ]
  unfolding find
  find-append k [] x = refl
  find-append k (y ∷ ys) x = ground (arith, find-append k ys x)

  -- `modify` and `remove` fail exactly where `find` does.
  pub modify-eq_none :
      (k : ℕ) (f : A → A) (xs : List A) → find key k xs ≡ none → modify key k f xs ≡ none
  unfolding find modify
  modify-eq_none k f [] e = refl
  modify-eq_none k f (x ∷ xs) e = ground (arith, modify-eq_none k f xs)

  pub remove-eq_none : (k : ℕ) (xs : List A) → find key k xs ≡ none → remove key k xs ≡ none
  unfolding find remove
  remove-eq_none k [] e = refl
  remove-eq_none k (x ∷ xs) e = ground (arith, remove-eq_none k xs)

  pub find_of_modify :
      (k : ℕ) (f : A → A) (xs : List A) → modify key k f xs ≡ none → find key k xs ≡ none
  unfolding find modify
  find_of_modify k f [] e = refl
  find_of_modify k f (x ∷ xs) e = ground (arith, find_of_modify k f xs)

  pub find_of_remove : (k : ℕ) (xs : List A) → remove key k xs ≡ none → find key k xs ≡ none
  unfolding find remove
  find_of_remove k [] e = refl
  find_of_remove k (x ∷ xs) e = ground (arith, find_of_remove k xs)

  pub length-modify :
      (k : ℕ) (f : A → A) (xs ys : List A) → modify key k f xs ≡ some ys → length ys ≡ length xs
  unfolding modify
  length-modify k f [] ys e = cc
  length-modify k f (x ∷ xs) ys e = elim (Bool-cases (key x == k)) [
    | inl hit ↦ ground (arith, hit)
    | inr miss ↦ elim (Option-cases (modify key k f xs)) [
      | inl gone ↦ ground (arith, miss, gone)
      | inr (zs, got) ↦ ground (arith, miss, got, length-modify k f xs zs got)
    ]
  ]

  pub length-remove :
      (k : ℕ) (xs ys : List A) → remove key k xs ≡ some ys → length xs ≡ suc (length ys)
  unfolding remove
  length-remove k [] ys e = cc
  length-remove k (x ∷ xs) ys e = elim (Bool-cases (key x == k)) [
    | inl hit ↦ ground (arith, hit)
    | inr miss ↦ elim (Option-cases (remove key k xs)) [
      | inl gone ↦ ground (arith, miss, gone)
      | inr (zs, got) ↦ ground (arith, miss, got, length-remove k xs zs got)
    ]
  ]

  -- A change that keeps the key is seen at that key only.
  pub find-modify :
      (k j : ℕ) (f : A → A) (xs ys : List A)
      → ((a : A) → key a ≡ k → key (f a) ≡ k)
      → modify key k f xs ≡ some ys
      → find key j ys ≡ (if k == j then Option.map f (find key k xs) else find key j xs)
  unfolding find modify
  find-modify k j f [] ys h e = cc
  find-modify k j f (x ∷ xs) ys h e = elim (Bool-cases (key x == k)) [
    | inl hit ↦ ground (arith, hit, h x)
    | inr miss ↦ elim (Option-cases (modify key k f xs)) [
      | inl gone ↦ ground (arith, miss, gone)
      | inr (zs, got) ↦ ground (arith, miss, got, find-modify k j f xs zs h got)
    ]
  ]

  -- The collecting loop lists the keys that pass, the first `n` of them.
  pub collect-eq-take :
      (p : A → Bool) (n : ℕ) (xs : List A) → collect key p n xs ≡ take n (map key (keep p xs))
  unfolding collect
  collect-eq-take p zero xs = refl
  collect-eq-take p (suc n) [] = refl
  collect-eq-take p (suc n) (x ∷ xs) =
      ground (arith, collect-eq-take p n xs, collect-eq-take p (suc n) xs)
