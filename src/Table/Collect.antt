-- ===== src/Table/Collect.antt =====
-- Which keys the collecting loop lists.
use roole.Base.{
  ℕ, zero, suc, ◌≤◌, ◌≡◌, refl, Bool, true, false, Option, none, some, List, [], ◌∷◌, arith, length,
  contains,
}
use roole.Table.{find, collect}
use roole.Table.Distinct.{IsDistinct}

-- What is found, if it passes the test.
abbrev pub passes {ℓ} : {A : Type ℓ} → (A → Bool) → Option A → Bool
passes p none = false
passes p (some a) = p a

module _ {A : Type 0} (key : A → ℕ) (p : A → Bool) where
  pub length-collect-le : (n : ℕ) (xs : List A) → length (collect key p n xs) ≤ n
  unfolding collect
  length-collect-le zero xs = omega arith
  length-collect-le (suc n) [] = omega arith
  length-collect-le (suc n) (x ∷ xs) =
      ground (arith, length-collect-le n xs, length-collect-le (suc n) xs)

  -- Only keys whose entry passes are listed.
  pub contains-collect :
      (n k : ℕ) (xs : List A)
      → IsDistinct key xs
      → contains k (collect key p n xs) ≡ true
      → passes p (find key k xs) ≡ true
  unfolding collect find
  contains-collect zero k xs d e = cc
  contains-collect (suc n) k [] d e = cc
  contains-collect (suc n) k (x ∷ xs) d e =
      ground (arith, d.0, contains-collect n k xs d.1, contains-collect (suc n) k xs d.1)

  -- With room for every entry the list is exact.
  pub contains-collect_room :
      (n k : ℕ) (xs : List A)
      → IsDistinct key xs
      → length xs ≤ n
      → contains k (collect key p n xs) ≡ passes p (find key k xs)
  unfolding collect find
  contains-collect_room zero k [] d h = refl
  contains-collect_room zero k (x ∷ xs) d h = absurd (omega arith)
  contains-collect_room (suc n) k [] d h = refl
  contains-collect_room (suc n) k (x ∷ xs) d h =
      ground (arith, contains-collect_room n k xs d.1, contains-collect_room (suc n) k xs d.1)
