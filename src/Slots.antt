-- ===== src/Slots.antt =====
-- Arrays of slots with an `active` flag and a key, as the execution tracker and the table of
-- pending acknowledgements use them: a new entry takes the first free slot.
pub mod Laws
use mathlib.Core.Option
use roole.Base.{
  ℕ, zero, suc, ◌≡◌, Bool, true, false, ◌&&◌, Option, none, some, List, [], ◌∷◌, ◌==◌,
  if◌then◌else◌,
}

module _ {A : Type 0} (key : A → ℕ) (active : A → Bool) where
  -- The first active slot with the key.
  unfoldable pub find : ℕ → List A → Option A
  find k [] = none
  find k (x ∷ xs) = if active x && key x == k then some x else find k xs

  unfoldable pub modify : ℕ → (A → A) → List A → Option (List A)
  modify k f [] = none
  modify k f (x ∷ xs) =
      if active x && key x == k then some (f x ∷ xs) else Option.map (λ ys. x ∷ ys) (modify k f xs)

  -- The first slot that is not active is filled.
  unfoldable pub claim : A → List A → Option (List A)
  claim v [] = none
  claim v (x ∷ xs) = if active x then Option.map (λ ys. x ∷ ys) (claim v xs) else some (v ∷ xs)

  -- No key is active twice.
  abbrev pub IsDistinct : List A → Type 0
  IsDistinct [] = Unit
  IsDistinct (x ∷ xs) = ((if active x then find (key x) xs else none) ≡ none) × IsDistinct xs

  abbrev pub only_active : Option A → Option A
  only_active none = none
  only_active (some a) = if active a then some a else none
