-- ===== src/Table.antt =====
-- Arrays of records with a key, in which the first entry with a key is found, changed or removed:
-- the shape that the cluster view, the peer pool and the DAG catalog share. A list holds the
-- entries below `count`; those above are never read.
pub mod Laws
pub mod Distinct
pub mod Collect
use roole.Base.{ℕ, zero, suc, Bool, Option, none, some, List, [], ◌∷◌, ◌==◌, if◌then◌else◌}
use mathlib.Core.Option

module _ {A : Type 0} (key : A → ℕ) where
  -- `for (i < count) if (entries[i].key == k) return &entries[i];`
  unfoldable pub find : ℕ → List A → Option A
  find k [] = none
  find k (x ∷ xs) = if key x == k then some x else find k xs

  -- The first entry with the key is changed; `none` if there is none.
  unfoldable pub modify : ℕ → (A → A) → List A → Option (List A)
  modify k f [] = none
  modify k f (x ∷ xs) =
      if key x == k then some (f x ∷ xs) else Option.map (λ ys. x ∷ ys) (modify k f xs)

  -- The first entry with the key is taken out, and the rest moves down (`memmove`).
  unfoldable pub remove : ℕ → List A → Option (List A)
  remove k [] = none
  remove k (x ∷ xs) = if key x == k then some xs else Option.map (λ ys. x ∷ ys) (remove k xs)

  -- `for (i < count && found < max) if (p(entries[i])) out[found++] = entries[i].key;`, where
  -- `room` is `max - found`.
  unfoldable pub collect : (A → Bool) → ℕ → List A → List ℕ
  collect p zero xs = []
  collect p (suc room) [] = []
  collect p (suc room) (x ∷ xs) = if p x then key x ∷ collect p room xs else collect p (suc room) xs
