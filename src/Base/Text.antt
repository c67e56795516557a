-- ===== src/Base/Text.antt =====
-- C strings, as the bytes before their end.
use Prim.Native.Nat.{ℕ}
use mathlib.Core.Path.{◌≡◌, refl, ap₂}
use mathlib.Core.Bool.{Bool, true, false, ◌&&◌}
use mathlib.Core.List.{List, [], ◌∷◌}
use native.Mathlib.Omega.{arith}
use roole.Base.Tests.{◌==◌}

-- `strcmp(a, b) == 0`.
abbrev pub eq_text : List ℕ → List ℕ → Bool
eq_text [] [] = true
eq_text [] (y ∷ ys) = false
eq_text (x ∷ xs) [] = false
eq_text (x ∷ xs) (y ∷ ys) = x == y && eq_text xs ys

pub eq_text_refl : (s : List ℕ) → eq_text s s ≡ true
eq_text_refl [] = refl
eq_text_refl (x ∷ xs) = ground (arith, eq_text_refl xs)

pub eq_text_sound : (s t : List ℕ) → eq_text s t ≡ true → s ≡ t
eq_text_sound [] [] e = refl
eq_text_sound [] (y ∷ ys) e = absurd (cc e)
eq_text_sound (x ∷ xs) [] e = absurd (cc e)
eq_text_sound (x ∷ xs) (y ∷ ys) e =
    ap₂ (λ a l. a ∷ l) {y = y} (ground arith) (eq_text_sound xs ys (ground arith))
