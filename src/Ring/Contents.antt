-- ===== src/Ring/Contents.antt =====
-- What the circular buffer holds, oldest entry first.
use native.Mathlib.Nat.{mod-lt, mod-add-mod, mod-eq_of_lt, mod-eq-sub-mod, mod-mod}
use roole.Base.{
  ℕ, zero, suc, ◌+◌, ◌-◌, ◌%◌, ◌^◌, ◌≤◌, ◌<◌, ◌≡◌, ◌≢◌, refl, sym, ap, ap₂, ◌∙◌, List, [], ◌∷◌,
  ◌++◌, arith, length, get_or, set, length-set, get_or-set_self, get_or-set_ne, inl, inr,
  Bool-cases, ltb,
}
use roole.Ring.{Ring, add_size, put, pull, span, IsValid}

-- Positions less than a whole round apart differ.
mod-ne_of_gap : (cap i m : ℕ) → 0 < m → m < cap → (i + m) % cap ≢ i % cap
mod-ne_of_gap cap i m h k =
    let r : ℕ = i % cap in
    let below : r < cap = mod-lt i (omega arith) in
    let shift : (r + m) % cap ≡ (i + m) % cap = mod-add-mod i cap m in
    elim (Bool-cases (ltb (r + m) cap)) [
      | inl short ↦
          let whole : r + m < cap = ground arith in
          omega (arith, shift, mod-eq_of_lt {n = r + m} {m = cap} whole)
      | inr round ↦
          let over : cap ≤ r + m = ground arith in
          let rest : r + m - cap < cap = omega arith in
          omega (
            arith,
            shift,
            mod-eq-sub-mod {n = r + m} {m = cap} over,
            mod-eq_of_lt {n = r + m - cap} {m = cap} rest,
          )
    ]

module _ {A : Type 0} (cap : ℕ) (blank : A) where
  -- The entries depend on the position within the round only.
  span-mod :
      (slots : List A) (i n : ℕ) → span cap blank slots (i % cap) n ≡ span cap blank slots i n
  span-mod slots i zero = refl
  span-mod slots i (suc n) = ap₂ ◌∷◌ (ap (λ k. get_or slots k blank) (mod-mod i cap)) (
      sym (span-mod slots (i % cap + 1) n)
      ∙ ap (λ k. span cap blank slots k n) (mod-add-mod i cap 1)
      ∙ span-mod slots (i + 1) n)

  span-snoc :
      (slots : List A) (i n : ℕ)
      → span cap blank slots i (suc n)
        ≡ span cap blank slots i n ++ get_or slots ((i + n) % cap) blank ∷ []
  span-snoc slots i zero = ap (λ k. get_or slots (k % cap) blank ∷ []) (omega arith)
  span-snoc slots i (suc n) =
      ap (λ r. get_or slots (i % cap) blank ∷ r)
        (span-snoc slots (i + 1) n
          ∙ ap (λ k. span cap blank slots (i + 1) n ++ get_or slots (k % cap) blank ∷ [])
              (omega arith))

  -- A write past the `n` positions, within the round, is not seen at them.
  span-set :
      (slots : List A) (x : A) (i n e : ℕ)
      → n + e < cap
      → span cap blank (set slots ((i + n + e) % cap) x) i n ≡ span cap blank slots i n
  span-set slots x i zero e h = refl
  span-set slots x i (suc n) e h = ap₂ ◌∷◌ (get_or-set_ne slots x blank apart) (
      ap (λ k. span cap blank (set slots (k % cap) x) (i + 1) n) (omega arith)
      ∙ span-set slots x (i + 1) n e (omega arith))
    where
      apart : (i + suc n + e) % cap ≢ i % cap
      apart = λ same.
          mod-ne_of_gap cap i (suc n + e) (omega arith) (omega arith)
            (ap (λ k. k % cap) (omega arith) ∙ same)

  length-span : (slots : List A) (i n : ℕ) → length (span cap blank slots i n) ≡ n
  length-span slots i zero = refl
  length-span slots i (suc n) = ap suc (length-span slots (i + 1) n)

  -- What the buffer holds, oldest first.
  abbrev pub contents : Ring A → List A
  contents r = span cap blank r.slots r.head r.count

  pub length-contents : (r : Ring A) → length (contents r) ≡ r.count
  length-contents r = length-span r.slots r.head r.count

  no_wrap : (n : ℕ) → cap < 2 ^ 64 → n < cap → add_size n 1 ≡ n + 1
  no_wrap n h k = omega arith

  pub put-IsValid : (r : Ring A) (x : A) → IsValid cap r → r.count < cap → IsValid cap (put cap r x)
  unfolding put
  put-IsValid r x v h = record {
    full_array = length-set r.slots r.tail x ∙ v.full_array;
    nonempty = v.nonempty;
    addressable = v.addressable;
    head_in = v.head_in;
    count_in = omega arith;
    tail_at =
        ap (λ k. k % cap) (no_wrap r.tail v.addressable (rw v.tail_at (mod-lt _ v.nonempty)))
        ∙ ap (λ k. (k + 1) % cap) v.tail_at
        ∙ mod-add-mod (r.head + r.count) cap 1
        ∙ ap (λ k. k % cap) (omega arith);
  }

  pub contents-put :
      (r : Ring A) (x : A)
      → IsValid cap r
      → r.count < cap
      → contents (put cap r x) ≡ contents r ++ x ∷ []
  unfolding put
  contents-put r x v h =
      ap (span cap blank (set r.slots r.tail x) r.head) {y = suc r.count}
        (no_wrap r.count v.addressable h ∙ omega arith)
      ∙ span-snoc (set r.slots r.tail x) r.head r.count
      ∙ ap₂ (λ l y. l ++ y ∷ [])
          (ap (λ k. span cap blank (set r.slots k x) r.head r.count)
              (v.tail_at ∙ ap (λ k. k % cap) (omega arith))
            ∙ span-set r.slots x r.head r.count 0 (omega arith))
          (ap (λ k. get_or (set r.slots r.tail x) k blank) (sym v.tail_at)
            ∙ get_or-set_self r.slots r.tail x blank
                (rw (v.full_array, v.tail_at) (mod-lt _ v.nonempty)))

  pub pull-IsValid : (r : Ring A) → IsValid cap r → 0 < r.count → IsValid cap (pull cap blank r).1
  unfolding pull
  pull-IsValid r v h = record {
    full_array = v.full_array;
    nonempty = v.nonempty;
    addressable = v.addressable;
    head_in = mod-lt _ v.nonempty;
    count_in = omega arith;
    tail_at =
        v.tail_at
        ∙ ap (λ k. k % cap) (omega (arith, no_wrap r.head v.addressable v.head_in))
        ∙ sym (mod-add-mod (add_size r.head 1) cap (r.count - 1));
  }

  pub contents-pull :
      (r : Ring A)
      → IsValid cap r
      → 0 < r.count
      → contents r ≡ (pull cap blank r).0 ∷ contents (pull cap blank r).1
  unfolding pull
  contents-pull r v h =
      ap (span cap blank r.slots r.head) {y = suc (r.count - 1)} (omega arith)
      ∙ ap₂ ◌∷◌ (ap (λ k. get_or r.slots k blank) (mod-eq_of_lt v.head_in)) (
          ap (λ k. span cap blank r.slots k (r.count - 1))
            (sym (no_wrap r.head v.addressable v.head_in))
          ∙ sym (span-mod r.slots (add_size r.head 1) (r.count - 1)))

  pub count-pull : (r : Ring A) → (pull cap blank r).1.count ≡ r.count - 1
  unfolding pull
  count-pull r = refl
