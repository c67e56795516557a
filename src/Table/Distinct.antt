-- ===== src/Table/Distinct.antt =====
-- Keyed arrays without repeated keys.
use roole.Base.{
  ℕ, ◌≡◌, refl, subst, none, some, List, [], ◌∷◌, ◌++◌, inl, inr, ◌==◌, if◌then◌else◌, arith,
  Bool-cases, Option-cases,
}
use roole.Table.{find, modify, remove}
use roole.Table.Laws.{find-modify, find-append}

module _ {A : Type 0} (key : A → ℕ) where
  -- No entry has the key of an earlier one.
  abbrev pub IsDistinct : List A → Type 0
  IsDistinct [] = Unit
  IsDistinct (x ∷ xs) = (find key (key x) xs ≡ none) × IsDistinct xs

  pub append-IsDistinct :
      (xs : List A) (x : A) → IsDistinct xs → find key (key x) xs ≡ none → IsDistinct (xs ++ x ∷ [])
  unfolding find
  append-IsDistinct [] x d e = (refl, tt)
  append-IsDistinct (y ∷ ys) x d e =
      (ground (arith, find-append key (key y) ys x, d.0), append-IsDistinct ys x d.1 (ground arith))

  pub modify-IsDistinct :
      (k : ℕ) (f : A → A) (xs ys : List A)
      → ((a : A) → key a ≡ k → key (f a) ≡ k)
      → IsDistinct xs
      → modify key k f xs ≡ some ys
      → IsDistinct ys
  unfolding modify
  modify-IsDistinct k f [] ys h d e = cc
  modify-IsDistinct k f (x ∷ xs) ys h d e = elim (Bool-cases (key x == k)) [
    | inl hit ↦
        let same : (f x ∷ xs) ≡ ys = ground arith in
        let kept : key (f x) ≡ key x = ground (arith, h x) in
        subst IsDistinct same (rw kept d.0, d.1)
    | inr miss ↦ elim (Option-cases (modify key k f xs)) [
      | inl gone ↦ ground (arith, miss, gone)
      | inr (zs, got) ↦
          let same : (x ∷ zs) ≡ ys = ground arith in
          subst IsDistinct same (
            ground (arith, d.0, miss, find-modify key k (key x) f xs zs h got),
            modify-IsDistinct k f xs zs h d.1 got,
          )
    ]
  ]

  -- Without repeated keys the removed key is gone, and every other entry stays.
  pub find-remove :
      (k j : ℕ) (xs ys : List A)
      → IsDistinct xs
      → remove key k xs ≡ some ys
      → find key j ys ≡ (if k == j then none else find key j xs)
  unfolding find remove
  find-remove k j [] ys d e = cc
  find-remove k j (x ∷ xs) ys d e = elim (Bool-cases (key x == k)) [
    | inl hit ↦ ground (arith, hit, d.0)
    | inr miss ↦ elim (Option-cases (remove key k xs)) [
      | inl gone ↦ ground (arith, miss, gone)
      | inr (zs, got) ↦ ground (arith, miss, got, find-remove k j xs zs d.1 got)
    ]
  ]

  pub remove-IsDistinct :
      (k : ℕ) (xs ys : List A) → IsDistinct xs → remove key k xs ≡ some ys → IsDistinct ys
  unfolding remove
  remove-IsDistinct k [] ys d e = cc
  remove-IsDistinct k (x ∷ xs) ys d e = elim (Bool-cases (key x == k)) [
    | inl hit ↦ let same : xs ≡ ys = ground arith in subst IsDistinct same d.1
    | inr miss ↦ elim (Option-cases (remove key k xs)) [
      | inl gone ↦ ground (arith, miss, gone)
      | inr (zs, got) ↦
          let same : (x ∷ zs) ≡ ys = ground arith in
          subst IsDistinct same (
            ground (arith, find-remove k (key x) xs zs d.1 got, d.0),
            remove-IsDistinct k xs zs d.1 got,
          )
    ]
  ]
