-- ===== src/Wire/Laws.antt =====
-- Reading back what was written.
use native.Mathlib.Nat.{pow-suc}
use roole.Base.{
  ℕ, zero, suc, ◌+◌, ◌-◌, ◌*◌, ◌/◌, ◌%◌, ◌^◌, ◌≤◌, ◌<◌, ◌≡◌, refl, sym, ap, ◌∙◌, none, some, List,
  [], ◌∷◌, ◌++◌, arith, true, leb, length, take, take_all, drop, replicate, set, length-append,
  take-append, drop-append, All, length-replicate, length-take, length-drop,
}
use roole.Wire.{encode, decode_from, decode, Read, ◌>>=◌, bytes, number, c_string, padded}

pub length-encode : (n v : ℕ) → length (encode n v) ≡ n
unfolding encode
length-encode zero v = refl
length-encode (suc n) v =
    omega (arith, length-append (encode n (v / 256)) (v % 256 ∷ []), length-encode n (v / 256))

decode_from-snoc :
    (acc : ℕ) (bs : List ℕ) (b : ℕ) → decode_from acc (bs ++ b ∷ []) ≡ decode_from acc bs * 256 + b
unfolding decode_from
decode_from-snoc acc [] b = refl
decode_from-snoc acc (x ∷ bs) b = decode_from-snoc (acc * 256 + x) bs b

pub decode-encode : (n v : ℕ) → v < 256 ^ n → decode (encode n v) ≡ v
unfolding decode encode
decode-encode zero v h = omega arith
decode-encode (suc n) v h =
    decode_from-snoc 0 (encode n (v / 256)) (v % 256)
    ∙ ap (λ k. k * 256 + v % 256) (decode-encode n (v / 256) (omega (arith, pow-suc 256 n)))
    ∙ omega arith

pub bytes-append :
    (n : ℕ) (xs rest : List ℕ) → length xs ≡ n → bytes n (xs ++ rest) ≡ some (xs, rest)
unfolding bytes
bytes-append n xs rest e =
    let here : take n (xs ++ rest) ≡ xs =
      ap (λ k. take k (xs ++ rest)) (sym e) ∙ take-append xs rest in
    let there : drop n (xs ++ rest) ≡ rest =
      ap (λ k. drop k (xs ++ rest)) (sym e) ∙ drop-append xs rest in
    ground (arith, here, there, length-append xs rest)

pub bytes_within : (n : ℕ) (bs : List ℕ) → n ≤ length bs → bytes n bs ≡ some (take n bs, drop n bs)
unfolding bytes
bytes_within n bs h = let inside : leb n (length bs) ≡ true = ground arith in rw inside

pub bytes-eq_none : (n : ℕ) (bs : List ℕ) → length bs < n → bytes n bs ≡ none
unfolding bytes
bytes-eq_none n bs h = ground arith

-- What is left after a read that succeeds.
pub length-bytes :
    (n : ℕ) (bs : List ℕ)
    → n ≤ length bs
    → (a : List ℕ) × (rest : List ℕ) × (bytes n bs ≡ some (a, rest)) × (length rest + n ≡ length bs)
unfolding bytes
length-bytes n bs h = (take n bs, drop n bs, ground arith, omega (arith, length-drop n bs))

pub number-encode :
    (n v : ℕ) (rest : List ℕ) → v < 256 ^ n → number n (encode n v ++ rest) ≡ some (v, rest)
unfolding number
number-encode n v rest h =
    rw (bytes-append n (encode n v) rest (length-encode n v), number)
      (ap (λ k. some (k, rest)) (decode-encode n v h))

pub length-number :
    (n : ℕ) (bs : List ℕ)
    → n ≤ length bs
    → (v : ℕ) × (rest : List ℕ) × (number n bs ≡ some (v, rest)) × (length rest + n ≡ length bs)
unfolding number
length-number n bs h =
    let (a, rest, e, l) = length-bytes n bs h in (decode a, rest, rw (e, number), l)

-- A text of nonzero bytes.
abbrev pub IsText : List ℕ → Type 0
IsText = All (λ b. (0 < b) × (b < 256))

pub c_string-append : (s : List ℕ) (rest : List ℕ) → IsText s → c_string (s ++ 0 ∷ rest) ≡ s
unfolding c_string
c_string-append [] rest h = refl
c_string-append (b ∷ bs) rest h = ground (arith, h.0, c_string-append bs rest h.1)

pub c_string-text : (s : List ℕ) → IsText s → c_string s ≡ s
unfolding c_string
c_string-text [] h = refl
c_string-text (b ∷ bs) h = ground (arith, h.0, c_string-text bs h.1)

pub padded_lem : (n : ℕ) (s : List ℕ) → length s < n → padded n s ≡ s ++ replicate (n - length s) 0
unfolding padded
padded_lem n s h = rw (take_all (n - 1) s (omega arith))

pub length-padded : (n : ℕ) (s : List ℕ) → 0 < n → length (padded n s) ≡ n
unfolding padded
length-padded n s h = omega (
  arith,
  length-append (take (n - 1) s) (replicate (n - length (take (n - 1) s)) 0),
  length-replicate {A = ℕ} (n - length (take (n - 1) s)) 0,
  length-take (n - 1) s,
)

-- The text in a field that was padded, read up to its last byte, which the reader sets to 0.
pub c_string-padded : (n : ℕ) (s : List ℕ) → length s < n → IsText s → c_string (padded n s) ≡ s
c_string-padded n s h t =
    ap c_string
      (padded_lem n s h ∙ ap (λ k. s ++ replicate k 0) {y = suc (n - length s - 1)} (omega arith))
    ∙ c_string-append s (replicate (n - length s - 1) 0) t

-- Setting a byte past the text to 0 does not change it.
pub c_string-set :
    (s rest : List ℕ) (i : ℕ) → IsText s → length s ≤ i → c_string (set (s ++ 0 ∷ rest) i 0) ≡ s
unfolding c_string
c_string-set [] rest zero t h = refl
c_string-set [] rest (suc i) t h = refl
c_string-set (b ∷ bs) rest zero t h = absurd (omega arith)
c_string-set (b ∷ bs) rest (suc i) t h = ground (arith, t.0, c_string-set bs rest i t.1)

-- A read that ends inside the buffer, with what holds of its value and of the bytes left.
abbrev pub Ends : {A : Type 0} → (A → List ℕ → Type 0) → Read A → List ℕ → Type 0
Ends {A} P m bs = (a : A) × (rest : List ℕ) × (m bs ≡ some (a, rest)) × P a rest

module _ {A : Type 0} (P : A → List ℕ → Type 0) where
  -- A number that the bytes left hold is read, and then what follows.
  pub number-Ends :
      (n : ℕ) (f : ℕ → Read A) (bs : List ℕ)
      → n ≤ length bs
      → ((v : ℕ) (rest : List ℕ) → length rest + n ≡ length bs → Ends P (f v) rest)
      → Ends P (number n >>= f) bs
  number-Ends n f bs h next =
      let (v, rest, e, l) = length-number n bs h in
      let (a, rest', e', p) = next v rest l in (a, rest', rw (◌>>=◌, e) e', p)

  pub bytes-Ends :
      (n : ℕ) (f : List ℕ → Read A) (bs : List ℕ)
      → n ≤ length bs
      → ((v : List ℕ) (rest : List ℕ) → length rest + n ≡ length bs → Ends P (f v) rest)
      → Ends P (bytes n >>= f) bs
  bytes-Ends n f bs h next =
      let (v, rest, e, l) = length-bytes n bs h in
      let (a, rest', e', p) = next v rest l in (a, rest', rw (◌>>=◌, e) e', p)

  pub then-Ends :
      {B : Type 0} (Q : B → List ℕ → Type 0) (m : Read B) (f : B → Read A) (bs : List ℕ)
      → Ends Q m bs
      → ((b : B) (rest : List ℕ) → Q b rest → Ends P (f b) rest)
      → Ends P (m >>= f) bs
  then-Ends Q m f bs (b, rest, e, q) next =
      let (a, rest', e', p) = next b rest q in (a, rest', rw (◌>>=◌, e) e', p)
