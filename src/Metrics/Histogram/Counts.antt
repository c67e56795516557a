-- ===== src/Metrics/Histogram/Counts.antt =====
-- What the counts of a histogram of src/core/metrics.c are after any observations.
use roole.Base.{
  ℕ, zero, suc, ◌+◌, ◌%◌, ◌^◌, ◌<◌, ◌≡◌, refl, sym, ap, ◌∙◌, inl, inr, Bool, false, not, ◌&&◌,
  Option, none, some, List, [], ◌∷◌, arith, ◌==◌, if◌then◌else◌, Bool-cases, Option-cases, length,
  take, keep, any, get_or, length-set, get_or-set_self, get_or-set_ne,
}
use roole.Base.Int.{ℤ}
use roole.Metrics.{search}
use roole.Metrics.Histogram.{Histogram, at_most, raise_at, observe}

unfoldable pub observe_all : Histogram → List ℤ → Histogram
observe_all h [] = h
observe_all h (v ∷ vs) = observe_all (observe h v) vs

-- A value falls in the bucket with the first bound that is not below it.
abbrev pub falls_in : List (Option ℕ) → ℕ → ℤ → Bool
falls_in bounds i v = at_most v (get_or bounds i none) && not (any (at_most v) (take i bounds))

search-falls_in :
    (v : ℤ) (bounds : List (Option ℕ)) (i : ℕ)
    → i < length bounds
    → falls_in bounds i v ≡ elim (search (at_most v) bounds) [ none ↦ false | some j ↦ i == j ]
unfolding search
search-falls_in v [] i h = absurd (omega arith)
search-falls_in v (b ∷ bounds) Prim.Native.Nat.zero h = elim (Bool-cases (at_most v b)) [
  | inl here ↦ rw here refl
  | inr later ↦ elim (Option-cases (search (at_most v) bounds)) [
    | inl gone ↦ rw (later, gone) refl
    | inr (j, got) ↦ rw (later, got) (ground arith)
  ]
]
search-falls_in v (b ∷ bounds) (suc i) h = elim (Bool-cases (at_most v b)) [
  | inl here ↦ ground (arith, here)
  | inr later ↦ elim (Option-cases (search (at_most v) bounds)) [
    | inl gone ↦ ground (arith, later, gone, search-falls_in v bounds i (omega arith))
    | inr (j, got) ↦ ground (arith, later, got, search-falls_in v bounds i (omega arith))
  ]
]

-- One, where a test holds.
abbrev one_if : Bool → ℕ
one_if b = if b then 1 else 0

get-raise_at :
    (counts : List ℕ) (o : Option ℕ) (i : ℕ)
    → i < length counts
    → get_or counts i 0 < 2 ^ 64
    → get_or (raise_at counts o) i 0
      ≡ (get_or counts i 0 + one_if (elim o [ none ↦ false | some j ↦ i == j ])) % 2 ^ 64
get-raise_at counts none i h w = omega (arith, w)
get-raise_at counts (some j) i h w = elim (Bool-cases (i == j)) [
  | inl same ↦ let e : j ≡ i = ground arith in rw (same, e) (get_or-set_self counts i _ 0 h)
  | inr differs ↦
      rw (differs, get_or-set_ne counts {i = j} {j = i} _ 0 (ground arith)) (omega (arith, w))
]

length-raise_at : (counts : List ℕ) (o : Option ℕ) → length (raise_at counts o) ≡ length counts
length-raise_at counts none = refl
length-raise_at counts (some j) = length-set counts j _

-- How many values fall in a bucket.
abbrev pub tally : List (Option ℕ) → ℕ → List ℤ → ℕ
tally bounds i vs = length (keep (falls_in bounds i) vs)

tally_first :
    (bounds : List (Option ℕ)) (i : ℕ) (v : ℤ) (vs : List ℤ)
    → tally bounds i (v ∷ vs) ≡ one_if (falls_in bounds i v) + tally bounds i vs
tally_first bounds i v vs = elim (Bool-cases (falls_in bounds i v)) [
  | inl falls ↦ rw falls (omega arith)
  | inr misses ↦ rw misses (omega arith)
]

-- After any observations, the count of a bucket has grown by the number of values that are not above
-- its bound and above those of all buckets before it, and the count of the histogram by the number of
-- all values, both up to the wrap-around of 64 bits.
pub observe_all_lem :
    (h : Histogram) (vs : List ℤ) (i : ℕ)
    → i < length h.buckets
    → i < length h.bucket_counts
    → get_or h.bucket_counts i 0 < 2 ^ 64
    → h.count < 2 ^ 64
    → let r = observe_all h vs in
      (get_or r.bucket_counts i 0 ≡ (get_or h.bucket_counts i 0 + tally h.buckets i vs) % 2 ^ 64)
      × (r.count ≡ (h.count + length vs) % 2 ^ 64)
unfolding observe_all observe
observe_all_lem h [] i b c w n = (omega (arith, w), omega (arith, n))
observe_all_lem h (v ∷ vs) i b c w n =
    let o = search (at_most v) h.buckets in
    let first = get-raise_at h.bucket_counts o i c w in
    let falls = search-falls_in v h.buckets i b in
    let size = length-raise_at h.bucket_counts o in
    let (bucket, total) =
      observe_all_lem (observe h v) vs i b (omega (arith, size, c)) (omega (arith, first))
        (omega arith) in
    let split = tally_first h.buckets i v vs in
    let step : one_if (elim o [ none ↦ false | some j ↦ i == j ])
        ≡ one_if (falls_in h.buckets i v) =
      ap one_if (sym falls) in
    (bucket ∙ omega (arith, first, split, step), total ∙ omega arith)
