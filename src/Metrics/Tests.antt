-- ===== src/Metrics/Tests.antt =====
-- Runs of src/core/metrics.c.
use roole.Base.{
  ℕ, ◌+◌, ◌-◌, ◌%◌, ◌^◌, ◌≡◌, refl, false, some, List, [], ◌∷◌, arith, ltb, length, get_or,
}
use roole.Base.Int.{ℤ, pos, negsuc}
use roole.Metrics.{Label, Double, Registry, counter, gauge, created, find_or_create_metric, search}
use roole.Metrics.Again.{find_or_create_metric-again}
use roole.Metrics.Histogram.{Histogram, latency_ms, created_histogram}
use roole.Metrics.Histogram.Counts.{observe_all, tally, observe_all_lem}

-- Whole numbers in the place of `double`.
abbrev whole : Double ℕ
whole = record {
  zero = 0;
  one = 1;
  plus = λ a b. a + b;
  minus = λ a b. a - b;
  less = λ a b. ltb a b;
}

abbrev name : List ℕ
name = 114 ∷ 112 ∷ 99 ∷ []

abbrev peer : Label
peer = record { name = 112 ∷ []; value = 55 ∷ [] }

abbrev one_slot : Registry ℕ
one_slot = record {
  metrics = record (created whole [] [] counter []) { active = false } ∷ [];
  count = 0;
}

created_first : (find_or_create_metric whole one_slot name [] counter (peer ∷ [])).0 ≡ some 0
unfolding find_or_create_metric search
created_first = refl

find_or_create_metric-again_example :
    let r = find_or_create_metric whole one_slot name [] counter (peer ∷ []) in
    find_or_create_metric whole r.1 name [] gauge (peer ∷ []) ≡ (some 0, r.1)
find_or_create_metric-again_example =
    find_or_create_metric-again whole name [] [] counter gauge (peer ∷ []) one_slot 0 (omega arith)
      ((omega arith, omega arith), tt) created_first

abbrev latencies : Histogram
latencies = created_histogram name [] latency_ms (peer ∷ [])

abbrev values : List ℤ
values = pos 1 ∷ pos 3 ∷ pos 9000 ∷ negsuc 4 ∷ []

observe_all_lem_example :
    let r = observe_all latencies values in
    (get_or r.bucket_counts 1 0
      ≡ (get_or latencies.bucket_counts 1 0 + tally latencies.buckets 1 values) % 2 ^ 64)
    × (r.count ≡ (latencies.count + length values) % 2 ^ 64)
observe_all_lem_example =
    observe_all_lem latencies values 1 (omega arith) (omega arith) (omega arith) (omega arith)
