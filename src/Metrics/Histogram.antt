-- ===== src/Metrics/Histogram.antt =====
-- The histograms of src/core/metrics.c. The bounds of the buckets are whole numbers or infinite, so
-- that the comparison of a value with one is exact; an infinite bound is `none`. The array of
-- histograms is a list up to its count.
pub mod Counts
pub mod Labels
use roole.Base.{
  ℕ, zero, suc, ◌+◌, ◌-◌, ◌%◌, ◌^◌, Bool, true, false, ◌&&◌, Option, none, some, List, [], ◌∷◌,
  ◌++◌, leb, ltb, if◌then◌else◌, length, get_or, set, replicate, eq_text,
}
use roole.Base.Int.{ℤ, pos, negsuc}
use roole.Metrics.{
  Label, eq_label, fitted, search, max_metric_name_len, max_metric_help_len, max_labels_per_metric,
  max_metrics_per_registry,
}

-- `histogram_buckets_type_t`.
pub data BucketsType : Type 0 where
  latency_ms latency_us size_bytes custom : BucketsType

abbrev pub histogram_max_buckets : ℕ
histogram_max_buckets = 16

-- `metrics_get_buckets`: the upper bounds up to `count`.
abbrev pub metrics_get_buckets : BucketsType → List (Option ℕ)
metrics_get_buckets latency_ms =
    some 1 ∷ some 5 ∷ some 10 ∷ some 50 ∷ some 100 ∷ some 500 ∷ some 1000 ∷ some 5000 ∷ none ∷ []
metrics_get_buckets latency_us =
    some 100 ∷ some 500 ∷ some 1000 ∷ some 5000 ∷ some 10000 ∷ some 50000 ∷ some 100000 ∷ none ∷ []
metrics_get_buckets size_bytes =
    some 256
    ∷ some 1024
    ∷ some 4096
    ∷ some 16384
    ∷ some 65536
    ∷ some 262144
    ∷ some 1048576
    ∷ some 4194304
    ∷ none
    ∷ []
metrics_get_buckets custom = []

-- `histogram_metric_t`.
pub record Histogram : Type 0 where
  pub name : List ℕ
  pub help : List ℕ
  pub labels : List Label
  pub buckets : List (Option ℕ)
  pub bucket_counts : List ℕ
  pub count : ℕ
  pub sum : ℕ
  pub active : Bool

-- `value <= upper_bound`.
abbrev pub at_most : ℤ → Option ℕ → Bool
at_most v none = true
at_most (pos n) (some bound) = leb n bound
at_most (negsuc n) (some bound) = true

-- A value added to a word of 64 bits; a negative one is extended by its sign.
abbrev pub add_value : ℕ → ℤ → ℕ
add_value sum (pos n) = (sum + n) % 2 ^ 64
add_value sum (negsuc n) = (sum + (2 ^ 64 - (n + 1))) % 2 ^ 64

-- The count of a bucket, raised.
abbrev pub raise_at : List ℕ → Option ℕ → List ℕ
raise_at counts none = counts
raise_at counts (some i) = set counts i ((get_or counts i 0 + 1) % 2 ^ 64)

-- `metrics_histogram_observe`.
unfoldable pub observe : Histogram → ℤ → Histogram
observe h v = record h {
  count = (h.count + 1) % 2 ^ 64;
  sum = add_value h.sum v;
  bucket_counts = raise_at h.bucket_counts (search (at_most v) h.buckets);
}

-- A label that was never written.
abbrev pub blank_label : Label
blank_label = record { name = []; value = [] }

-- The loop that compares the labels asked for with those of a histogram, with `room` entries left in
-- its array; `none` is a read past it.
unfoldable pub labels_match : ℕ → List Label → List Label → Option Bool
labels_match room [] stored = some true
labels_match zero (l ∷ ls) stored = none
labels_match (suc room) (l ∷ ls) [] =
    let rest = labels_match room ls [] in if eq_label blank_label l then rest else some false
labels_match (suc room) (l ∷ ls) (s ∷ stored) =
    let rest = labels_match room ls stored in if eq_label s l then rest else some false

-- A position, one further.
abbrev pub further : Option (Option ℕ) → Option (Option ℕ)
further none = none
further (some none) = some none
further (some (some i)) = some (some (suc i))

-- What the search does after the labels of a histogram were compared.
abbrev pub stop_or_go : Option Bool → Option (Option ℕ) → Option (Option ℕ)
stop_or_go none rest = none
stop_or_go (some true) rest = some (some 0)
stop_or_go (some false) rest = further rest

-- The search for a histogram; the outer `none` is a read past the labels of one.
unfoldable pub search_histogram : List ℕ → List Label → List Histogram → Option (Option ℕ)
search_histogram name labels [] = some none
search_histogram name labels (h ∷ hs) =
    let rest = search_histogram name labels hs in
    if h.active && eq_text h.name name
    then stop_or_go (labels_match max_labels_per_metric labels h.labels) rest
    else further rest

abbrev pub created_histogram : List ℕ → List ℕ → BucketsType → List Label → Histogram
created_histogram name help buckets_type labels = record {
  name = fitted max_metric_name_len name;
  help = fitted max_metric_help_len help;
  labels = labels;
  buckets = metrics_get_buckets buckets_type;
  bucket_counts = replicate histogram_max_buckets 0;
  count = 0;
  sum = 0;
  active = true;
}

-- What follows the search; `none` is an access past the labels.
abbrev pub after_search :
    List Histogram → Histogram → Option (Option ℕ) → Option (Option ℕ × List Histogram)
after_search hs h none = none
after_search hs h (some (some i)) = some (some i, hs)
after_search hs h (some none) =
    if leb max_metrics_per_registry (length hs)
    then some (none, hs)
    else if ltb max_labels_per_metric (length h.labels)
    then none
    else some (some (length hs), hs ++ h ∷ [])

-- `metrics_get_or_create_histogram`.
unfoldable pub get_or_create_histogram :
    List Histogram → List ℕ → List ℕ → BucketsType → List Label → Option (Option ℕ × List Histogram)
get_or_create_histogram hs name help buckets_type labels =
    after_search hs (created_histogram name help buckets_type labels)
      (search_histogram name labels hs)
