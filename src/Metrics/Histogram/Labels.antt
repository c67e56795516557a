-- ===== src/Metrics/Histogram/Labels.antt =====
-- The labels that src/core/metrics.c compares when a histogram is asked for.
use roole.Base.{
  ℕ, suc, ◌≤◌, ◌≡◌, refl, true, some, List, [], ◌∷◌, ◌++◌, arith, length, eq_text_refl,
}
use roole.Metrics.{Label, max_labels_per_metric}
use roole.Metrics.Histogram.{
  Histogram, BucketsType, labels_match, search_histogram, get_or_create_histogram,
}

labels_match-prefix :
    (room : ℕ) (ls more : List Label)
    → length ls ≤ room
    → labels_match room ls (ls ++ more) ≡ some true
unfolding labels_match
labels_match-prefix room [] more h = refl
labels_match-prefix Prim.Native.Nat.zero (l ∷ ls) more h = absurd (omega arith)
labels_match-prefix (suc room) (l ∷ ls) more h =
    rw (eq_text_refl l.name, eq_text_refl l.value) (labels_match-prefix room ls more (omega arith))

-- Where the first histogram of the registry is active and has the name, and its labels begin with
-- those asked for, at most eight, it is the one returned, though it may have more labels.
pub prefix_matched :
    (h : Histogram) (hs : List Histogram) (help : List ℕ) (type : BucketsType)
    (ls more : List Label)
    → h.active ≡ true
    → h.labels ≡ ls ++ more
    → length ls ≤ max_labels_per_metric
    → get_or_create_histogram (h ∷ hs) h.name help type ls ≡ some (some 0, h ∷ hs)
unfolding get_or_create_histogram search_histogram
prefix_matched h hs help type ls more on e few =
    rw (on, eq_text_refl h.name, e, labels_match-prefix max_labels_per_metric ls more few) refl
