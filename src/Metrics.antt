-- ===== src/Metrics.antt =====
-- The counters and gauges of src/core/metrics.c and include/roole/metrics.h. A call holds the lock of
-- the registry, or of the metric, throughout, so it is one step. A pointer to a metric is its
-- position in the array. `double` is a type with the operations that the code uses.
pub mod Again
pub mod Histogram
mod Tests
use roole.Base.{
  ℕ, suc, ◌+◌, ◌-◌, Bool, true, false, not, ◌&&◌, Option, none, some, List, [], ◌∷◌, ◌==◌, leb, ltb,
  if◌then◌else◌, length, map, set, take, replicate, eq_text,
}

-- `metric_type_t`.
pub data MetricType : Type 0 where
  counter gauge : MetricType

-- `metric_label_t`.
pub record Label : Type 0 where
  pub name : List ℕ
  pub value : List ℕ

abbrev pub max_metric_name_len : ℕ
max_metric_name_len = 128

abbrev pub max_metric_help_len : ℕ
max_metric_help_len = 256

abbrev pub max_metrics_per_registry : ℕ
max_metrics_per_registry = 256

abbrev pub max_label_name_len : ℕ
max_label_name_len = 64

abbrev pub max_label_value_len : ℕ
max_label_value_len = 128

abbrev pub max_labels_per_metric : ℕ
max_labels_per_metric = 8

-- What `safe_strncpy` keeps of a string.
abbrev pub fitted : ℕ → List ℕ → List ℕ
fitted size s = take (size - 1) s

abbrev pub fitted_label : Label → Label
fitted_label l = record {
  name = fitted max_label_name_len l.name;
  value = fitted max_label_value_len l.value;
}

abbrev pub eq_label : Label → Label → Bool
eq_label a b = eq_text a.name b.name && eq_text a.value b.value

-- The labels of a metric are as many as those asked for, and the same.
abbrev pub eq_labels : List Label → List Label → Bool
eq_labels [] [] = true
eq_labels [] (b ∷ bs) = false
eq_labels (a ∷ rest) [] = false
eq_labels (a ∷ rest) (b ∷ bs) = eq_label a b && eq_labels rest bs

-- The first position whose entry passes a test.
unfoldable pub search {ℓ} : {A : Type ℓ} → (A → Bool) → List A → Option ℕ
search p [] = none
search p (x ∷ xs) =
    let rest = search p xs in
    if p x then some 0 else elim rest [ none ↦ none | some i ↦ some (suc i) ]

-- `metrics_t`.
pub record Metric (F : Type 0) : Type 0 where
  pub name : List ℕ
  pub help : List ℕ
  pub type : MetricType
  pub labels : List Label
  pub value : F
  pub active : Bool

-- The part of `metrics_registry_t` for counters and gauges.
pub record Registry (F : Type 0) : Type 0 where
  pub metrics : List (Metric F)
  pub count : ℕ

-- What the code uses of `double`.
pub record Double (F : Type 0) : Type 0 where
  pub zero : F
  pub one : F
  pub plus : F → F → F
  pub minus : F → F → F
  pub less : F → F → Bool

module _ {F : Type 0} (double : Double F) where
  -- `metrics_registry_init`, where the allocation succeeds.
  abbrev pub metrics_registry_init : Registry F
  metrics_registry_init = record {
    metrics = replicate max_metrics_per_registry (record {
      name = [];
      help = [];
      type = counter;
      labels = [];
      value = double.zero;
      active = false;
    });
    count = 0;
  }

  abbrev pub matches : List ℕ → List Label → Metric F → Bool
  matches name labels m = m.active && (eq_text m.name name && eq_labels m.labels labels)

  abbrev pub is_free : Metric F → Bool
  is_free m = not m.active

  abbrev pub created : List ℕ → List ℕ → MetricType → List Label → Metric F
  created name help type labels = record {
    name = fitted max_metric_name_len name;
    help = fitted max_metric_help_len help;
    type = type;
    labels = map fitted_label labels;
    value = double.zero;
    active = true;
  }

  -- What follows the search for the metric: a slot is filled.
  abbrev pub create_at : Registry F → Metric F → Option ℕ → Option ℕ × Registry F
  create_at reg m none = (none, reg)
  create_at reg m (some slot) =
      (some slot, record { metrics = set reg.metrics slot m; count = reg.count + 1 })

  abbrev pub found_or_created : Registry F → Metric F → Option ℕ → Option ℕ × Registry F
  found_or_created reg m (some i) = (some i, reg)
  found_or_created reg m none =
      if leb max_metrics_per_registry reg.count
      then (none, reg)
      else create_at reg m (search is_free reg.metrics)

  -- `find_or_create_metric`, where the mutex of the metric can be made.
  unfoldable pub find_or_create_metric :
      Registry F → List ℕ → List ℕ → MetricType → List Label → Option ℕ × Registry F
  find_or_create_metric reg name help type labels =
      if ltb max_labels_per_metric (length labels)
      then (none, reg)
      else found_or_created reg (created name help type labels)
          (search (matches name labels) reg.metrics)

  -- The operations on a metric: `metrics_counter_inc`, `metrics_counter_add`, `metrics_gauge_set`,
  -- `metrics_gauge_inc` and `metrics_gauge_dec`.
  abbrev pub counter_inc : Metric F → Metric F
  counter_inc m = record m { value = double.plus m.value double.one }

  abbrev pub counter_add : Metric F → F → Metric F
  counter_add m val =
      if double.less val double.zero then m else record m { value = double.plus m.value val }

  abbrev pub gauge_set : Metric F → F → Metric F
  gauge_set m val = record m { value = val }

  abbrev pub gauge_inc : Metric F → Metric F
  gauge_inc m = record m { value = double.plus m.value double.one }

  abbrev pub gauge_dec : Metric F → Metric F
  gauge_dec m = record m { value = double.minus m.value double.one }
