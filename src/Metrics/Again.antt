-- ===== src/Metrics/Again.antt =====
-- A metric of src/core/metrics.c is asked for twice.
use roole.Base.{
  ℕ, ◌+◌, ◌-◌, ◌<◌, ◌≡◌, refl, sym, ap, ap₂, subst, ◌∙◌, inl, inr, Bool, true, false, ◌&&◌, Option,
  none, some, List, [], ◌∷◌, arith, leb, ltb, Bool-cases, Option-cases, length, map, set, take_all,
  All, eq_text, eq_text_refl,
}
use roole.Metrics.{
  Label, MetricType, Registry, Double, max_metric_name_len, max_label_name_len, max_label_value_len,
  max_labels_per_metric, max_metrics_per_registry, fitted, fitted_label, eq_label, eq_labels,
  search, matches, is_free, created, found_or_created, find_or_create_metric,
}

-- An entry put in the first place that passes one test is the first that passes another, where no
-- entry passed that before.
search-set {ℓ} :
    {A : Type ℓ} (p q : A → Bool) (xs : List A) (i : ℕ) (v : A)
    → search p xs ≡ none
    → search q xs ≡ some i
    → p v ≡ true
    → search p (set xs i v) ≡ some i
unfolding search
search-set p q [] i v fresh free hit = absurd (cc free)
search-set p q (x ∷ xs) i v fresh free hit = elim (Bool-cases (q x)) [
  | inl here ↦ ground (arith, here, hit)
  | inr later ↦ elim (Option-cases (search q xs)) [
    | inl gone ↦ absurd (ground (arith, later, gone))
    | inr (j, got) ↦ elim (Option-cases (search p xs)) [
      | inr (k, found) ↦ absurd (ground (arith, found))
      | inl none_here ↦
          ground (arith, later, got, none_here, search-set p q xs j v none_here got hit)
    ]
  ]
]

-- A label whose strings fit its arrays.
abbrev pub IsFitting : Label → Type 0
IsFitting l = (length l.name < max_label_name_len) × (length l.value < max_label_value_len)

eq_labels-fitted : (ls : List Label) → All IsFitting ls → eq_labels (map fitted_label ls) ls ≡ true
eq_labels-fitted [] h = refl
eq_labels-fitted (l ∷ ls) ((n, v), h) =
    let name : fitted max_label_name_len l.name ≡ l.name =
      take_all (max_label_name_len - 1) l.name (omega arith) in
    let value : fitted max_label_value_len l.value ≡ l.value =
      take_all (max_label_value_len - 1) l.value (omega arith) in
    let whole : fitted_label l ≡ l = ap₂ (λ a b. record { name = a; value = b }) name value in
    ap (λ k. eq_label k l && eq_labels (map fitted_label ls) ls) whole
    ∙ rw (eq_text_refl l.name, eq_text_refl l.value) (eq_labels-fitted ls h)

module _ {F : Type 0} (double : Double F) (name help help' : List ℕ) (type type' : MetricType)
    (labels : List Label) where
  created-matches :
      length name < max_metric_name_len
      → All IsFitting labels
      → matches double name labels (created double name help type labels) ≡ true
  created-matches short fit =
      let whole : fitted max_metric_name_len name ≡ name =
        take_all (max_metric_name_len - 1) name (omega arith) in
      ap (λ n. eq_text n name && eq_labels (map fitted_label labels) labels) whole
      ∙ rw (eq_text_refl name) (eq_labels-fitted labels fit)

  -- Who asks again gets the metric that was found or created, and nothing changes.
  abbrev Again : Option ℕ × Registry F → Type 0
  Again r =
      (i : ℕ)
      → r.0 ≡ some i
      → find_or_create_metric double r.1 name help' type' labels ≡ (some i, r.1)

  found_again :
      (reg : Registry F) (i : ℕ)
      → ltb max_labels_per_metric (length labels) ≡ false
      → search (matches double name labels) reg.metrics ≡ some i
      → find_or_create_metric double reg name help' type' labels ≡ (some i, reg)
  unfolding find_or_create_metric
  found_again reg i few found = rw (few, found) refl

  create_metric-Again :
      (reg : Registry F)
      → length name < max_metric_name_len
      → All IsFitting labels
      → Again (find_or_create_metric double reg name help type labels)
  unfolding find_or_create_metric
  create_metric-Again reg short fit =
      let new = created double name help type labels in
      let result = find_or_create_metric double reg name help type labels in
      let refused : result ≡ (none, reg) → Again result =
        λ done. subst Again (sym done) (λ i e. absurd (cc e)) in
      elim (Bool-cases (ltb max_labels_per_metric (length labels))) [
        | inl many ↦ refused (rw many refl)
        | inr few ↦ elim (Option-cases (search (matches double name labels) reg.metrics)) [
          | inr (j, found) ↦
              let done : result ≡ (some j, reg) = rw (few, found) refl in
              subst Again (sym done) (λ i e. found_again reg i few (found ∙ e))
          | inl fresh ↦ elim (Bool-cases (leb max_metrics_per_registry reg.count)) [
            | inl full ↦ refused (rw (few, fresh, found_or_created, full) refl)
            | inr room ↦ elim (Option-cases (search (is_free double) reg.metrics)) [
              | inl gone ↦ refused (rw (few, fresh, found_or_created, room, gone) refl)
              | inr (slot, got) ↦
                  let next : Registry F = record {
                    metrics = set reg.metrics slot new;
                    count = reg.count + 1;
                  } in
                  let done : result ≡ (some slot, next) =
                    rw (few, fresh, found_or_created, room, got) refl in
                  let there =
                    search-set (matches double name labels) (is_free double) reg.metrics slot new
                      fresh got (created-matches short fit) in
                  subst Again (sym done) (λ i e. found_again next i few (there ∙ e))
            ]
          ]
        ]
      ]

  -- Where a metric whose name and labels fit its arrays was found or created, asking for the name and
  -- the labels again, whatever the help and the type, gives the same metric and changes nothing.
  pub find_or_create_metric-again :
      (reg : Registry F) (i : ℕ)
      → length name < max_metric_name_len
      → All IsFitting labels
      → let r = find_or_create_metric double reg name help type labels in
        r.0 ≡ some i → find_or_create_metric double r.1 name help' type' labels ≡ (some i, r.1)
  find_or_create_metric-again reg i short fit = create_metric-Again reg short fit i
