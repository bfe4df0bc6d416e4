-- ===== src/Metrics/Handles.antt =====
-- pkg/metrics/metrics.go: a handle goes on meaning the metric it was given out for.
use external_dns_openwrt_nex.Prelude.{
  zero, suc, false, List, [], ◌∷◌, ◌++◌, map, some, ◌≡◌, refl, sym, ap, ◌∙◌, arith, inl, inr,
  Bool-cases,
}
use mathlib.Core.List.{append-nil, append_assoc}
use external_dns_openwrt_nex.Strings.{Str, ◌==◌}
use external_dns_openwrt_nex.Strings.Laws.{eq_iff}
use external_dns_openwrt_nex.Metrics.{
  Float64, Metric, Registry, MetricRef, MetricType, metric_at, change_metric, register, counter_add,
  gauge_set, update_series,
}

cons-inj : {a b : Str} {xs ys : List Str} → a ∷ xs ≡ b ∷ ys → (a ≡ b) × (xs ≡ ys)
cons-inj h = (cc, cc)

module _ {F : Type 0} ⦃f : Float64 F⦄ where
  -- Whatever the process does with a registry, from one state to another.
  pub data Uses (r : Registry F) : Registry F → Type 0 where
    untouched : Uses r r
    registers : (new : Metric F) {s : Registry F} → Uses r s → Uses r (register new s).1
    adds :
        (i : MetricRef) (delta : F) (label_values : List Str) {s : Registry F}
        → Uses r s
        → Uses r (counter_add i delta label_values s)
    sets :
        (i : MetricRef) (value : F) (label_values : List Str) {s : Registry F}
        → Uses r s
        → Uses r (gauge_set i value label_values s)

  -- The names in front are those of `r`.
  abbrev Extends : List Str → Registry F → Type 0
  Extends names s = (more : List Str) × (map (λ m. m.name) s ≡ names ++ more)

  abbrev names_of : Registry F → List Str
  names_of = map (λ m. m.name)

  names-change_metric :
      (i : MetricRef) (g : Metric F → Metric F) (s : Registry F)
      → ((m : Metric F) → (g m).name ≡ m.name)
      → names_of (change_metric i g s) ≡ names_of s
  names-change_metric i g [] h = refl
  names-change_metric zero g (m ∷ s) h = ap (λ n. n ∷ names_of s) (h m)
  names-change_metric (suc i) g (m ∷ s) h = ap (λ l. m.name ∷ l) (names-change_metric i g s h)

  names-register :
      (new : Metric F) (s : Registry F)
      → (more : List Str) × (names_of (register new s).1 ≡ names_of s ++ more)
  unfolding register
  names-register new [] = (new.name ∷ [], refl)
  names-register new (m ∷ s) = elim (Bool-cases (m.name == new.name)) [
    | inl same ↦ ([], rw same (sym (append-nil (names_of (m ∷ s)))))
    | inr other ↦ let (more, e) = names-register new s in (more, rw other (ap (λ l. m.name ∷ l) e))
  ]

  names-counter_add :
      (i : MetricRef) (delta : F) (label_values : List Str) (s : Registry F)
      → names_of (counter_add i delta label_values s) ≡ names_of s
  unfolding counter_add update_series
  names-counter_add i delta label_values s =
      ground (
        arith,
        names-change_metric i (update_series label_values (λ v. f.add v delta)) s (λ m. refl),
      )

  names-gauge_set :
      (i : MetricRef) (value : F) (label_values : List Str) (s : Registry F)
      → names_of (gauge_set i value label_values s) ≡ names_of s
  unfolding gauge_set update_series
  names-gauge_set i value label_values s =
      names-change_metric i (update_series label_values (λ _. value)) s (λ m. refl)

  Uses-Extends : {r s : Registry F} → Uses r s → Extends (names_of r) s
  Uses-Extends {r} untouched = ([], sym (append-nil (names_of r)))
  Uses-Extends {r} (registers new {s} u) =
      let (more, e) = Uses-Extends u in
      let (more', e') = names-register new s in
      (more ++ more', e' ∙ ap (λ l. l ++ more') e ∙ append_assoc (names_of r) more more')
  Uses-Extends (adds i delta label_values {s} u) =
      let (more, e) = Uses-Extends u in (more, names-counter_add i delta label_values s ∙ e)
  Uses-Extends (sets i value label_values {s} u) =
      let (more, e) = Uses-Extends u in (more, names-gauge_set i value label_values s ∙ e)

  -- A registry whose first name it is.
  register-first :
      (again m : Metric F) (s : Registry F)
      → m.name ≡ again.name
      → register again (m ∷ s) ≡ (0, m ∷ s)
  unfolding register
  register-first again m s e = rw ((eq_iff m.name again.name).1 e)

  register-later :
      (again m : Metric F) (s : Registry F) (k : MetricRef)
      → (m.name == again.name) ≡ false
      → register again s ≡ (k, s)
      → register again (m ∷ s) ≡ (suc k, m ∷ s)
  unfolding register
  register-later again m s k other found = rw (other, found)

  register-found :
      (new again : Metric F) (r s : Registry F)
      → again.name ≡ new.name
      → Extends (names_of (register new r).1) s
      → register again s ≡ ((register new r).0, s)
  unfolding register
  register-found new again [] [] n (more, h) = cc
  register-found new again [] (m ∷ s) n (more, h) = register-first again m s (cc (h, n))
  register-found new again (m0 ∷ r) [] n (more, h) = elim (Bool-cases (m0.name == new.name)) [
    | inl same ↦ cc (rw same at h)
    | inr other ↦ cc (rw other at h)
  ]
  register-found new again (m0 ∷ r) (m ∷ s) n (more, h) = elim (Bool-cases (m0.name == new.name)) [
    | inl same ↦
        let e = (eq_iff m0.name new.name).0 same in
        rw same (register-first again m s (cc (rw same at h, n, e)))
    | inr other ↦
        let (first, rest) = cons-inj (rw other at h) in
        rw other (
          register-later again m s (register new r).0
            (ap (λ x. x == again.name) first ∙ ap (λ x. m0.name == x) n ∙ other)
            (register-found new again r s n (more, rest)))
  ]

  -- Asking for a name again returns the handle that it has, and leaves the registry as it is,
  -- whatever was registered, added and set in between, and whatever help and labels the second
  -- caller gives.
  pub Uses-register :
      (new again : Metric F) (r s : Registry F)
      → again.name ≡ new.name
      → Uses (register new r).1 s
      → register again s ≡ ((register new r).0, s)
  Uses-register new again r s n u = register-found new again r s n (Uses-Extends u)

  -- What a metric is, apart from its series.
  abbrev pub described : Metric F → (Str × Str) × (MetricType × List Str)
  described m = ((m.name, m.help), (m.kind, m.label_names))

  -- The metric at a place, and what it is.
  abbrev pub Described : MetricRef → (Str × Str) × (MetricType × List Str) → Registry F → Type 0
  Described i d r = (m : Metric F) × (metric_at i r ≡ some m) × (described m ≡ d)

  change_metric-Described :
      (j i : MetricRef) (d : (Str × Str) × (MetricType × List Str)) (g : Metric F → Metric F)
      → ((m : Metric F) → described (g m) ≡ described m)
      → (r : Registry F) → Described i d r
      → Described i d (change_metric j g r)
  change_metric-Described j i d g h [] (m, e, q) = cc
  change_metric-Described zero zero d g h (x ∷ r) (m, e, q) =
      let same : x ≡ m = cc e in (g x, refl, h x ∙ ap described same ∙ q)
  change_metric-Described (suc j) zero d g h (x ∷ r) (m, e, q) = (m, e, q)
  change_metric-Described zero (suc i) d g h (x ∷ r) (m, e, q) = (m, e, q)
  change_metric-Described (suc j) (suc i) d g h (x ∷ r) (m, e, q) =
      change_metric-Described j i d g h r (m, e, q)

  register-Described :
      (new : Metric F) (i : MetricRef) (d : (Str × Str) × (MetricType × List Str)) (r : Registry F)
      → Described i d r
      → Described i d (register new r).1
  unfolding register
  register-Described new i d [] (m, e, q) = cc
  register-Described new zero d (x ∷ r) (m, e, q) = (m, ground arith, q)
  register-Described new (suc i) d (x ∷ r) (m, e, q) = elim (Bool-cases (x.name == new.name)) [
    | inl same ↦ (m, rw same e, q)
    | inr other ↦ let (m', e', q') = register-Described new i d r (m, e, q) in (m', rw other e', q')
  ]

  -- A handle goes on meaning the metric it was given out for: the same name, help, type and labels,
  -- whatever the process does with the registry.
  pub Uses-Described :
      (i : MetricRef) (d : (Str × Str) × (MetricType × List Str)) {r s : Registry F}
      → Described i d r
      → Uses r s
      → Described i d s
  unfolding counter_add gauge_set update_series
  Uses-Described i d h untouched = h
  Uses-Described i d h (registers new {s} u) = register-Described new i d s (Uses-Described i d h u)
  Uses-Described i d h (adds j delta label_values {s} u) =
      let h' = Uses-Described i d h u in
      let changed =
        change_metric-Described j i d (update_series label_values (λ v. f.add v delta)) (λ m. refl)
          s h' in
      elim (Bool-cases (f.lt delta (f.of_nat 0))) [ inl e ↦ rw e h' | inr e ↦ rw e changed ]
  Uses-Described i d h (sets j value label_values {s} u) =
      change_metric-Described j i d (update_series label_values (λ _. value)) (λ m. refl) s
        (Uses-Described i d h u)
