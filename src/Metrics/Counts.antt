-- ===== src/Metrics/Counts.antt =====
-- pkg/metrics/metrics.go: the values of the series after an update.
use external_dns_openwrt_nex.Prelude.{
  zero, suc, false, ◌&&◌, List, [], ◌∷◌, ◌++◌, Option, none, some, ◌≡◌, refl, sym, ap, ◌∙◌, arith,
  inl, inr, ◌⊎◌, ◌≢◌, eqb, if◌then◌else◌, length, All, Bool-cases, Option-cases,
}
use mathlib.Core.List.{append_assoc}
use external_dns_openwrt_nex.Strings.{Str, ◌==◌, join}
use external_dns_openwrt_nex.Strings.Laws.{eq_iff, eq_refl}
use external_dns_openwrt_nex.GoMap.{lookup, lookup-insert, str_key}
use external_dns_openwrt_nex.Metrics.{
  Float64, Metric, Series, Registry, MetricRef, separator, metric_at, change_metric, counter_add,
  update_series, series_at,
}

-- The text holds no separator.
abbrev pub IsLabelValue : Str → Type 0
IsLabelValue s = All (λ c. c ≢ 0x110000) s

split_join :
    (a b s t : Str)
    → IsLabelValue a
    → IsLabelValue b
    → a ++ (separator ++ s) ≡ b ++ (separator ++ t)
    → (a ≡ b) × (s ≡ t)
split_join [] [] s t h k e = (refl, cc)
split_join [] (d ∷ b) s t h k e = absurd (k.0 (cc))
split_join (c ∷ a) [] s t h k e = absurd (h.0 (cc))
split_join (c ∷ a) (d ∷ b) s t h k e = let (p, q) = split_join a b s t h.1 k.1 (cc) in (cc, q)

-- Lists of label values of one length are joined to different keys.
join-injective :
    (ks ls : List Str)
    → length ks ≡ length ls
    → All IsLabelValue ks
    → All IsLabelValue ls
    → join separator ks ≡ join separator ls
    → ks ≡ ls
unfolding join
join-injective [] [] n h k e = refl
join-injective [] (l ∷ ls) n h k e = absurd (omega arith)
join-injective (a ∷ ks) [] n h k e = absurd (omega arith)
join-injective (a ∷ []) (b ∷ []) n h k e = ap (λ x. x ∷ []) e
join-injective (a ∷ []) (b ∷ l ∷ ls) n h k e = absurd (omega arith)
join-injective (a ∷ c ∷ ks) (b ∷ []) n h k e = absurd (omega arith)
join-injective (a ∷ c ∷ ks) (b ∷ d ∷ ls) n h k e =
    let (p, q) = split_join a b (join separator (c ∷ ks)) (join separator (d ∷ ls)) h.0 k.0 (
      sym (append_assoc a separator (join separator (c ∷ ks)))
      ∙ e
      ∙ append_assoc b separator (join separator (d ∷ ls))) in
    let r = join-injective (c ∷ ks) (d ∷ ls) (omega arith) h.1 k.1 q in cc

-- Label values of another metric, or other label values, are other series.
apart_keys :
    (i j : MetricRef) (ks ls : List Str)
    → length ks ≡ length ls
    → All IsLabelValue ks
    → All IsLabelValue ls
    → (i ≢ j) ⊎ (ks ≢ ls)
    → (eqb i j && (join separator ks == join separator ls)) ≡ false
apart_keys i j ks ls n h k apart =
    elim (Bool-cases (eqb i j && (join separator ks == join separator ls))) [
      | inr no_match ↦ no_match
      | inl both ↦
          let same_key : join separator ks ≡ join separator ls =
            (eq_iff (join separator ks) (join separator ls)).0 (ground (arith, both)) in
          let same : ks ≡ ls = join-injective ks ls n h k same_key in
          ground (arith, apart, both, same)
    ]

module _ {F : Type 0} ⦃f : Float64 F⦄ where
  abbrev value_in : Option (Series F) → Option F
  value_in none = none
  value_in (some s) = some s.value

  abbrev value_of : List Str → Option (Metric F) → Option F
  value_of labels none = none
  value_of labels (some m) = value_in (lookup (join separator labels) m.series)

  -- The value of a metric's series, if there is one.
  abbrev pub value_at : MetricRef → List Str → Registry F → Option F
  value_at i labels r = value_of labels (metric_at i r)

  -- A series that is not there counts from zero.
  abbrev pub from_zero : Option F → F
  from_zero none = f.of_nat 0
  from_zero (some v) = v

  metric_at-change :
      (i j : MetricRef) (g : Metric F → Metric F) (r : Registry F) (m : Metric F)
      → metric_at j r ≡ some m
      → metric_at j (change_metric i g r) ≡ some (if eqb i j then g m else m)
  metric_at-change i j g [] m e = cc
  metric_at-change zero zero g (x ∷ r) m e = ground arith
  metric_at-change zero (suc j) g (x ∷ r) m e = ground arith
  metric_at-change (suc i) zero g (x ∷ r) m e = ground arith
  metric_at-change (suc i) (suc j) g (x ∷ r) m e = ground (arith, metric_at-change i j g r m e)

  value_of-update_series :
      (ks ls : List Str) (g : F → F) (m : Metric F)
      → value_of ls (some (update_series ks g m)) ≡ (
          if join separator ks == join separator ls
          then some (g (from_zero (value_of ks (some m))))
          else value_of ls (some m))
  unfolding update_series
  value_of-update_series ks ls g m =
      let key = join separator ks in
      let s = series_at key ks m.series in
      ground
        (arith, lookup-insert key (join separator ls) (record s { value = g s.value }) m.series)

  value_at-change :
      (i j : MetricRef) (ks ls : List Str) (g : F → F) (r : Registry F) (m : Metric F)
      → metric_at j r ≡ some m
      → value_at j ls (change_metric i (update_series ks g) r) ≡ (
          if eqb i j && (join separator ks == join separator ls)
          then some (g (from_zero (value_of ks (some m))))
          else value_of ls (some m))
  value_at-change i j ks ls g r m e =
      ap (value_of ls) (metric_at-change i j (update_series ks g) r m e)
      ∙ elim (Bool-cases (eqb i j)) [
        | inl same ↦ rw same (value_of-update_series ks ls g m)
        | inr other ↦ rw other
      ]

  metric_at-change_none :
      (i j : MetricRef) (g : Metric F → Metric F) (r : Registry F)
      → metric_at j r ≡ none
      → metric_at j (change_metric i g r) ≡ none
  metric_at-change_none i j g [] e = refl
  metric_at-change_none i zero g (x ∷ r) e = cc
  metric_at-change_none zero (suc j) g (x ∷ r) e = e
  metric_at-change_none (suc i) (suc j) g (x ∷ r) e = metric_at-change_none i j g r e

  -- Adding to a counter adds to the one series of its label values, from zero if it is new, and
  -- leaves every other series of every metric as it is. Conditions: the amount is not negative, the
  -- metric is there, and the label values are as many as the other's and hold no separator.
  pub counter_add-value :
      (i : MetricRef) (delta : F) (ks : List Str) (r : Registry F) (m : Metric F)
      → metric_at i r ≡ some m
      → f.lt delta (f.of_nat 0) ≡ false
      → All IsLabelValue ks
      → (value_at i ks (counter_add i delta ks r)
          ≡ some (f.add (from_zero (value_at i ks r)) delta))
        × ((j : MetricRef) (ls : List Str)
            → length ks ≡ length ls
            → All IsLabelValue ls
            → (i ≢ j) ⊎ (ks ≢ ls)
            → value_at j ls (counter_add i delta ks r) ≡ value_at j ls r)
  unfolding counter_add
  counter_add-value i delta ks r m e nonneg h =
      let g = λ (v : F). f.add v delta in
      let own = value_at-change i i ks ks g r m e in
      (
        rw (nonneg, counter_add) (own ∙ ground (arith, e, eq_refl (join separator ks))),
        λ j ls n k apart.
            rw (nonneg, counter_add)
              (elim (Option-cases (metric_at j r)) [
                | inl none_there ↦
                    ap (value_of ls) (metric_at-change_none i j (update_series ks g) r none_there)
                    ∙ sym (ap (value_of ls) none_there)
                | inr (m', e') ↦
                    value_at-change i j ks ls g r m' e'
                    ∙ (rw (apart_keys i j ks ls n h k apart) (sym (ap (value_of ls) e')))
              ]),
      )

  -- A counter never falls: a series that has a value keeps it or gets one that is not below it,
  -- whatever is added to whichever counter. Conditions, which float64 meets: no value is below
  -- itself, and adding what is not below zero gives nothing below the value before.
  pub counter_add-never_falls :
      ((v : F) → f.lt v v ≡ false)
      → ((v d : F) → f.lt d (f.of_nat 0) ≡ false → f.lt (f.add v d) v ≡ false)
      → (i j : MetricRef) (delta : F) (ks ls : List Str) (r : Registry F) (v : F)
      → value_at j ls r ≡ some v
      → (v' : F) × (value_at j ls (counter_add i delta ks r) ≡ some v') × (f.lt v' v ≡ false)
  unfolding counter_add
  counter_add-never_falls irreflexive grows i j delta ks ls r v e =
      let g = λ (x : F). f.add x delta in
      elim (Bool-cases (f.lt delta (f.of_nat 0))) [
        | inl negative ↦ rw (negative, counter_add) (v, e, irreflexive v)
        | inr nonneg ↦
            rw (nonneg, counter_add)
              (elim (Option-cases (metric_at j r)) [
                | inl none_there ↦ cc (ap (value_of ls) none_there)
                | inr (m, there) ↦
                    let changed = value_at-change i j ks ls g r m there in
                    let before : value_of ls (some m) ≡ some v = sym (ap (value_of ls) there) ∙ e in
                    elim (Bool-cases (eqb i j && (join separator ks == join separator ls))) [
                      | inl both ↦
                          let key : join separator ks ≡ join separator ls =
                            (eq_iff (join separator ks) (join separator ls)).0
                              (ground (arith, both)) in
                          let was : value_of ks (some m) ≡ some v =
                            ap (λ x. value_in (lookup x m.series)) key ∙ before in
                          (f.add v delta, changed ∙ rw (both, was) refl, grows v delta nonneg)
                      | inr apart ↦ (v, changed ∙ rw apart before, irreflexive v)
                    ]
              ])
      ]
