-- ===== src/Metrics.antt =====
-- pkg/metrics/metrics.go: the registry of counters and gauges, and the build information. Every
-- operation holds the registry's one lock from start to end, so each is one step here.
pub mod Text
pub mod Handles
pub mod Counts
pub mod Reader
pub mod Reads
mod Examples
use external_dns_openwrt_nex.Prelude.{
  ℕ, zero, suc, ◌+◌, Bool, true, false, not, ◌&&◌, ◌||◌, List, [], ◌∷◌, ◌++◌, map, Option, none,
  some, ◌≡◌, refl, sym, ap, ◌∙◌, subst, arith, inl, inr, ◌⊎◌, ◌↔◌, ◌≢◌, ltb, leb, eqb,
  if◌then◌else◌, length, any, keep, is_empty, All, Bool-cases, Option-cases, ◌≤◌, ◌<◌,
}
use external_dns_openwrt_nex.Strings.{take, Str, codes, ◌==◌, join}
use external_dns_openwrt_nex.GoMap.{GoMap, lookup, insert, str_key}

-- A float64 and what the package does with it. `format` is `FormatFloat` with 'g' and -1.
pub record Float64 (F : Type 0) : Type 0 where
  pub of_nat : ℕ → F
  pub add : F → F → F
  pub lt : F → F → Bool
  pub format : F → Str

pub data MetricType : Type 0 where
  counter gauge : MetricType

-- "\xff": a byte that is in no UTF-8, and sorts behind all that are.
abbrev pub separator : Str
separator = 0x110000 ∷ []

abbrev pub prefix : Str
prefix = codes "external_dns_openwrt"

module _ (F : Type 0) where
  pub record Series : Type 0 where
    pub label_values : List Str
    pub value : F

  pub record Metric : Type 0 where
    pub name : Str
    pub help : Str
    pub kind : MetricType
    pub label_names : List Str
    pub series : GoMap Str (Series)

  abbrev pub Registry : Type 0
  Registry = List Metric

-- A pointer to a metric is its place in the registry, which only grows.
abbrev pub MetricRef : Type 0
MetricRef = ℕ

module _ {F : Type 0} where
  abbrev pub metric_at : MetricRef → Registry F → Option (Metric F)
  metric_at i [] = none
  metric_at zero (m ∷ r) = some m
  metric_at (suc i) (m ∷ r) = metric_at i r

  abbrev pub change_metric : MetricRef → (Metric F → Metric F) → Registry F → Registry F
  change_metric i f [] = []
  change_metric zero f (m ∷ r) = f m ∷ r
  change_metric (suc i) f (m ∷ r) = m ∷ change_metric i f r

  -- The loop of `register`: the metric that has the name, or the new one at the end.
  unfoldable pub register : Metric F → Registry F → MetricRef × Registry F
  register new [] = (0, new ∷ [])
  register new (m ∷ r) =
      let (i, r') = register new r in if m.name == new.name then (0, m ∷ r) else (suc i, m ∷ r')

  unfoldable pub register_counter : Str → Str → List Str → Registry F → MetricRef × Registry F
  unfolding register
  register_counter name help label_names =
      register (record {
        name = name;
        help = help;
        kind = counter;
        label_names = label_names;
        series = [];
      })

  unfoldable pub register_gauge : Str → Str → List Str → Registry F → MetricRef × Registry F
  unfolding register
  register_gauge name help label_names =
      register
        (record { name = name; help = help; kind = gauge; label_names = label_names; series = [] })

module _ {F : Type 0} ⦃f : Float64 F⦄ where
  abbrev pub series_at : Str → List Str → GoMap Str (Series F) → Series F
  series_at key label_values m = elim (lookup key m) [
    | some s ↦ s
    | none ↦ record { label_values = label_values; value = f.of_nat 0 }
  ]

  unfoldable pub update_series : List Str → (F → F) → Metric F → Metric F
  update_series label_values change m =
      let key = join separator label_values in
      let s = series_at key label_values m.series in
      record m { series = insert key (record s { value = change s.value }) m.series }

  unfoldable pub counter_add : MetricRef → F → List Str → Registry F → Registry F
  unfolding update_series
  counter_add i delta label_values r =
      if f.lt delta (f.of_nat 0)
      then r
      else change_metric i (update_series label_values (λ v. f.add v delta)) r

  unfoldable pub counter_inc : MetricRef → List Str → Registry F → Registry F
  unfolding counter_add
  counter_inc i label_values r = counter_add i (f.of_nat 1) label_values r

  unfoldable pub gauge_set : MetricRef → F → List Str → Registry F → Registry F
  unfolding update_series
  gauge_set i value label_values r = change_metric i (update_series label_values (λ _. value)) r

-- What `debug.ReadBuildInfo` reports.
pub record BuildInfo : Type 0 where
  pub main_version : Str
  pub settings : List (Str × Str)

-- The last setting of a key, empty where there is none.
unfoldable pub last_setting : Str → Str → List (Str × Str) → Str
last_setting key found [] = found
last_setting key found ((k, v) ∷ rest) = last_setting key (if k == key then v else found) rest

-- `revision[:12]` cuts bytes, and a revision is hexadecimal.
unfoldable pub short_revision : Str → Str → Str
short_revision revision modified =
    let short = if ltb 12 (length revision) then take 12 revision else revision in
    if modified == codes "true" then short ++ codes "-dirty" else short

unfoldable pub build_version : Option BuildInfo → Str
unfolding last_setting short_revision
build_version none = codes "unknown"
build_version (some info) =
    let revision = last_setting (codes "vcs.revision") [] info.settings in
    if not (is_empty info.main_version) && not (info.main_version == codes "(devel)")
    then info.main_version
    else if is_empty revision
    then codes "unknown"
    else short_revision revision (last_setting (codes "vcs.modified") [] info.settings)

module _ {F : Type 0} ⦃f : Float64 F⦄ where
  -- `Build`, with the information and `runtime.Version()`.
  unfoldable pub register_build : Option BuildInfo → Str → Registry F → Registry F
  unfolding register_gauge gauge_set build_version
  register_build info go_version r =
      let (i, r') =
        register_gauge (prefix ++ codes "_build_info")
          (codes "Build information of the running webhook, always 1.")
          (codes "version" ∷ codes "goversion" ∷ []) r in
      gauge_set i (f.of_nat 1) (build_version info ∷ go_version ∷ []) r'
