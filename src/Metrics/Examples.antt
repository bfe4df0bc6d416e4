-- ===== src/Metrics/Examples.antt =====
-- A registry with a counter and a gauge, over whole numbers.
use external_dns_openwrt_nex.Metrics.{Metric, Registry, counter_add, counter, gauge}
use external_dns_openwrt_nex.Metrics.Counts.{IsLabelValue, value_at, counter_add-value}
use external_dns_openwrt_nex.Prelude.{
  ℕ, List, [], ◌∷◌, some, ◌≡◌, refl, arith, ◌⊎◌, ◌≢◌, length, All,
}
use external_dns_openwrt_nex.Strings.{Str, codes}
use external_dns_openwrt_nex.Fixtures.{whole}

abbrev requests : Metric ℕ
requests = record {
  name = codes "requests";
  help = codes "Requests.";
  kind = counter;
  label_names = codes "route" ∷ [];
  series = [];
}

abbrev records : Metric ℕ
records = record {
  name = codes "records";
  help = codes "Records.";
  kind = gauge;
  label_names = [];
  series = [];
}

abbrev both : Registry ℕ
both = requests ∷ records ∷ []

abbrev get_records : List Str
get_records = codes "/" ∷ []

counter_add-value_example :
    (value_at 0 get_records (counter_add 0 2 get_records both) ≡ some 2)
    × ((j : ℕ) (ls : List Str)
        → 1 ≡ length ls
        → All IsLabelValue ls
        → (0 ≢ j) ⊎ (get_records ≢ ls)
        → value_at j ls (counter_add 0 2 get_records both) ≡ value_at j ls both)
unfolding external_dns_openwrt_nex.GoMap.lookup
counter_add-value_example =
    counter_add-value 0 2 get_records both requests refl refl ((omega arith, tt), tt)
