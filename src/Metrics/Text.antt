-- ===== src/Metrics/Text.antt =====
-- pkg/metrics/metrics.go, `WriteTo`: the registry as a text.
use external_dns_openwrt_nex.Prelude.{
  ℕ, Bool, List, [], ◌∷◌, ◌++◌, map, eqb, if◌then◌else◌, is_empty,
}
use external_dns_openwrt_nex.Strings.{Str, codes, join}
use external_dns_openwrt_nex.Sorting.{sort, le_str}
use external_dns_openwrt_nex.Metrics.{
  Float64, MetricType, counter, gauge, Series, Metric, Registry, separator,
}

abbrev pub newline : Str
newline = 10 ∷ []

-- What the replacer of `escapeLabelValue` writes for one character.
unfoldable pub escape_char : ℕ → Str
escape_char c =
    if eqb c b'\\'
    then b'\\' ∷ b'\\' ∷ []
    else if eqb c 10
    then b'\\' ∷ b'n' ∷ []
    else if eqb c b'"'
    then b'\\' ∷ b'"' ∷ []
    else c ∷ []

unfoldable pub escape_label_value : Str → Str
unfolding escape_char
escape_label_value [] = []
escape_label_value (c ∷ s) = escape_char c ++ escape_label_value s

unfoldable pub label_pair : Str → Str → Str
unfolding escape_label_value
label_pair name value = name ++ codes "=\"" ++ escape_label_value value ++ codes "\""

-- The loop over the names: a name without a value has the empty one.
unfoldable pub label_pairs : List Str → List Str → List Str
unfolding label_pair
label_pairs [] values = []
label_pairs (name ∷ names) [] = label_pair name [] ∷ label_pairs names []
label_pairs (name ∷ names) (value ∷ values) = label_pair name value ∷ label_pairs names values

unfoldable pub format_labels : List Str → List Str → Str
unfolding label_pairs
format_labels [] values = []
format_labels (name ∷ names) values =
    codes "{" ++ join (codes ",") (label_pairs (name ∷ names) values) ++ codes "}"

abbrev pub type_name : MetricType → Str
type_name counter = codes "counter"
type_name gauge = codes "gauge"

abbrev pub help_line : Str → Str → Str
help_line name [] = []
help_line name (c ∷ help) = codes "# HELP " ++ name ++ codes " " ++ (c ∷ help) ++ newline

module _ {F : Type 0} ⦃f : Float64 F⦄ where
  unfoldable pub le_series : Series F → Series F → Bool
  unfolding le_str
  le_series a b = le_str (join separator a.label_values) (join separator b.label_values)

  unfoldable pub sample_line : Str → List Str → Series F → Str
  unfolding format_labels
  sample_line name label_names s =
      name ++ format_labels label_names s.label_values ++ codes " " ++ f.format s.value ++ newline

  unfoldable pub sample_lines : Str → List Str → List (Series F) → Str
  unfolding sample_line
  sample_lines name label_names [] = []
  sample_lines name label_names (s ∷ rest) =
      sample_line name label_names s ++ sample_lines name label_names rest

  unfoldable pub write_metric : Metric F → Str
  unfolding sample_lines le_series sort
  write_metric m =
      let all = sort le_series (map (λ (k, s). s) m.series) in
      if is_empty all
      then []
      else help_line m.name m.help
        ++ codes "# TYPE "
        ++ m.name
        ++ codes " "
        ++ type_name m.kind
        ++ newline
        ++ sample_lines m.name m.label_names all

  unfoldable pub write_registry : Registry F → Str
  unfolding write_metric
  write_registry [] = []
  write_registry (m ∷ r) = write_metric m ++ write_registry r
