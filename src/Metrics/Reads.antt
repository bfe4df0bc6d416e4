-- ===== src/Metrics/Reads.antt =====
-- pkg/metrics/metrics.go, `formatLabels` and `escapeLabelValue`: a scraper reads back the labels that
-- were written. The reader here is no code of the program: it follows the exposition format.
use external_dns_openwrt_nex.Prelude.{List, ◌≢◌, All}
use external_dns_openwrt_nex.Strings.{Str}
use external_dns_openwrt_nex.Metrics.Text.{label_pair}

-- A label name holds no equals sign.
abbrev pub IsLabelName : Str → Type 0
IsLabelName s = All (λ c. c ≢ b'=') s

abbrev written : Str × Str → Str
written (name, value) = label_pair name value
