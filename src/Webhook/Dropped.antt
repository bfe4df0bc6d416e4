-- ===== src/Webhook/Dropped.antt =====
-- pkg/webhook/webhook.go, `droppedByType`: how many endpoints of each type went in and did not come
-- back.
pub mod Counts
use external_dns_openwrt_nex.Prelude.{
  ℕ, zero, suc, ◌+◌, Bool, true, false, not, ◌&&◌, ◌||◌, List, [], ◌∷◌, ◌++◌, map, Option, none,
  some, ◌≡◌, refl, sym, ap, ◌∙◌, subst, arith, inl, inr, ◌⊎◌, ◌↔◌, ◌≢◌, ltb, leb, eqb,
  if◌then◌else◌, length, any, keep, is_empty, All, Bool-cases, Option-cases, ◌≤◌, ◌<◌,
}
use external_dns_openwrt_nex.Strings.{Str, ◌==◌}
use external_dns_openwrt_nex.Strings.Laws.{eq_iff}
use external_dns_openwrt_nex.GoMap.{GoMap, lookup, insert, str_key, lookup-insert}
use external_dns_openwrt_nex.Ubus.Errors.{ℤ, pos, negsuc}
use external_dns_openwrt_nex.Provider.Endpoints.{Endpoint, Pointers}
use external_dns_openwrt_nex.Tally.{succ_ℤ, pred_ℤ, Balance, balance_at}

-- `dropped[ep.RecordType]++` or `--`, for each endpoint that is not nil.
unfoldable pub count_types : (ℤ → ℤ) → Pointers → Balance → Balance
count_types g [] m = m
count_types g (none ∷ rest) m = count_types g rest m
count_types g (some ep ∷ rest) m =
    count_types g rest (insert ep.record_type (g (balance_at ep.record_type m)) m)

-- The entries that are left when those not above zero are deleted.
unfoldable pub positive_counts : Balance → GoMap Str ℕ
positive_counts [] = []
positive_counts ((k, pos zero) ∷ m) = positive_counts m
positive_counts ((k, pos (suc n)) ∷ m) = (k, suc n) ∷ positive_counts m
positive_counts ((k, negsuc n) ∷ m) = positive_counts m

unfoldable pub dropped_by_type : Pointers → Pointers → GoMap Str ℕ
unfolding count_types positive_counts
dropped_by_type before after =
    positive_counts (count_types pred_ℤ after (count_types succ_ℤ before []))
