-- ===== src/Provider/CancelOut.antt =====
-- internal/provider/provider.go, `cancelOut`: the records that a change set need not touch.
pub mod Counts
use external_dns_openwrt_nex.Prelude.{
  ℕ, zero, suc, ◌+◌, Bool, true, false, not, ◌&&◌, ◌||◌, List, [], ◌∷◌, ◌++◌, map, Option, none,
  some, ◌≡◌, refl, sym, ap, ◌∙◌, subst, arith, inl, inr, ◌⊎◌, ◌↔◌, ◌≢◌, ltb, leb, eqb,
  if◌then◌else◌, length, any, keep, is_empty, All, Bool-cases, Option-cases, ◌≤◌, ◌<◌,
}
use external_dns_openwrt_nex.OpenWrt.Types.{key, DnsRecord}
use external_dns_openwrt_nex.Ubus.Errors.{eqb_ℤ, negsuc, pos, ℤ}
use external_dns_openwrt_nex.GoMap.{insert, lookup, GoMap, str_key}
use external_dns_openwrt_nex.Tally.{succ_ℤ, pred_ℤ, Balance, balance_at}
use external_dns_openwrt_nex.Strings.{CaseTable, Str}

module _ ⦃u : CaseTable⦄ where
  -- `balance[record.Key()] = f(balance[record.Key()])` for each record.
  unfoldable pub count_all : (ℤ → ℤ) → List DnsRecord → Balance → Balance
  unfolding balance_at
  count_all f [] b = b
  count_all f (r ∷ rest) b = count_all f rest (insert (key r) (f (balance_at (key r) b)) b)

  unfoldable pub unbalanced : List DnsRecord → Balance → List DnsRecord
  unbalanced records b = keep (λ r. not (eqb_ℤ (balance_at (key r) b) (pos 0))) records

  unfoldable pub cancel_out : List DnsRecord → List DnsRecord → List DnsRecord × List DnsRecord
  unfolding count_all unbalanced
  cancel_out remove additions =
      let balance = count_all pred_ℤ additions (count_all succ_ℤ remove []) in
      (unbalanced remove balance, unbalanced additions balance)
