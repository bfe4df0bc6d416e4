-- ===== src/Provider/CancelOut/Counts.antt =====
-- internal/provider/provider.go, `cancelOut`: the records left are those whose key is counted
-- differently in the two lists.
use external_dns_openwrt_nex.Tally.{zero-IsDiff, balance-IsDiff, IsDiff, count, count_keys}
use external_dns_openwrt_nex.Prelude.{
  ℕ, Bool, not, List, [], ◌∷◌, map, ◌≡◌, refl, sym, ap, ◌∙◌, subst, eqb, keep,
}
use external_dns_openwrt_nex.Provider.CancelOut.{
  unbalanced, Balance, count_all, pred_ℤ, succ_ℤ, balance_at, cancel_out,
}
use external_dns_openwrt_nex.GoMap.{insert, str_key}
use external_dns_openwrt_nex.Strings.{Str, CaseTable}
use external_dns_openwrt_nex.OpenWrt.Types.{key, DnsRecord}
use external_dns_openwrt_nex.Ubus.Errors.{ℤ}
use mathlib.Core.Path.{fun_ext}

module _ ⦃u : CaseTable⦄ where
  -- How many records of a list have the key.
  abbrev pub count_key : Str → List DnsRecord → ℕ
  count_key k rs = count k (map key rs)

  count_all-eq-count_keys :
      (g : ℤ → ℤ) (rs : List DnsRecord) (b : Balance)
      → count_all g rs b ≡ count_keys g (map key rs) b
  unfolding count_all count_keys
  count_all-eq-count_keys g [] b = refl
  count_all-eq-count_keys g (r ∷ rs) b =
      count_all-eq-count_keys g rs (insert (key r) (g (balance_at (key r) b)) b)

  balance-eq :
      (remove additions : List DnsRecord)
      → count_all pred_ℤ additions (count_all succ_ℤ remove [])
        ≡ count_keys pred_ℤ (map key additions) (count_keys succ_ℤ (map key remove) [])
  balance-eq remove additions =
      count_all-eq-count_keys pred_ℤ additions (count_all succ_ℤ remove [])
      ∙ ap (count_keys pred_ℤ (map key additions)) (count_all-eq-count_keys succ_ℤ remove [])

  -- The records that stay: those whose key is not counted as often in one list as in the other.
  abbrev pub changed : List DnsRecord → List DnsRecord → List DnsRecord → List DnsRecord
  changed remove additions =
      keep (λ r. not (eqb (count_key (key r) remove) (count_key (key r) additions)))

  -- `cancel_out` leaves, of both lists and in their order, the records whose key the two lists do
  -- not hold equally often, with all their occurrences.
  pub cancel_out-eq-changed :
      (remove additions : List DnsRecord)
      → cancel_out remove additions
        ≡ (changed remove additions remove, changed remove additions additions)
  unfolding cancel_out unbalanced
  cancel_out-eq-changed remove additions =
      let b = count_all pred_ℤ additions (count_all succ_ℤ remove []) in
      let differs = λ (r : DnsRecord).
        subst
          (λ m.
            IsDiff (balance_at (key r) m) (count_key (key r) remove) (count_key (key r) additions))
          (sym (balance-eq remove additions))
          (balance-IsDiff (key r) (map key remove) (map key additions)) in
      let same = λ (r : DnsRecord). ap not (
        zero-IsDiff (balance_at (key r) b) (count_key (key r) remove) (count_key (key r) additions)
          (differs r)) in
      ap (λ (f : DnsRecord → Bool). (keep f remove, keep f additions)) (fun_ext same)
