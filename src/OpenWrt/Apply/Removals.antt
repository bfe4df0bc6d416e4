-- ===== src/OpenWrt/Apply/Removals.antt =====
-- pkg/openwrt/openwrt.go: what the removals of a change set leave in the index.
use external_dns_openwrt_nex.Prelude.{
  ℕ, ◌+◌, Bool, false, List, [], ◌∷◌, ◌≡◌, refl, sym, subst, arith, inl, inr, if◌then◌else◌, any,
  keep, is_empty, Bool-cases,
}
use external_dns_openwrt_nex.Strings.{Str, ◌==◌, CaseTable}
use external_dns_openwrt_nex.Strings.Laws.{eq_iff, eq_refl}
use external_dns_openwrt_nex.Exec.{ok, Result-cases}
use external_dns_openwrt_nex.OpenWrt.Types.{DnsRecord, key}
use external_dns_openwrt_nex.OpenWrt.Sections.{OpenWrt}
use external_dns_openwrt_nex.OpenWrt.Index.{at_key, drop, owned, foreign}
use external_dns_openwrt_nex.OpenWrt.Index.Distinct.{HasDistinctNames}
use external_dns_openwrt_nex.OpenWrt.Index.Owned.{
  at_key-drop, IsDistinct, own_names, drop_all, drop_all-own_names, IsDistinct-keep, keep-keep,
  keep-foreign_all,
}
use external_dns_openwrt_nex.OpenWrt.Apply.{
  Pass, delete_request, delete_sections, remove_record, remove_all,
}

module _ ⦃u : CaseTable⦄ where
  -- A record of the list has the key.
  abbrev pub has_key : Str → List DnsRecord → Bool
  has_key k = any (λ r. key r == k)

  module _ {S : Type 0} (o : OpenWrt S) where
    delete_sections-at_key :
        (r : DnsRecord) (sections : List Str) (p : Pass S)
        → (delete_sections o r sections p).0 ≡ ok tt
        → (j : Str)
        → at_key (delete_sections o r sections p).1.index j
          ≡ (if key r == j then drop_all sections (at_key p.index (key r)) else at_key p.index j)
    unfolding delete_sections
    delete_sections-at_key r [] p e j = ground (arith, eq_iff (key r) j)
    delete_sections-at_key r (section ∷ rest) p e j =
        elim (Result-cases (o.ubus.call false (delete_request section) p.world).0) [
          | inr (f, h) ↦ cc (rw h at e)
          | inl (d, h) ↦
              let p' : Pass S = record {
                world = (o.ubus.call false (delete_request section) p.world).1;
                index = drop p.index (key r) section;
              } in
              rw h (
                ground (
                  arith,
                  delete_sections-at_key r rest p' (rw h at e) j,
                  at_key-drop p.index (key r) section j,
                  at_key-drop p.index (key r) section (key r),
                  eq_refl (key r),
                ))
        ]

    -- A removal that went through took the owner's sections of its key, and no other.
    remove_record-at_key :
        (r : DnsRecord) (p : Pass S) (n : ℕ)
        → IsDistinct (at_key p.index (key r))
        → (remove_record o r p).0 ≡ ok n
        → (j : Str)
        → at_key (remove_record o r p).1.index j ≡ (
            if key r == j
            then keep (foreign o.ownership_id) (at_key p.index j)
            else at_key p.index j)
    unfolding remove_record owned
    remove_record-at_key r p n d e j =
        let l = at_key p.index (key r) in
        let sections = own_names o.ownership_id l in
        elim (Bool-cases (is_empty sections)) [
          | inl absent ↦
              rw absent (ground (arith, keep-foreign_all o.ownership_id l absent, eq_iff (key r) j))
          | inr found ↦ elim (Result-cases (delete_sections o r sections p).0) [
            | inr (f, h) ↦ cc (rw (found, h) at e)
            | inl (d', h) ↦
                rw (found, h)
                  (ground (
                    arith,
                    delete_sections-at_key r sections p h j,
                    drop_all-own_names o.ownership_id l d,
                    eq_iff (key r) j,
                  ))
          ]
        ]

    -- So the removals together.
    pub remove_all-at_key :
        (rs : List DnsRecord) (m : ℕ) (p : Pass S) (n : ℕ)
        → HasDistinctNames p.index
        → (remove_all o rs m p).0 ≡ ok n
        → (j : Str)
        → at_key (remove_all o rs m p).1.index j ≡ (
            if has_key j rs
            then keep (foreign o.ownership_id) (at_key p.index j)
            else at_key p.index j)
    unfolding remove_all
    remove_all-at_key [] m p n d e j = refl
    remove_all-at_key (r ∷ rs) m p n d e j = elim (Result-cases (remove_record o r p).0) [
      | inr (f, h) ↦ cc (rw h at e)
      | inl (a, h) ↦
          let p' = (remove_record o r p).1 in
          let step = remove_record-at_key r p a (d (key r)) h in
          let d' : HasDistinctNames p'.index = λ k.
            subst IsDistinct (sym (step k)) (elim (Bool-cases (key r == k)) [
              | inl same ↦ rw same (IsDistinct-keep (foreign o.ownership_id) _ (d k))
              | inr other ↦ rw other (d k)
            ]) in
          rw h (
            ground (
              arith,
              remove_all-at_key rs (m + a) p' n d' (rw h at e) j,
              step j,
              keep-keep (foreign o.ownership_id) (at_key p.index j),
            ))
    ]
