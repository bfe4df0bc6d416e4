-- ===== src/OpenWrt/Apply/Serving.antt =====
-- pkg/openwrt/openwrt.go: both loops of a change set keep dnsmasq going, whatever the router answers
-- and wherever the pass stops.
use external_dns_openwrt_nex.OpenWrt.Apply.Safe.{
  obstacle-none, create-IsServing, adopt-IsServing, IsServing-Sub, IsSettled, IsServing,
}
use external_dns_openwrt_nex.OpenWrt.Index.View.{Sub-drop}
use external_dns_openwrt_nex.OpenWrt.Apply.{
  adoptable, skip_list, delete_request, Skip, Pass, add_all, reconcile, remove_all, obstacle,
  add_record, remove_record, delete_sections,
}
use external_dns_openwrt_nex.OpenWrt.Index.{drop, owned}
use external_dns_openwrt_nex.Prelude.{
  is_empty, ◌++◌, Bool-cases, [], inr, ◌+◌, false, inl, Option-cases, ◌∷◌, ◌⊎◌, All, ℕ, List, ◌≡◌,
}
use external_dns_openwrt_nex.OpenWrt.Types.{
  key, record_type_a, validate, record_type_cname, DnsRecord,
}
use external_dns_openwrt_nex.Exec.{Result-cases}
use external_dns_openwrt_nex.Strings.{Str, CaseTable}
use external_dns_openwrt_nex.OpenWrt.Sections.{OpenWrt}
use external_dns_openwrt_nex.GoMap.{str_key}

module _ ⦃u : CaseTable⦄ where
  -- The provider sends A and CNAME records only.
  abbrev pub IsKnown : DnsRecord → Type 0
  IsKnown r = ((r.type ≡ record_type_cname) ⊎ (r.type ≡ record_type_a)) × IsSettled r

module _ ⦃u : CaseTable⦄ {S : Type 0} (o : OpenWrt S) where
  add_record-IsServing :
      (r : DnsRecord) (p : Pass S)
      → IsKnown r
      → IsServing p.index
      → IsServing (add_record o r p).1.index
  unfolding add_record
  add_record-IsServing r p k h = elim (Option-cases (validate r)) [
    | inr (e, v) ↦ rw (v, add_record) h
    | inl v ↦ elim (Bool-cases (is_empty (owned p.index (key r) o.ownership_id))) [
      | inr present ↦ rw (v, present, add_record) h
      | inl absent ↦ elim (Option-cases (adoptable o p.index r)) [
        | inr (section, a) ↦ rw (v, absent, a, add_record) (adopt-IsServing o r section p h)
        | inl a ↦ elim (Option-cases (obstacle o p.index r)) [
          | inr (reason, b) ↦ rw (v, absent, a, b, add_record) h
          | inl b ↦
              rw (v, absent, a, b, add_record)
                (create-IsServing o r p k.1 (obstacle-none o p.index r b k.0) h)
        ]
      ]
    ]
  ]

  delete_sections-IsServing :
      (r : DnsRecord) (sections : List Str) (p : Pass S)
      → IsServing p.index
      → IsServing (delete_sections o r sections p).1.index
  unfolding delete_sections
  delete_sections-IsServing r [] p h = h
  delete_sections-IsServing r (section ∷ rest) p h =
      elim (Result-cases (o.ubus.call false (delete_request section) p.world).0) [
        | inl (d, e) ↦ rw e (
            delete_sections-IsServing r rest
              (record {
                world = (o.ubus.call false (delete_request section) p.world).1;
                index = drop p.index (key r) section;
              })
              (IsServing-Sub o p.index (drop p.index (key r) section)
                (Sub-drop p.index (key r) section) h))
        | inr (f, e) ↦ rw e h
      ]

  remove_record-IsServing :
      (r : DnsRecord) (p : Pass S) → IsServing p.index → IsServing (remove_record o r p).1.index
  unfolding remove_record
  remove_record-IsServing r p h =
      let sections = owned p.index (key r) o.ownership_id in
      elim (Bool-cases (is_empty sections)) [
        | inl absent ↦ rw absent h
        | inr found ↦ elim (Result-cases (delete_sections o r sections p).0) [
          | inl (d, e) ↦ rw (found, e) (delete_sections-IsServing r sections p h)
          | inr (f, e) ↦ rw (found, e) (delete_sections-IsServing r sections p h)
        ]
      ]

  remove_all-IsServing :
      (rs : List DnsRecord) (n : ℕ) (p : Pass S)
      → IsServing p.index
      → IsServing (remove_all o rs n p).1.index
  unfolding remove_all
  remove_all-IsServing [] n p h = h
  remove_all-IsServing (r ∷ rs) n p h =
      let h' = remove_record-IsServing r p h in
      elim (Result-cases (remove_record o r p).0) [
        | inl (m, e) ↦ rw e (remove_all-IsServing rs (n + m) (remove_record o r p).1 h')
        | inr (f, e) ↦ rw e h'
      ]

  add_all-IsServing :
      (rs : List DnsRecord) (n : ℕ) (skipped : List Skip) (p : Pass S)
      → All IsKnown rs
      → IsServing p.index
      → IsServing (add_all o rs n skipped p).1.index
  unfolding add_all
  add_all-IsServing [] n skipped p k h = h
  add_all-IsServing (r ∷ rs) n skipped p k h =
      let h' = add_record-IsServing r p k.0 h in
      elim (Result-cases (add_record o r p).0) [
        | inl (m, e) ↦ rw e (
            add_all-IsServing rs (n + m.0) (skipped ++ skip_list r m.1) (add_record o r p).1 k.1 h')
        | inr (f, e) ↦ rw e h'
      ]

  -- Where dnsmasq starts with the records of the index, it starts with them after the removals and
  -- the additions of a change set, and after every part of it that was done before an error: no two
  -- CNAMEs for one alias, no CNAME loop, and no address next to a CNAME. The additions are A and
  -- CNAME records whose canonical names have no other canonical name.
  pub reconcile-IsServing :
      (remove additions : List DnsRecord) (p : Pass S)
      → All IsKnown additions
      → IsServing p.index
      → IsServing (reconcile o remove additions p).1.index
  unfolding reconcile
  reconcile-IsServing remove additions p k h =
      let h' = remove_all-IsServing remove 0 p h in
      elim (Result-cases (remove_all o remove 0 p).0) [
        | inl (n, e) ↦ rw e (add_all-IsServing additions n [] (remove_all o remove 0 p).1 k h')
        | inr (f, e) ↦ rw e h'
      ]
