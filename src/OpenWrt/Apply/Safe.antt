-- ===== src/OpenWrt/Apply/Safe.antt =====
-- pkg/openwrt/openwrt.go: a change set leaves the records such that dnsmasq starts with them.
use external_dns_openwrt_nex.OpenWrt.Dnsmasq.{
  Star-map, Star, IsSafe-join, mem-Sub, IsSafe-Sub, Joins, Sub, Served, Alias, IsSafe,
}
use external_dns_openwrt_nex.OpenWrt.Index.Grown.{Grows, view, served}
use external_dns_openwrt_nex.OpenWrt.Index.View.{view-mark_owned, tally_of_named, Grows-add}
use external_dns_openwrt_nex.OpenWrt.Types.{
  key, canonical, record_type_a, record_type_cname, canonical_name, DnsRecord,
}
use external_dns_openwrt_nex.OpenWrt.Index.{
  mark_owned, add, holds, all_sections, closes_cname_loop, SectionIndex, named,
}
use external_dns_openwrt_nex.OpenWrt.Index.Loop.{closes_cname_loop_iff, Leads}
use external_dns_openwrt_nex.Prelude.{
  inr, inl, List, mem-keep, sym, ◌∙◌, ap, subst, arith, false, ◌⊎◌, [], none, ◌≡◌,
}
use external_dns_openwrt_nex.OpenWrt.Apply.{
  create_section, set_owner, Pass, adopt, create, obstacle,
}
use external_dns_openwrt_nex.Exec.{Result-cases}
use external_dns_openwrt_nex.Strings.Laws.{eq_iff}
use mathlib.Core.List.{Memᴰ}
use external_dns_openwrt_nex.Strings.{Str, CaseTable}
use external_dns_openwrt_nex.OpenWrt.Sections.{OpenWrt}
use mathlib.Core.List.Memᴰ
use external_dns_openwrt_nex.GoMap.{str_key}

module _ ⦃u : CaseTable⦄ where
  -- The canonical name of a record's name is a name that stays as it is.
  abbrev pub IsSettled : DnsRecord → Type 0
  IsSettled r = canonical_name (canonical_name r.name) ≡ canonical_name r.name

  -- The records of an index: dnsmasq starts with them, and their aliases are canonical.
  pub record IsServing (i : SectionIndex) : Type 0 where
    pub safe : IsSafe (view i)
    pub settled : (s : Served) → Memᴰ s (view i) → canonical_name s.name ≡ s.name

  Leads-of_Alias : (i : SectionIndex) → IsServing i → (a b : Str) → Alias (view i) a b → Leads i a b
  unfolding named
  Leads-of_Alias i h a b l =
      let (s, m, e) = Memᴰ.of_map served (all_sections i) l.listed in
      let fixed : canonical_name a ≡ a =
        subst (λ n. canonical_name n ≡ n) l.alias (h.settled l.served l.listed) in
      let alias : s.dns.name ≡ canonical_name a =
        ap (λ (x : Served). x.name) e ∙ l.alias ∙ sym fixed in
      let cname : s.dns.type ≡ record_type_cname = ap (λ (x : Served). x.type) e ∙ l.cname in
      record {
        section = s;
        listed = (mem-keep (holds record_type_cname (canonical_name a)) s (all_sections i)).1 (
          m,
          ground (arith, eq_iff s.dns.type record_type_cname, eq_iff s.dns.name (canonical_name a)),
        );
        target = ap (λ (x : Served). x.value) e ∙ l.target;
      }

  module _ {S : Type 0} (o : OpenWrt S) where
    pub record Clear (i : SectionIndex) (r : DnsRecord) : Type 0 where
      pub no_cnames : named i record_type_cname r.name ≡ []
      pub no_loop : r.type ≡ record_type_cname → closes_cname_loop i r.name r.value ≡ false
      pub no_addresses : r.type ≡ record_type_cname → named i record_type_a r.name ≡ []

    pub obstacle-none :
        (i : SectionIndex) (r : DnsRecord)
        → obstacle o i r ≡ none
        → (r.type ≡ record_type_cname) ⊎ (r.type ≡ record_type_a)
        → Clear i r
    unfolding obstacle
    obstacle-none i r h t =
        ground (arith, eq_iff r.type record_type_cname, eq_iff r.type record_type_a)

    joining : DnsRecord → Served
    joining r = record { type = r.type; name = (canonical r).name; value = (canonical r).value }

    Joins-Clear :
        (i : SectionIndex) (r : DnsRecord) → IsServing i → Clear i r → Joins (joining r) (view i)
    unfolding joining canonical
    Joins-Clear i r h c = record {
      free_alias = λ t. tally_of_named i record_type_cname r.name c.no_cnames;
      no_way_back = λ t w.
          let v : (canonical r).value ≡ canonical_name r.value =
            ground (arith, eq_iff r.type record_type_cname) in
          let found =
            (closes_cname_loop_iff i r.name r.value).1
              ∣ subst (Star (Leads i) (canonical_name r.name)) v
                (Star-map (Leads-of_Alias i h) w) ∣₁ in
          cc (found, c.no_loop t);
      no_address = λ t. tally_of_named i record_type_a r.name (c.no_addresses t);
      no_cname = λ t. tally_of_named i record_type_cname r.name c.no_cnames;
    }

    -- Joins at the view, as a list in which the record has a place.
    IsSafe-grow :
        (r : Served) (xs ys : List Served) → Grows r xs ys → Joins r xs → IsSafe xs → IsSafe ys
    IsSafe-grow r xs ys g j h =
        subst IsSafe (sym g.with_it)
          (IsSafe-join g.front r g.back (subst (Joins r) g.without j) (subst IsSafe g.without h))

    mem-grow :
        (r : Served) (xs ys : List Served)
        → Grows r xs ys
        → (s : Served) → Memᴰ s ys
        → Memᴰ s xs ⊎ (s ≡ r)
    mem-grow r xs ys g s m = elim (Memᴰ.append_cases g.front (subst (Memᴰ s) g.with_it m)) [
      | inl l ↦ inl (subst (Memᴰ s) (sym g.without) (Memᴰ.append_left g.back l))
      | inr k ↦ elim (Memᴰ.cases_cons k) [
        | inl e ↦ inr e
        | inr t ↦ inl (subst (Memᴰ s) (sym g.without) (Memᴰ.append_right g.front t))
      ]
    ]

    add-IsServing :
        (i : SectionIndex) (r : DnsRecord) (section : Str)
        → IsSettled r
        → IsServing i
        → Clear i r
        → IsServing (add i r section o.ownership_id)
    add-IsServing i r section fixed h c =
        let g = Grows-add i r section o.ownership_id in
        record {
          safe = IsSafe-grow _ _ _ g (unfold joining in Joins-Clear i r h c) h.safe;
          settled = λ s m. elim (mem-grow _ _ _ g s m) [
            | inl old ↦ h.settled s old
            | inr e ↦
                subst (λ (x : Served). canonical_name x.name ≡ x.name) (sym e)
                  (unfold canonical in fixed)
          ];
        }

    IsServing-view : (i j : SectionIndex) → view j ≡ view i → IsServing i → IsServing j
    IsServing-view i j e h = record {
      safe = subst IsSafe (sym e) h.safe;
      settled = λ s m. h.settled s (subst (Memᴰ s) e m);
    }

    pub IsServing-Sub : (i j : SectionIndex) → Sub (view j) (view i) → IsServing i → IsServing j
    IsServing-Sub i j s h = record {
      safe = IsSafe-Sub s h.safe;
      settled = λ x m. h.settled x (mem-Sub s m);
    }

    pub adopt-IsServing :
        (r : DnsRecord) (section : Str) (p : Pass S)
        → IsServing p.index
        → IsServing (adopt o r section p).1.index
    unfolding adopt
    adopt-IsServing r section p h = elim (Result-cases (set_owner o section p.world).0) [
      | inl (d, e) ↦ rw e (
          IsServing-view p.index (mark_owned p.index (key r) section o.ownership_id)
            (view-mark_owned p.index (key r) section o.ownership_id) h)
      | inr (f, e) ↦ rw e h
    ]

    pub create-IsServing :
        (r : DnsRecord) (p : Pass S)
        → IsSettled r
        → Clear p.index r
        → IsServing p.index
        → IsServing (create o r p).1.index
    unfolding create
    create-IsServing r p fixed c h = elim (Result-cases (create_section o r p.world).0) [
      | inl (section, e) ↦ rw e (add-IsServing p.index r section fixed h c)
      | inr (f, e) ↦ rw e h
    ]
