-- ===== src/OpenWrt/Apply/Touches.antt =====
-- pkg/openwrt/openwrt.go: which sections of the router a change set writes to.
use external_dns_openwrt_nex.Prelude.{
  ℕ, ◌+◌, true, false, List, [], ◌∷◌, ◌++◌, none, some, ◌≡◌, refl, arith, inl, inr, ◌⊎◌, is_empty,
  Bool-cases, Option-cases,
}
use mathlib.Core.List.{Memᴰ}
use external_dns_openwrt_nex.Strings.{Str, CaseTable}
use external_dns_openwrt_nex.GoMap.{str_key}
use external_dns_openwrt_nex.Exec.{Result-cases}
use external_dns_openwrt_nex.OpenWrt.Types.{DnsRecord, key, validate}
use external_dns_openwrt_nex.OpenWrt.Sections.{OpenWrt, ownership_enabled}
use external_dns_openwrt_nex.OpenWrt.Index.{
  IndexedSection, SectionIndex, add, mark_owned, drop, owned, foreign, first_unowned,
}
use external_dns_openwrt_nex.OpenWrt.Index.Members.{
  Indexed, Indexed-drop, Indexed-mark_owned, Indexed-add, owned-Indexed, first_unowned-Indexed,
}
use external_dns_openwrt_nex.OpenWrt.Apply.{
  Pass, Skip, delete_request, delete_sections, remove_record, remove_all, set_owner, create_section,
  adoptable, adopt, create, obstacle, add_record, add_all, reconcile, skip_list,
}

module _ {S : Type 0} (o : OpenWrt S) (start : SectionIndex) where
  -- The section is one of the index at the start, and not another owner's.
  abbrev pub IsOwn : Str → Type 0
  IsOwn section =
      (s : IndexedSection) × Indexed s start
      × (s.name ≡ section)
      × (foreign o.ownership_id s ≡ false)

  -- The section is one of the index at the start, and has no owner.
  abbrev pub IsUnowned : Str → Type 0
  IsUnowned section =
      (s : IndexedSection) × Indexed s start × (s.name ≡ section) × (is_empty s.dns.owner ≡ true)

module _ ⦃u : CaseTable⦄ {S : Type 0} (o : OpenWrt S) (start : SectionIndex)
    (Holds : S → Type 0) where
  -- What is assumed of `Holds`: each write that a change set may do keeps it.
  pub record IsKept : Type 0 where
    pub by_delete :
        (section : Str) (w : S)
        → IsOwn o start section
        → Holds w
        → Holds (o.ubus.call false (delete_request section) w).1
    pub by_adoption :
        (section : Str) (w : S)
        → IsUnowned o start section
        → ownership_enabled o ≡ true
        → Holds w
        → Holds (set_owner o section w).1
    pub by_creation :
        (r : DnsRecord) (w : S) → validate r ≡ none → Holds w → Holds (create_section o r w).1

  module _ (kept : IsKept) where
    -- No section has come in.
    abbrev Within : SectionIndex → Type 0
    Within i = (s : IndexedSection) → Indexed s i → Indexed s start

    delete_sections-Holds :
        (r : DnsRecord) (sections : List Str) (p : Pass S)
        → ((section : Str) → Memᴰ section sections → IsOwn o start section)
        → Within p.index
        → Holds p.world
        → Holds (delete_sections o r sections p).1.world
          × Within (delete_sections o r sections p).1.index
    unfolding delete_sections
    delete_sections-Holds r [] p own inside h = (h, inside)
    delete_sections-Holds r (section ∷ rest) p own inside h =
        let w = (o.ubus.call false (delete_request section) p.world).1 in
        let h' = kept.by_delete section p.world (own section (Memᴰ.head refl)) h in
        elim (Result-cases (o.ubus.call false (delete_request section) p.world).0) [
          | inl (d, e) ↦ rw e (
              delete_sections-Holds r rest
                (record { world = w; index = drop p.index (key r) section })
                (λ x m. own x (Memᴰ.tail m))
                (λ s m. inside s (Indexed-drop s p.index (key r) section m)) h')
          | inr (f, e) ↦ rw e (h', inside)
        ]

    remove_record-Holds :
        (r : DnsRecord) (p : Pass S)
        → Within p.index
        → Holds p.world
        → Holds (remove_record o r p).1.world × Within (remove_record o r p).1.index
    unfolding remove_record
    remove_record-Holds r p inside h =
        let sections = owned p.index (key r) o.ownership_id in
        let own : (section : Str) → Memᴰ section sections → IsOwn o start section = λ section m.
          let (s, there, n, mine) = owned-Indexed p.index (key r) o.ownership_id section m in
          (s, inside s there, n, mine) in
        let after = delete_sections-Holds r sections p own inside h in
        elim (Bool-cases (is_empty sections)) [
          | inl absent ↦ rw absent (h, inside)
          | inr found ↦ elim (Result-cases (delete_sections o r sections p).0) [
            | inl (d, e) ↦ rw (found, e) after
            | inr (f, e) ↦ rw (found, e) after
          ]
        ]

    remove_all-Holds :
        (rs : List DnsRecord) (n : ℕ) (p : Pass S)
        → Within p.index
        → Holds p.world
        → Holds (remove_all o rs n p).1.world × Within (remove_all o rs n p).1.index
    unfolding remove_all
    remove_all-Holds [] n p inside h = (h, inside)
    remove_all-Holds (r ∷ rs) n p inside h =
        let (h', inside') = remove_record-Holds r p inside h in
        elim (Result-cases (remove_record o r p).0) [
          | inl (m, e) ↦ rw e (remove_all-Holds rs (n + m) (remove_record o r p).1 inside' h')
          | inr (f, e) ↦ rw e (h', inside')
        ]

    -- No unowned section has come in, where sections are adopted at all.
    abbrev Adopting : SectionIndex → Type 0
    Adopting i =
        ownership_enabled o ≡ true
        → (s : IndexedSection) → Indexed s i
        → is_empty s.dns.owner ≡ true
        → Indexed s start

    -- What an addition keeps.
    abbrev Good : Pass S → Type 0
    Good p = Holds p.world × Adopting p.index

    -- A new section of an index is owned, so none that is unowned has come in.
    Adopting-owned :
        (i j : SectionIndex)
        → ((s : IndexedSection) → Indexed s j → Indexed s i ⊎ (s.dns.owner ≡ o.ownership_id))
        → Adopting i
        → Adopting j
    Adopting-owned i j new h enabled s m free = elim (new s m) [
      | inl before ↦ h enabled s before free
      | inr mine ↦ cc (enabled, rw mine at free)
    ]

    adopt-Good :
        (r : DnsRecord) (section : Str) (p : Pass S)
        → adoptable o p.index r ≡ some section
        → Good p
        → Good (adopt o r section p).1
    unfolding adopt adoptable
    adopt-Good r section p a (h, free) =
        let enabled : ownership_enabled o ≡ true = ground (arith, a) in
        let found : first_unowned p.index (key r) ≡ some section = ground (arith, a) in
        let (s, there, n, unowned) = first_unowned-Indexed p.index (key r) section found in
        let h' =
          kept.by_adoption section p.world (s, free enabled s there unowned, n, unowned) enabled
            h in
        let marked = mark_owned p.index (key r) section o.ownership_id in
        elim (Result-cases (set_owner o section p.world).0) [
          | inl (d, e) ↦ rw e (
            h',
            Adopting-owned p.index marked
                (λ x m. Indexed-mark_owned x p.index (key r) section o.ownership_id m) free,
          )
          | inr (f, e) ↦ rw e (h', free)
        ]

    create-Good : (r : DnsRecord) (p : Pass S) → validate r ≡ none → Good p → Good (create o r p).1
    unfolding create
    create-Good r p v (h, free) =
        let h' = kept.by_creation r p.world v h in
        elim (Result-cases (create_section o r p.world).0) [
          | inl (section, e) ↦ rw e (
            h',
            Adopting-owned p.index (add p.index r section o.ownership_id)
                (λ x m. Indexed-add x p.index r section o.ownership_id m) free,
          )
          | inr (f, e) ↦ rw e (h', free)
        ]

    add_record-Good : (r : DnsRecord) (p : Pass S) → Good p → Good (add_record o r p).1
    unfolding add_record
    add_record-Good r p g = elim (Option-cases (validate r)) [
      | inr (e, v) ↦ rw (v, add_record) g
      | inl v ↦ elim (Bool-cases (is_empty (owned p.index (key r) o.ownership_id))) [
        | inr present ↦ rw (v, present, add_record) g
        | inl absent ↦ elim (Option-cases (adoptable o p.index r)) [
          | inr (section, a) ↦ rw (v, absent, a, add_record) (adopt-Good r section p a g)
          | inl a ↦ elim (Option-cases (obstacle o p.index r)) [
            | inr (reason, b) ↦ rw (v, absent, a, b, add_record) g
            | inl b ↦ rw (v, absent, a, b, add_record) (create-Good r p v g)
          ]
        ]
      ]
    ]

    add_all-Good :
        (rs : List DnsRecord) (n : ℕ) (skipped : List Skip) (p : Pass S)
        → Good p
        → Good (add_all o rs n skipped p).1
    unfolding add_all
    add_all-Good [] n skipped p g = g
    add_all-Good (r ∷ rs) n skipped p g =
        let g' = add_record-Good r p g in
        elim (Result-cases (add_record o r p).0) [
          | inl (m, e) ↦
              rw e (add_all-Good rs (n + m.0) (skipped ++ skip_list r m.1) (add_record o r p).1 g')
          | inr (f, e) ↦ rw e g'
        ]

  -- The writes of a change set, however far it gets: it deletes sections that the index held at the
  -- start and that are its owner's, or anyone's where it has no owner; it sets the owner of sections
  -- that the index held at the start without one, and only where it has an owner; and it creates
  -- sections for records that pass the validation. Stated by what these writes keep: a property of
  -- the router that each of them keeps, the change set keeps.
  pub reconcile-Holds :
      (remove additions : List DnsRecord) (w : S)
      → IsKept
      → Holds w
      → Holds (reconcile o remove additions (record { world = w; index = start })).1.world
  unfolding reconcile
  reconcile-Holds remove additions w kept h =
      let p : Pass S = record { world = w; index = start } in
      let (h', inside) = remove_all-Holds kept remove 0 p (λ s m. m) h in
      let p' = (remove_all o remove 0 p).1 in
      elim (Result-cases (remove_all o remove 0 p).0) [
        | inl (n, e) ↦
            rw e (add_all-Good kept additions n [] p' (h', λ enabled s m free. inside s m)).0
        | inr (f, e) ↦ rw e h'
      ]
