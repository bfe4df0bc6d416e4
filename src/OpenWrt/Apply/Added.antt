-- ===== src/OpenWrt/Apply/Added.antt =====
-- pkg/openwrt/openwrt.go: what one addition of a change set does to the index.
use external_dns_openwrt_nex.Prelude.{
  ℕ, Bool, false, [], ◌∷◌, Option, none, some, ◌≡◌, refl, ap, ◌∙◌, arith, inl, inr, is_empty,
  Bool-cases, Option-cases,
}
use external_dns_openwrt_nex.OpenWrt.Index.Owned.{
  newest, at_key-mark_owned, at_key-add, own_names, own_names-append, own_names-append_left,
  own_names-mark_first, own_names-adopted,
}
use external_dns_openwrt_nex.Strings.{Str, ◌==◌, CaseTable}
use external_dns_openwrt_nex.Strings.Laws.{eq_iff, eq_refl}
use external_dns_openwrt_nex.Exec.{ok, Result-cases}
use external_dns_openwrt_nex.OpenWrt.Types.{DnsRecord, canonical, key, validate}
use external_dns_openwrt_nex.OpenWrt.Sections.{OpenWrt}
use external_dns_openwrt_nex.OpenWrt.Index.{at_key, add, mark_owned, owned, first_unowned}
use external_dns_openwrt_nex.OpenWrt.Apply.{
  Pass, Reason, set_owner, create_section, adoptable, adopt, create, obstacle, add_record,
}

module _ ⦃u : CaseTable⦄ where
  -- The record's canonical form has its key.
  abbrev pub IsStable : DnsRecord → Type 0
  IsStable r = key (canonical r) ≡ key r

  module _ {S : Type 0} (o : OpenWrt S) where
    -- What an addition that went through may have done: nothing, for a record with a section of its
    -- own; adopted a section; left the record out; created a section.
    pub data Added (r : DnsRecord) (p p' : Pass S) (why : Option Reason) : Type 0 where
      there :
          is_empty (owned p.index (key r) o.ownership_id) ≡ false
          → p' ≡ p
          → why ≡ none
          → Added r p p' why
      adopted :
          (section : Str)
          → first_unowned p.index (key r) ≡ some section
          → p'.index ≡ mark_owned p.index (key r) section o.ownership_id
          → why ≡ none
          → Added r p p' why
      left_out : (reason : Reason) → p' ≡ p → why ≡ some reason → Added r p p' why
      created :
          (section : Str)
          → p'.index ≡ add p.index r section o.ownership_id
          → why ≡ none
          → Added r p p' why

    adopt-Added :
        (r : DnsRecord) (section : Str) (p : Pass S) (n : ℕ) (why : Option Reason)
        → adoptable o p.index r ≡ some section
        → (adopt o r section p).0 ≡ ok (n, why)
        → Added r p (adopt o r section p).1 why
    unfolding adopt adoptable
    adopt-Added r section p n why f e = elim (Result-cases (set_owner o section p.world).0) [
      | inr (g, h) ↦ cc (rw h at e)
      | inl (d, h) ↦ adopted section (ground arith) (ground arith) (ground arith)
    ]

    create-Added :
        (r : DnsRecord) (p : Pass S) (n : ℕ) (why : Option Reason)
        → (create o r p).0 ≡ ok (n, why)
        → Added r p (create o r p).1 why
    unfolding create
    create-Added r p n why e = elim (Result-cases (create_section o r p.world).0) [
      | inr (g, h) ↦ cc (rw h at e)
      | inl (section, h) ↦ created section (ground arith) (ground arith)
    ]

    -- An addition that went through is valid, whatever it did.
    pub add_record-valid :
        (r : DnsRecord) (p : Pass S) (n : ℕ) (why : Option Reason)
        → (add_record o r p).0 ≡ ok (n, why)
        → validate r ≡ none
    unfolding add_record
    add_record-valid r p n why e = elim (Option-cases (validate r)) [
      | inr (i, v) ↦ cc (rw (v, add_record) at e)
      | inl v ↦ v
    ]

    pub add_record-Added :
        (r : DnsRecord) (p : Pass S) (n : ℕ) (why : Option Reason)
        → (add_record o r p).0 ≡ ok (n, why)
        → Added r p (add_record o r p).1 why
    unfolding add_record
    add_record-Added r p n why e = elim (Option-cases (validate r)) [
      | inr (i, v) ↦ cc (rw (v, add_record) at e)
      | inl v ↦ elim (Bool-cases (is_empty (owned p.index (key r) o.ownership_id))) [
        | inr own ↦
            let f = rw (v, own, add_record) at e in rw (v, own, add_record) (there own refl (cc f))
        | inl free ↦ elim (Option-cases (adoptable o p.index r)) [
          | inr (section, a) ↦
              let f = rw (v, free, a, add_record) at e in
              rw (v, free, a, add_record) (adopt-Added r section p n why a f)
          | inl a ↦ elim (Option-cases (obstacle o p.index r)) [
            | inr (reason, b) ↦
                let f = rw (v, free, a, b, add_record) at e in
                rw (v, free, a, b, add_record) (left_out reason refl (cc f))
            | inl b ↦
                let f = rw (v, free, a, b, add_record) at e in
                rw (v, free, a, b, add_record) (create-Added r p n why f)
          ]
        ]
      ]
    ]

    -- The owner has no section of the key.
    abbrev pub lacks : Str → Pass S → Bool
    lacks k p = is_empty (own_names o.ownership_id (at_key p.index k))

    -- An addition changes nothing under another key.
    pub Added-other :
        (r : DnsRecord) (p p' : Pass S) (why : Option Reason) (j : Str)
        → IsStable r
        → (key r == j) ≡ false
        → Added r p p' why
        → at_key p'.index j ≡ at_key p.index j
    Added-other r p p' why j stable ne (there own e w) = ap (λ q. at_key q.index j) e
    Added-other r p p' why j stable ne (left_out reason e w) = ap (λ q. at_key q.index j) e
    Added-other r p p' why j stable ne (adopted section f e w) =
        rw e (ground (arith, at_key-mark_owned p.index (key r) section o.ownership_id j))
    Added-other r p p' why j stable ne (created section e w) =
        rw e (at_key-add p.index r section o.ownership_id j ∙ rw (stable, ne) refl)

    -- The owner loses no section by an addition.
    pub Added-keeps :
        (r : DnsRecord) (p p' : Pass S) (why : Option Reason) (j : Str)
        → Added r p p' why
        → lacks j p ≡ false
        → lacks j p' ≡ false
    Added-keeps r p p' why j (there own e w) h = ap (lacks j) e ∙ h
    Added-keeps r p p' why j (left_out reason e w) h = ap (lacks j) e ∙ h
    Added-keeps r p p' why j (adopted section f e w) h = rw e (
        ground (
          arith,
          at_key-mark_owned p.index (key r) section o.ownership_id j,
          own_names-mark_first o.ownership_id section (at_key p.index (key r)),
          eq_iff (key r) j,
        ))
    Added-keeps r p p' why j (created section e w) h = rw e (
        ground (
          arith,
          at_key-add p.index r section o.ownership_id j,
          own_names-append_left o.ownership_id (at_key p.index (key (canonical r)))
              (newest r section o.ownership_id ∷ []),
          eq_iff (key (canonical r)) j,
        ))

    -- A record that is not left out has a section of the owner.
    pub Added-has :
        (r : DnsRecord) (p p' : Pass S) → IsStable r → Added r p p' none → lacks (key r) p' ≡ false
    unfolding owned
    Added-has r p p' stable (there own e w) = ap (lacks (key r)) e ∙ own
    Added-has r p p' stable (left_out reason e w) = cc
    Added-has r p p' stable (adopted section f e w) = rw e (
        ground (
          arith,
          at_key-mark_owned p.index (key r) section o.ownership_id (key r),
          own_names-adopted o.ownership_id p.index (key r) section f,
          eq_refl (key r),
        ))
    Added-has r p p' stable (created section e w) = rw e (
        ground (
          arith,
          at_key-add p.index r section o.ownership_id (key r),
          stable,
          own_names-append o.ownership_id (at_key p.index (key (canonical r)))
              (newest r section o.ownership_id) refl,
          eq_refl (key r),
        ))
