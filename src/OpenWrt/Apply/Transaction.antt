-- ===== src/OpenWrt/Apply/Transaction.antt =====
-- pkg/openwrt/openwrt.go: a change set on a router that keeps staged changes apart from live ones.
use external_dns_openwrt_nex.Prelude.{
  ℕ, Bool, true, false, List, ◌≡◌, refl, sym, ◌∙◌, inl, inr, eqb, is_empty, Bool-cases, eqb_iff,
}
use external_dns_openwrt_nex.OpenWrt.Apply.{
  section_of, add_request, Skip, Fault, failed, applying, apply_request, set_owner, create_section,
  reconcile, finish,
}
use external_dns_openwrt_nex.OpenWrt.Types.{canonical, DnsRecord}
use external_dns_openwrt_nex.Strings.{◌==◌, CaseTable, codes}
use external_dns_openwrt_nex.Exec.{ok, err, Result-cases}
use external_dns_openwrt_nex.Ubus.Errors.{Error, is_status, err_no_data}
use external_dns_openwrt_nex.Ubus.Wire.{Request, Data}
use external_dns_openwrt_nex.OpenWrt.Sections.{OpenWrt, get_request, read_sections}
use external_dns_openwrt_nex.OpenWrt.Index.{SectionIndex}
use external_dns_openwrt_nex.OpenWrt.Apply.Touches.{IsKept, reconcile-Holds}

module _ {S C : Type 0} (o : OpenWrt S) (staged live : S → C) where
  -- What is documented of uci over rpcd: a session's changes are staged until `apply` makes them live
  -- together, `apply` answers that there is no data where nothing is staged, reading stages nothing,
  -- and without the session what it staged is gone. Nobody else writes to the configuration.
  pub record IsTransactional : Type 0 where
    pub by_write :
        (wanted : Bool) (r : Request) (w : S)
        → (r.method == codes "apply") ≡ false
        → live (o.ubus.call wanted r w).1 ≡ live w
    pub by_read : (w : S) → staged (o.ubus.call true get_request w).1 ≡ staged w
    pub by_apply :
        (w : S) (d : Data)
        → (o.ubus.call false apply_request w).0 ≡ ok d
        → (live (o.ubus.call false apply_request w).1 ≡ staged w)
          × (staged (o.ubus.call false apply_request w).1 ≡ staged w)
    pub by_refusal :
        (w : S) (e : Error)
        → (o.ubus.call false apply_request w).0 ≡ err e
        → is_status err_no_data e ≡ true
        → (staged w ≡ live w)
          × (live (o.ubus.call false apply_request w).1 ≡ live w)
          × (staged (o.ubus.call false apply_request w).1 ≡ staged w)
    pub by_reset : (w : S) → (staged (o.ubus.reset w) ≡ live w) × (live (o.ubus.reset w) ≡ live w)
    pub by_random :
        (w : S) → (staged (o.rand_text w).1 ≡ staged w) × (live (o.rand_text w).1 ≡ live w)

module _ ⦃u : CaseTable⦄ {S C : Type 0} (o : OpenWrt S) (staged live : S → C)
    (t : IsTransactional o staged live) where
  pub read-alike :
      (w : S)
      → (staged (read_sections o.ubus w).1 ≡ staged w) × (live (read_sections o.ubus w).1 ≡ live w)
  unfolding read_sections ◌==◌
  read-alike w = elim (Result-cases (o.ubus.call true get_request w).0) [
    | inl (d, h) ↦ rw h (t.by_read w, t.by_write true get_request w refl)
    | inr (f, h) ↦ rw h (t.by_read w, t.by_write true get_request w refl)
  ]

  create_section-live : (r : DnsRecord) (w : S) → live (create_section o r w).1 ≡ live w
  unfolding create_section section_of add_request ◌==◌
  create_section-live r w =
      let request = add_request o (canonical r) (o.rand_text w).0 in
      let kept = t.by_write true request (o.rand_text w).1 refl ∙ (t.by_random w).1 in
      elim (Result-cases (o.ubus.call true request (o.rand_text w).1).0) [
        | inr (f, e) ↦ rw e kept
        | inl (d, e) ↦ elim (Bool-cases (is_empty d.section)) [
          | inl none_given ↦ rw (e, none_given) kept
          | inr given ↦ rw (e, given) kept
        ]
      ]

  live-IsKept : (i : SectionIndex) (w0 : S) → IsKept o i (λ w. live w ≡ live w0)
  unfolding set_owner ◌==◌
  live-IsKept i w0 = record {
    by_delete = λ section w own h. t.by_write false _ w refl ∙ h;
    by_adoption = λ section w unowned enabled h. t.by_write false _ w refl ∙ h;
    by_creation = λ r w v h. create_section-live r w ∙ h;
  }

  -- Nothing goes live while a pass runs.
  pub reconcile-live :
      (remove additions : List DnsRecord) (i : SectionIndex) (w : S)
      → live (reconcile o remove additions (record { world = w; index = i })).1.world ≡ live w
  reconcile-live remove additions i w =
      reconcile-Holds o i (λ x. live x ≡ live w) remove additions w (live-IsKept i w) refl

  pub finish-live :
      (changed : ℕ) (skipped s : List Skip) (w : S)
      → (changed ≡ 0 → staged w ≡ live w)
      → (finish o (changed, skipped) w).0 ≡ ok s
      → (s ≡ skipped)
        × (live (finish o (changed, skipped) w).1 ≡ staged w)
        × (staged (finish o (changed, skipped) w).1 ≡ staged w)
  unfolding finish
  finish-live changed skipped s w idle e = elim (Bool-cases (eqb changed 0)) [
    | inl zero_changed ↦
        rw zero_changed
          (cc (rw zero_changed at e), sym (idle ((eqb_iff changed 0).0 zero_changed)), refl)
    | inr some_changed ↦ elim (Result-cases (o.ubus.call false apply_request w).0) [
      | inl (d, h) ↦
          let f = rw (some_changed, h) at e in
          rw (some_changed, h) (cc f, (t.by_apply w d h).0, (t.by_apply w d h).1)
      | inr (x, h) ↦ elim (Bool-cases (is_status err_no_data x)) [
        | inr other ↦ cc (rw (some_changed, h, other) at e)
        | inl no_data ↦
            let f = rw (some_changed, h, no_data) at e in
            let (alike, l, k) = t.by_refusal w x h no_data in
            rw (some_changed, h, no_data) (cc f, l ∙ sym alike, k)
      ]
    ]
  ]

  pub finish-failed :
      (changed : ℕ) (skipped : List Skip) (w : S) (f : Fault)
      → (finish o (changed, skipped) w).0 ≡ err f
      → (e : Error) × (f ≡ failed applying e)
  unfolding finish
  finish-failed changed skipped w f e = elim (Bool-cases (eqb changed 0)) [
    | inl none_changed ↦ cc (rw none_changed at e)
    | inr some_changed ↦ elim (Result-cases (o.ubus.call false apply_request w).0) [
      | inl (d, h) ↦ cc (rw (some_changed, h) at e)
      | inr (x, h) ↦ elim (Bool-cases (is_status err_no_data x)) [
        | inl no_data ↦ cc (rw (some_changed, h, no_data) at e)
        | inr other ↦ (x, cc (rw (some_changed, h, other) at e))
      ]
    ]
  ]
