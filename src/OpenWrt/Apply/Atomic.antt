-- ===== src/OpenWrt/Apply/Atomic.antt =====
-- pkg/openwrt/openwrt.go: a change set goes live as a whole, or not at all.
use external_dns_openwrt_nex.Prelude.{
  ℕ, false, ◌&&◌, List, ◌≡◌, sym, ap, ◌∙◌, inl, inr, ◌⊎◌, is_empty, Bool-cases,
}
use external_dns_openwrt_nex.OpenWrt.Apply.Counted.{reconcile-zero}
use external_dns_openwrt_nex.OpenWrt.Apply.{
  reading, Pass, Skip, Fault, failed, applying, reconcile, finish, apply_body, apply_dns_records,
}
use external_dns_openwrt_nex.OpenWrt.Types.{DnsRecord}
use external_dns_openwrt_nex.Strings.{Str, CaseTable}
use external_dns_openwrt_nex.Exec.{Result, ok, err, Result-cases}
use external_dns_openwrt_nex.GoMap.{GoMap}
use external_dns_openwrt_nex.Ubus.Errors.{Error}
use external_dns_openwrt_nex.OpenWrt.Sections.{OpenWrt, read_sections}
use external_dns_openwrt_nex.OpenWrt.Index.{new_section_index}
use external_dns_openwrt_nex.OpenWrt.Apply.Transaction.{
  IsTransactional, read-alike, reconcile-live, finish-live, finish-failed,
}

module _ ⦃u : CaseTable⦄ {S : Type 0} (o : OpenWrt S) where
  -- The pass of `apply_body`, on the sections that were read.
  abbrev pub first_pass : GoMap Str DnsRecord → S → Pass S
  first_pass all w = record { world = (read_sections o.ubus w).1; index = new_section_index all }

module _ ⦃u : CaseTable⦄ {S C : Type 0} (o : OpenWrt S) (staged live : S → C)
    (t : IsTransactional o staged live) where
  -- How a change set comes out: it was read, went through and went live, or it failed.
  data Outcome (remove additions : List DnsRecord) (w w' : S)
      : Result Fault (List Skip) → Type 0 where
    published :
        (all : GoMap Str DnsRecord) (changed : ℕ) (skipped : List Skip)
        → (read_sections o.ubus w).0 ≡ ok all
        → (reconcile o remove additions (first_pass o all w)).0 ≡ ok (changed, skipped)
        → live w' ≡ staged (reconcile o remove additions (first_pass o all w)).1.world
        → staged w' ≡ live w'
        → Outcome remove additions w w' (ok skipped)
    broken_off : (f : Fault) → live w' ≡ live w → Outcome remove additions w w' (err f)
    not_applied : (e : Error) → Outcome remove additions w w' (err (failed applying e))

  apply_body-Outcome :
      (remove additions : List DnsRecord) (w : S)
      → staged w ≡ live w
      → Outcome remove additions w
          (apply_body o remove additions w).1
          (apply_body o remove additions w).0
  unfolding apply_body
  apply_body-Outcome remove additions w clean = elim (Result-cases (read_sections o.ubus w).0) [
    | inr (x, h) ↦ rw h (broken_off (failed reading x) (read-alike o staged live t w).1)
    | inl (all, h) ↦
        let p = first_pass o all w in
        let q = (reconcile o remove additions p).1 in
        let kept =
          reconcile-live o staged live t remove additions p.index p.world
          ∙ (read-alike o staged live t w).1 in
        elim (Result-cases (reconcile o remove additions p).0) [
          | inr (f, k) ↦ rw (h, k) (broken_off f kept)
          | inl ((changed, skipped), k) ↦
              let idle : changed ≡ 0 → staged q.world ≡ live q.world = λ z.
                let same : q ≡ p =
                  reconcile-zero o remove additions p skipped (k ∙ ap (λ n. ok (n, skipped)) z) in
                ap (λ x. staged x.world) same
                ∙ (read-alike o staged live t w).0
                ∙ clean
                ∙ sym kept in
              elim (Result-cases (finish o (changed, skipped) q.world).0) [
                | inr (f, l) ↦
                    let (e, is_applying) =
                      finish-failed o staged live t changed skipped q.world f l in
                    rw (h, k, l, is_applying) (not_applied e)
                | inl (s, l) ↦
                    let (same, went_live, still) =
                      finish-live o staged live t changed skipped s q.world idle l in
                    rw (h, k, l, same)
                      (published all changed skipped h k went_live (still ∙ sym went_live))
              ]
        ]
  ]

  -- What a change set that went through has published: all that its pass staged, and nothing else.
  abbrev pub Published : List DnsRecord → List DnsRecord → List Skip → S → S → Type 0
  Published remove additions skipped w w' =
      (all : GoMap Str DnsRecord) × (changed : ℕ) × ((read_sections o.ubus w).0 ≡ ok all)
      × ((reconcile o remove additions (first_pass o all w)).0 ≡ ok (changed, skipped))
      × (live w' ≡ staged (reconcile o remove additions (first_pass o all w)).1.world)
      × (staged w' ≡ live w')

  Outcome-ok :
      (remove additions : List DnsRecord) (w w' : S) (r : Result Fault (List Skip)) (s : List Skip)
      → Outcome remove additions w w' r
      → r ≡ ok s
      → Published remove additions s w w'
  Outcome-ok remove additions w w' _ s (published all changed skipped h k l c) e =
      let same : skipped ≡ s = cc e in (all, changed, h, k ∙ ap (λ x. ok (changed, x)) same, l, c)
  Outcome-ok remove additions w w' _ s (broken_off f l) e = cc e
  Outcome-ok remove additions w w' _ s (not_applied x) e = cc e

  Outcome-err :
      (remove additions : List DnsRecord) (w w' : S) (r : Result Fault (List Skip)) (f : Fault)
      → Outcome remove additions w w' r
      → r ≡ err f
      → (live w' ≡ live w) ⊎ ((e : Error) × (f ≡ failed applying e))
  Outcome-err remove additions w w' _ f (published all changed skipped h k l c) e = cc e
  Outcome-err remove additions w w' _ f (broken_off g l) e = inl l
  Outcome-err remove additions w w' _ f (not_applied x) e = inr (x, cc e)

  -- On a router that publishes what is staged by apply only, and with nothing staged before: a change
  -- set that asks for something and is answered without an error has read the sections and gone
  -- through both loops, what these staged is live as a whole, and nothing is left staged.
  pub apply_dns_records-publishes :
      (remove additions : List DnsRecord) (w : S) (skipped : List Skip)
      → staged w ≡ live w
      → (is_empty remove && is_empty additions) ≡ false
      → (apply_dns_records o remove additions w).0 ≡ ok skipped
      → Published remove additions skipped w (apply_dns_records o remove additions w).1
  unfolding apply_dns_records
  apply_dns_records-publishes remove additions w skipped clean asked e =
      elim (Result-cases (apply_body o remove additions w).0) [
        | inr (f, h) ↦ cc (rw (asked, h) at e)
        | inl (s, h) ↦
            rw (asked, h)
              (Outcome-ok remove additions w (apply_body o remove additions w).1
                (apply_body o remove additions w).0 skipped
                (apply_body-Outcome remove additions w clean) (h ∙ rw (asked, h) at e))
      ]

  -- On a router that publishes what is staged by apply only, and with nothing staged before: after a
  -- change set that is answered with an error nothing is left staged, and what is live is as it was
  -- before, unless the error is the apply's own.
  pub apply_dns_records-failed :
      (remove additions : List DnsRecord) (w : S) (f : Fault)
      → staged w ≡ live w
      → (apply_dns_records o remove additions w).0 ≡ err f
      → let w' = (apply_dns_records o remove additions w).1 in
        (staged w' ≡ live w') × ((live w' ≡ live w) ⊎ ((e : Error) × (f ≡ failed applying e)))
  unfolding apply_dns_records
  apply_dns_records-failed remove additions w f clean e =
      elim (Bool-cases (is_empty remove && is_empty additions)) [
        | inl nothing_asked ↦ cc (rw nothing_asked at e)
        | inr asked ↦ elim (Result-cases (apply_body o remove additions w).0) [
          | inl (s, h) ↦ cc (rw (asked, h) at e)
          | inr (g, h) ↦
              let w1 = (apply_body o remove additions w).1 in
              let (dropped, still) = t.by_reset w1 in
              let same : g ≡ f = cc (rw (asked, h) at e) in
              rw (asked, h)
                (
                  dropped ∙ sym still,
                  elim (Outcome-err remove additions w w1 (apply_body o remove additions w).0 f
                      (apply_body-Outcome remove additions w clean) (h ∙ ap err same)) [
                        | inl unchanged ↦ inl (still ∙ unchanged)
                        | inr own ↦ inr own
                      ],
                )
        ]
      ]
