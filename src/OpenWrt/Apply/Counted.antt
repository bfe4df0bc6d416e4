-- ===== src/OpenWrt/Apply/Counted.antt =====
-- pkg/openwrt/openwrt.go: the changes that a pass counts.
use external_dns_openwrt_nex.Prelude.{
  ℕ, ◌+◌, false, List, [], ◌∷◌, ◌++◌, Option, ◌≡◌, refl, sym, ap, ◌∙◌, arith, inl, inr, ◌≢◌, length,
  is_empty, Bool-cases, Option-cases, ◌≤◌,
}
use external_dns_openwrt_nex.Strings.{Str, CaseTable}
use external_dns_openwrt_nex.Exec.{Result, ok, Result-cases}
use external_dns_openwrt_nex.OpenWrt.Types.{DnsRecord, key, validate}
use external_dns_openwrt_nex.OpenWrt.Sections.{OpenWrt}
use external_dns_openwrt_nex.OpenWrt.Index.{owned}
use external_dns_openwrt_nex.OpenWrt.Apply.{
  Pass, Skip, Reason, delete_sections, remove_record, remove_all, set_owner, create_section,
  adoptable, obstacle, adopt, create, add_record, add_all, skip_list, reconcile,
}

ok-inj : {E A : Type 0} {a b : A} → ◌≡◌ {A = Result E A} (ok a) (ok b) → a ≡ b
ok-inj e = cc

no_sections : (l : List Str) → is_empty l ≡ false → length l ≢ 0
no_sections [] h e = cc
no_sections (x ∷ l) h e = omega arith

module _ ⦃u : CaseTable⦄ {S : Type 0} (o : OpenWrt S) where
  remove_record-zero :
      (r : DnsRecord) (p : Pass S) → (remove_record o r p).0 ≡ ok 0 → (remove_record o r p).1 ≡ p
  unfolding remove_record
  remove_record-zero r p e =
      let sections = owned p.index (key r) o.ownership_id in
      elim (Bool-cases (is_empty sections)) [
        | inl absent ↦ rw absent refl
        | inr found ↦ elim (Result-cases (delete_sections o r sections p).0) [
          | inr (f, h) ↦ cc (rw (found, h) at e)
          | inl (d, h) ↦ absurd (no_sections sections found (ok-inj (rw (found, h) at e)))
        ]
      ]

  remove_all-counted :
      (rs : List DnsRecord) (n m : ℕ) (p : Pass S)
      → (remove_all o rs n p).0 ≡ ok m
      → (n ≤ m) × (m ≡ n → (remove_all o rs n p).1 ≡ p)
  unfolding remove_all
  remove_all-counted [] n m p e = (ground (arith, ok-inj e), λ h. refl)
  remove_all-counted (r ∷ rs) n m p e = elim (Result-cases (remove_record o r p).0) [
    | inr (f, h) ↦ cc (rw h at e)
    | inl (a, h) ↦
        let (more, same) = remove_all-counted rs (n + a) m (remove_record o r p).1 (rw h at e) in
        rw h (
          omega arith,
          λ k.
              let none_here : a ≡ 0 = omega arith in
              same (omega arith) ∙ remove_record-zero r p (h ∙ ap ok none_here),
        )
  ]

  adopt-one :
      (r : DnsRecord) (section : Str) (p : Pass S) (n : ℕ) (why : Option Reason)
      → (adopt o r section p).0 ≡ ok (n, why)
      → n ≡ 1
  unfolding adopt
  adopt-one r section p n why e = elim (Result-cases (set_owner o section p.world).0) [
    | inr (f, h) ↦ cc (rw h at e)
    | inl (d, h) ↦ sym (ap (λ x. x.0) (ok-inj (rw h at e)))
  ]

  create-one :
      (r : DnsRecord) (p : Pass S) (n : ℕ) (why : Option Reason)
      → (create o r p).0 ≡ ok (n, why)
      → n ≡ 1
  unfolding create
  create-one r p n why e = elim (Result-cases (create_section o r p.world).0) [
    | inr (f, h) ↦ cc (rw h at e)
    | inl (d, h) ↦ sym (ap (λ x. x.0) (ok-inj (rw h at e)))
  ]

  add_record-zero :
      (r : DnsRecord) (p : Pass S) (why : Option Reason)
      → (add_record o r p).0 ≡ ok (0, why)
      → (add_record o r p).1 ≡ p
  unfolding add_record
  add_record-zero r p why e = elim (Option-cases (validate r)) [
    | inr (i, v) ↦ cc (rw (v, add_record) at e)
    | inl v ↦ elim (Bool-cases (is_empty (owned p.index (key r) o.ownership_id))) [
      | inr own ↦ rw (v, own, add_record) refl
      | inl free ↦ elim (Option-cases (adoptable o p.index r)) [
        | inr (section, a) ↦
            let f = rw (v, free, a, add_record) at e in
            absurd (omega (arith, adopt-one r section p 0 why f))
        | inl a ↦ elim (Option-cases (obstacle o p.index r)) [
          | inr (reason, b) ↦ rw (v, free, a, b, add_record) refl
          | inl b ↦
              let f = rw (v, free, a, b, add_record) at e in
              absurd (omega (arith, create-one r p 0 why f))
        ]
      ]
    ]
  ]

  add_all-counted :
      (rs : List DnsRecord) (n : ℕ) (skipped : List Skip) (m : ℕ) (skipped' : List Skip)
      (p : Pass S)
      → (add_all o rs n skipped p).0 ≡ ok (m, skipped')
      → (n ≤ m) × (m ≡ n → (add_all o rs n skipped p).1 ≡ p)
  unfolding add_all
  add_all-counted [] n skipped m skipped' p e =
      let same : n ≡ m = ap (λ x. x.0) (ok-inj e) in (omega arith, λ h. refl)
  add_all-counted (r ∷ rs) n skipped m skipped' p e = elim (Result-cases (add_record o r p).0) [
    | inr (f, h) ↦ cc (rw h at e)
    | inl ((a, why), h) ↦
        let (more, same) =
          add_all-counted rs (n + a) (skipped ++ skip_list r why) m skipped' (add_record o r p).1
            (rw h at e) in
        rw h (
          omega arith,
          λ k.
              let none_here : a ≡ 0 = omega arith in
              same (omega arith) ∙ add_record-zero r p why (h ∙ ap (λ b. ok (b, why)) none_here),
        )
  ]

  -- A pass that counts no change has made no call, and left the index as it was.
  pub reconcile-zero :
      (remove additions : List DnsRecord) (p : Pass S) (skipped : List Skip)
      → (reconcile o remove additions p).0 ≡ ok (0, skipped)
      → (reconcile o remove additions p).1 ≡ p
  unfolding reconcile
  reconcile-zero remove additions p skipped e = elim (Result-cases (remove_all o remove 0 p).0) [
    | inr (f, h) ↦ cc (rw h at e)
    | inl (n, h) ↦
        let (few, same) = remove_all-counted remove 0 n p h in
        let (more, alike) =
          add_all-counted additions n [] 0 skipped (remove_all o remove 0 p).1 (rw h at e) in
        rw h (alike (omega arith) ∙ same (omega arith))
  ]
