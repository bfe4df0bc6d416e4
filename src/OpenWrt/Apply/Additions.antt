-- ===== src/OpenWrt/Apply/Additions.antt =====
-- pkg/openwrt/openwrt.go: what the additions of a change set leave in the index.
use external_dns_openwrt_nex.Prelude.{
  ℕ, ◌+◌, false, List, [], ◌∷◌, ◌++◌, Option, none, some, ◌≡◌, refl, ◌∙◌, subst, arith, inl, inr,
  All,
}
use mathlib.Core.List.{Memᴰ}
use mathlib.Core.List.Memᴰ
use external_dns_openwrt_nex.Strings.{Str, CaseTable}
use external_dns_openwrt_nex.Exec.{ok, Result-cases}
use external_dns_openwrt_nex.OpenWrt.Types.{DnsRecord, key, validate}
use external_dns_openwrt_nex.OpenWrt.Sections.{OpenWrt}
use external_dns_openwrt_nex.OpenWrt.Index.{at_key}
use external_dns_openwrt_nex.OpenWrt.Apply.{Pass, Skip, Reason, add_record, add_all, skip_list}
use external_dns_openwrt_nex.OpenWrt.Apply.Removals.{has_key}
use external_dns_openwrt_nex.OpenWrt.Apply.Added.{
  IsStable, Added, lacks, add_record-Added, add_record-valid, Added-other, Added-keeps, Added-has,
}

module _ ⦃u : CaseTable⦄ where
  -- The records are valid.
  abbrev pub AllValid : List DnsRecord → Type 0
  AllValid = All (λ r. validate r ≡ none)

  module _ {S : Type 0} (o : OpenWrt S) where
    -- A record of the additions has a section of the owner, or a reason among the skips.
    pub data Settled (skipped : List Skip) (p : Pass S) (r : DnsRecord) : Type 0 where
      has_section : lacks o (key r) p ≡ false → Settled skipped p r
      has_reason :
          (reason : Reason)
          → Memᴰ (record { dns = r; reason = reason }) skipped
          → Settled skipped p r

    pub record Additions (rs : List DnsRecord) (skipped skipped' : List Skip) (p p' : Pass S)
        : Type 0 where
      pub valid : AllValid rs
      pub settled : All (Settled skipped' p') rs
      pub kept : (j : Str) → lacks o j p ≡ false → lacks o j p' ≡ false
      pub others : (j : Str) → has_key j rs ≡ false → at_key p'.index j ≡ at_key p.index j
      pub longer : (x : Skip) → Memᴰ x skipped → Memᴰ x skipped'

    Added-Settled :
        (r : DnsRecord) (p p' : Pass S) (why : Option Reason) (skipped : List Skip)
        → IsStable r
        → Added o r p p' why
        → Settled (skipped ++ skip_list r why) p' r
    Added-Settled r p p' none skipped stable a = has_section (Added-has o r p p' stable a)
    Added-Settled r p p' (some reason) skipped stable a =
        has_reason reason (Memᴰ.append_right skipped (Memᴰ.head refl))

    Settled-later :
        (r : DnsRecord) (p p' : Pass S) (skipped skipped' : List Skip)
        → ((j : Str) → lacks o j p ≡ false → lacks o j p' ≡ false)
        → ((x : Skip) → Memᴰ x skipped → Memᴰ x skipped')
        → Settled skipped p r
        → Settled skipped' p' r
    Settled-later r p p' skipped skipped' kept longer (has_section h) = has_section (kept (key r) h)
    Settled-later r p p' skipped skipped' kept longer (has_reason reason m) =
        has_reason reason (longer (record { dns = r; reason = reason }) m)

    pub add_all-Additions :
        (rs : List DnsRecord) (n : ℕ) (skipped : List Skip) (p : Pass S) (m : ℕ)
        (skipped' : List Skip)
        → All IsStable rs
        → (add_all o rs n skipped p).0 ≡ ok (m, skipped')
        → Additions rs skipped skipped' p (add_all o rs n skipped p).1
    unfolding add_all
    add_all-Additions [] n skipped p m skipped' stable e = record {
      valid = tt;
      settled = tt;
      kept = λ j h. h;
      others = λ j h. refl;
      longer = λ x h. let f : skipped ≡ skipped' = cc e in subst (Memᴰ x) f h;
    }
    add_all-Additions (r ∷ rs) n skipped p m skipped' stable e =
        elim (Result-cases (add_record o r p).0) [
          | inr (f, h) ↦ cc (rw h at e)
          | inl ((a, why), h) ↦
              let p' = (add_record o r p).1 in
              let added = add_record-Added o r p a why h in
              let now = skipped ++ skip_list r why in
              let rest = add_all-Additions rs (n + a) now p' m skipped' stable.1 (rw h at e) in
              rw h (record {
                valid = (add_record-valid o r p a why h, rest.valid);
                settled = (
                  Settled-later r p' _ now skipped' rest.kept rest.longer
                      (Added-Settled r p p' why skipped stable.0 added),
                  rest.settled,
                );
                kept = λ j k. rest.kept j (Added-keeps o r p p' why j added k);
                others = λ j k.
                    rest.others j (ground (arith, k))
                    ∙ Added-other o r p p' why j stable.0 (ground (arith, k)) added;
                longer = λ x k. rest.longer x (Memᴰ.append_left (skip_list r why) k);
              })
        ]
