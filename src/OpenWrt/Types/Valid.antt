-- ===== src/OpenWrt/Types/Valid.antt =====
-- pkg/openwrt/types.go, `Validate`, `tooLong` and `breaksDnsmasq`: which records pass.
use external_dns_openwrt_nex.Prelude.{
  inr, inl, refl, true, Bool-cases, eqb, length, ◌≢◌, ℕ, ◌≤◌, ◌<◌, ◌≡◌, ◌↔◌, arith, List, [], ◌∷◌,
  All,
}
use external_dns_openwrt_nex.OpenWrt.Types.{
  is_empty, is_v4, ltb, any, false, none, DnsRecord, canonical, validate, too_long, breaks_dnsmasq,
  record_type_a,
}
use external_dns_openwrt_nex.Strings.Laws.{eq_iff}
use external_dns_openwrt_nex.Strings.{prepend, Str, CaseTable, split_dots, len}

-- A character that dnsmasq takes as a part of a name.
abbrev pub IsPlain : ℕ → Type 0
IsPlain c = (32 < c) × (c < 127) × (c ≢ 44) × (c ≢ 34) × (c ≢ 35)

-- A length that DNS allows: 253 characters, and 63 in each label.
abbrev pub IsShort : Str → Type 0
IsShort name = (length name ≤ 253) × All (λ (label : Str). length label ≤ 63) (split_dots name)

breaks_dnsmasq_iff : (c : ℕ) → (breaks_dnsmasq c ≡ false) ↔ IsPlain c
unfolding breaks_dnsmasq
breaks_dnsmasq_iff c = ground arith

IsPlain-iff : (s : Str) → (any breaks_dnsmasq s ≡ false) ↔ All IsPlain s
IsPlain-iff [] = (λ h. tt, λ h. refl)
IsPlain-iff (c ∷ s) = ground (arith, breaks_dnsmasq_iff c, IsPlain-iff s)

len-plain : (s : Str) → All IsPlain s → len s ≡ length s
unfolding len
len-plain [] h = refl
len-plain (c ∷ s) h = ground (arith, len-plain s h.1)

prepend-IsPlain :
    (c : ℕ) (ls : List Str) → IsPlain c → All (All IsPlain) ls → All (All IsPlain) (prepend c ls)
prepend-IsPlain c [] p h = ((p, tt), tt)
prepend-IsPlain c (l ∷ ls) p h = ((p, h.0), h.1)

split_dots-IsPlain : (s : Str) → All IsPlain s → All (All IsPlain) (split_dots s)
unfolding split_dots
split_dots-IsPlain [] h = (tt, tt)
split_dots-IsPlain (c ∷ s) h = elim (Bool-cases (eqb c 46)) [
  | inl dot ↦ rw dot (tt, split_dots-IsPlain s h.1)
  | inr other ↦ rw other (prepend-IsPlain c (split_dots s) h.0 (split_dots-IsPlain s h.1))
]

labels_iff :
    (ls : List Str)
    → All (All IsPlain) ls
    → (any (λ label. ltb 63 (len label)) ls ≡ false) ↔ All (λ (label : Str). length label ≤ 63) ls
labels_iff [] h = (λ k. tt, λ k. refl)
labels_iff (l ∷ ls) h = ground (arith, len-plain l h.0, labels_iff ls h.1)

too_long_iff : (s : Str) → All IsPlain s → (too_long s ≡ false) ↔ IsShort s
unfolding too_long
too_long_iff s h = ground (arith, len-plain s h, labels_iff (split_dots s) (split_dots-IsPlain s h))

empty_iff : (s : Str) → (is_empty s ≡ false) ↔ (s ≢ [])
empty_iff [] = (λ h. cc, λ h. absurd (h refl))
empty_iff (c ∷ s) = (λ h e. cc, λ h. refl)

module _ ⦃u : CaseTable⦄ where
  -- What `Validate` asks of the canonical spelling of a record.
  pub record IsWritable (r : DnsRecord) : Type 0 where
    pub name_given : (canonical r).name ≢ []
    pub value_given : (canonical r).value ≢ []
    pub name_plain : All IsPlain (canonical r).name
    pub value_plain : All IsPlain (canonical r).value
    pub name_short : IsShort (canonical r).name
    pub value_short : IsShort (canonical r).value
    pub address : r.type ≡ record_type_a → is_v4 (canonical r).value ≡ true

  -- `validate` passes exactly the records that are writable.
  pub validate_iff : (r : DnsRecord) → (validate r ≡ none) ↔ IsWritable r
  unfolding validate
  validate_iff r =
      let c = canonical r in
      (
        λ h. record {
          name_given = ground (arith, empty_iff c.name);
          value_given = ground (arith, empty_iff c.value);
          name_plain = ground (arith, IsPlain-iff c.name);
          value_plain = ground (arith, IsPlain-iff c.value);
          name_short = ground (arith, IsPlain-iff c.name, too_long_iff c.name);
          value_short = ground (arith, IsPlain-iff c.value, too_long_iff c.value);
          address = λ e. ground (arith, eq_iff r.type record_type_a);
        },
        λ w. ground (
          arith,
          empty_iff c.name,
          empty_iff c.value,
          IsPlain-iff c.name,
          IsPlain-iff c.value,
          too_long_iff c.name,
          too_long_iff c.value,
          eq_iff r.type record_type_a,
        ),
      )
