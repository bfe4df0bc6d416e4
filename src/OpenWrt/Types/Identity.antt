-- ===== src/OpenWrt/Types/Identity.antt =====
-- pkg/openwrt/types.go, `Key`: which records it tells apart.
use external_dns_openwrt_nex.Prelude.{arith, ◌↔◌, [], ◌∷◌, ◌++◌, All, ◌≡◌, ◌≢◌, refl}
use external_dns_openwrt_nex.Strings.{Str, CaseTable}
use external_dns_openwrt_nex.OpenWrt.Types.{DnsRecord, canonical, key}

-- No `|`, which `Key` puts between its parts.
abbrev pub NoBar : Str → Type 0
NoBar = All (λ c. c ≢ 124)

cut_unique :
    (a b s t : Str) → NoBar a → NoBar b → (a ++ (124 ∷ s)) ≡ (b ++ (124 ∷ t)) → (a ≡ b) × (s ≡ t)
cut_unique [] [] s t h k e = (refl, cc)
cut_unique [] (d ∷ b) s t h k e = absurd (k.0 (ground arith))
cut_unique (c ∷ a) [] s t h k e = absurd (h.0 (ground arith))
cut_unique (c ∷ a) (d ∷ b) s t h k e = let r = cut_unique a b s t h.1 k.1 (cc) in (cc r.0, r.1)

module _ ⦃u : CaseTable⦄ where
  -- Two records have one key exactly if their canonical spellings agree in type, name and value,
  -- where neither the types nor the canonical names hold a `|`.
  pub key_iff :
      (r s : DnsRecord)
      → NoBar r.type
      → NoBar s.type
      → NoBar (canonical r).name
      → NoBar (canonical s).name
      → (key r ≡ key s) ↔ (
          (r.type ≡ s.type)
          × ((canonical r).name ≡ (canonical s).name)
          × ((canonical r).value ≡ (canonical s).value))
  unfolding key
  key_iff r s rt st rn sn = (
    λ e.
        let (t, rest) = cut_unique r.type s.type _ _ rt st e in
        let (n, v) = cut_unique (canonical r).name (canonical s).name _ _ rn sn rest in (t, n, v),
    λ (t, n, v). cc,
  )
