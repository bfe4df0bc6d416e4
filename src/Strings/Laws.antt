-- ===== src/Strings/Laws.antt =====
-- Laws of the text functions: equality, trimming and lower case.
use external_dns_openwrt_nex.Prelude.{
  ℕ, true, false, [], ◌∷◌, ◌≡◌, ◌≢◌, ◌↔◌, inl, inr, refl, arith, eqb, ltb, Bool-cases,
}
use external_dns_openwrt_nex.Strings.{Str, ◌==◌, CaseTable, is_space, lower, to_lower}

pub eq_iff : (s t : Str) → ((s == t) ≡ true) ↔ (s ≡ t)
unfolding ◌==◌
eq_iff [] [] = (λ h. refl, λ h. refl)
eq_iff [] (b ∷ t) = (λ h. cc, λ h. cc)
eq_iff (a ∷ s) [] = (λ h. cc, λ h. cc)
eq_iff (a ∷ s) (b ∷ t) = ground (arith, eq_iff s t)

pub eq_refl : (s : Str) → (s == s) ≡ true
eq_refl s = (eq_iff s s).1 refl

pub ne_of_false : (s t : Str) → (s == t) ≡ false → s ≢ t
ne_of_false s t h e = ground (arith, eq_iff s t)

module _ ⦃u : CaseTable⦄ where
  pub lower-lower : (r : ℕ) → lower (lower r) ≡ lower r
  unfolding lower
  lower-lower r = ground (arith, u.wide_idem r)

  pub lower-eq-dot : (r : ℕ) → (eqb (lower r) b'.') ≡ eqb r b'.'
  unfolding lower
  lower-eq-dot r = ground (arith, u.wide_dot r)

  pub is_space-lower : (r : ℕ) → is_space (lower r) ≡ is_space r
  unfolding lower
  is_space-lower r = elim (Bool-cases (ltb r 128)) [
    | inl h ↦ unfold is_space in ground arith
    | inr h ↦ rw h (u.wide_space r (ground arith))
  ]

  pub to_lower-to_lower : (s : Str) → to_lower (to_lower s) ≡ to_lower s
  unfolding to_lower
  to_lower-to_lower [] = refl
  to_lower-to_lower (c ∷ s) = cc (lower-lower c, to_lower-to_lower s)
