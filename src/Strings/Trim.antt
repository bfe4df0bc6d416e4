-- ===== src/Strings/Trim.antt =====
-- Trimming: what it leaves, and what it leaves alone.
use external_dns_openwrt_nex.Prelude.{
  any, ◌∙◌, suc, ◌≤◌, Bool, true, false, not, ◌&&◌, [], ◌∷◌, ◌++◌, ◌≡◌, refl, ap, arith, eqb,
  length,
}
use external_dns_openwrt_nex.Strings.{
  Str, CaseTable, is_space, to_lower, trim_left, trim_right, trim_space, trim_dot,
}
use external_dns_openwrt_nex.Strings.Laws.{is_space-lower}

-- No space in front.
abbrev pub bare_start : Str → Bool
bare_start [] = true
bare_start (c ∷ s) = not (is_space c)

-- Neither a space nor a dot at the end.
abbrev pub bare_end : Str → Bool
bare_end [] = true
bare_end (c ∷ []) = not (is_space c) && not (eqb c b'.')
bare_end (c ∷ d ∷ s) = bare_end (d ∷ s)

pub trim_left_bare : (s : Str) → bare_start (trim_left s) ≡ true
unfolding trim_left
trim_left_bare [] = refl
trim_left_bare (c ∷ s) = ground (arith, trim_left_bare s)

pub trim_right_bare : (s : Str) → bare_start s ≡ true → bare_start (trim_right s) ≡ true
unfolding trim_right
trim_right_bare [] h = refl
trim_right_bare (c ∷ s) h = ground arith

pub trim_dot_bare : (s : Str) → bare_start s ≡ true → bare_start (trim_dot s) ≡ true
unfolding trim_dot
trim_dot_bare [] h = refl
trim_dot_bare (c ∷ []) h = ground arith
trim_dot_bare (c ∷ d ∷ s) h = h

pub trim_left_id : (s : Str) → bare_start s ≡ true → trim_left s ≡ s
unfolding trim_left
trim_left_id [] h = refl
trim_left_id (c ∷ s) h = ground arith

pub trim_right_id : (s : Str) → bare_end s ≡ true → trim_right s ≡ s
unfolding trim_right
trim_right_id [] h = refl
trim_right_id (c ∷ []) h = ground arith
trim_right_id (c ∷ d ∷ s) h = ground (arith, trim_right_id (d ∷ s) h)

pub trim_dot_id : (s : Str) → bare_end s ≡ true → trim_dot s ≡ s
unfolding trim_dot
trim_dot_id [] h = refl
trim_dot_id (c ∷ []) h = ground arith
trim_dot_id (c ∷ d ∷ s) h = ap (λ (t : Str). c ∷ t) (trim_dot_id (d ∷ s) h)

module _ ⦃u : CaseTable⦄ where
  pub bare_start-to_lower : (s : Str) → bare_start (to_lower s) ≡ bare_start s
  unfolding to_lower
  bare_start-to_lower [] = refl
  bare_start-to_lower (c ∷ s) = ap not (is_space-lower c)

  pub length-to_lower : (s : Str) → length (to_lower s) ≡ length s
  unfolding to_lower
  length-to_lower [] = refl
  length-to_lower (c ∷ s) = ap suc (length-to_lower s)

pub trim_space_bare : (s : Str) → bare_start (trim_space s) ≡ true
unfolding trim_space
trim_space_bare s = trim_right_bare (trim_left s) (trim_left_bare s)

pub trim_space_id : (s : Str) → bare_start s ≡ true → bare_end s ≡ true → trim_space s ≡ s
unfolding trim_space
trim_space_id s h k = ap trim_right (trim_left_id s h) ∙ trim_right_id s k

pub length-trim_left : (s : Str) → length (trim_left s) ≤ length s
unfolding trim_left
length-trim_left [] = omega arith
length-trim_left (c ∷ s) = ground (arith, length-trim_left s)

pub length-trim_right : (s : Str) → length (trim_right s) ≤ length s
unfolding trim_right
length-trim_right [] = omega arith
length-trim_right (c ∷ s) = ground (arith, length-trim_right s)

-- Trimming a text that ends in a dot takes the dot, or more.
pub length-trim_dot : (s : Str) → length (trim_dot s) ≤ length s
unfolding trim_dot
length-trim_dot [] = omega arith
length-trim_dot (c ∷ []) = ground arith
length-trim_dot (c ∷ d ∷ s) = omega (arith, length-trim_dot (d ∷ s))

-- A text without spaces stays as it is.
no_space-bare : (s : Str) → any is_space s ≡ false → bare_start s ≡ true
no_space-bare [] h = refl
no_space-bare (c ∷ s) h = ground arith

no_space-right : (s : Str) → any is_space s ≡ false → trim_right s ≡ s
unfolding trim_right
no_space-right [] h = refl
no_space-right (c ∷ s) h = ground (arith, no_space-right s)

pub trim_space-no_space : (s : Str) → any is_space s ≡ false → trim_space s ≡ s
unfolding trim_space
trim_space-no_space s h = ap trim_right (trim_left_id s (no_space-bare s h)) ∙ no_space-right s h

pub trim_dot-dot : (s : Str) → trim_dot (s ++ b'.' ∷ []) ≡ s
unfolding trim_dot
trim_dot-dot [] = refl
trim_dot-dot (c ∷ []) = refl
trim_dot-dot (c ∷ d ∷ s) = ap (λ (t : Str). c ∷ t) (trim_dot-dot (d ∷ s))
