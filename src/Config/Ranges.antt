-- ===== src/Config/Ranges.antt =====
-- pkg/config/config.go: the integers that `setLeaf` reads.
use external_dns_openwrt_nex.Prelude.{
  ℕ, zero, suc, Bool, [], ◌∷◌, Option, none, some, ◌≡◌, ap, subst, arith, inl, inr, leb, eqb,
  Bool-cases, ◌<◌, some-inj, ◌-◌, ◌^◌,
}
use Prim.Native.Nat.{◌%◌, ◌^◌}
use external_dns_openwrt_nex.Strings.{Str}
use external_dns_openwrt_nex.Ubus.Errors.{ℤ, pos, negsuc}
use external_dns_openwrt_nex.Config.{whole, Environment, set_leaf, assign}
use external_dns_openwrt_nex.Config.Parse.{
  parse_int, parse_uint, at_most, positive, negative, residue, wrap,
}

-- The signed integers of one bit more than `v`.
abbrev pub IsInWidth : ℕ → ℤ → Type 0
IsInWidth v (pos n) = n < 2 ^ v
IsInWidth v (negsuc n) = n < 2 ^ v

positive-IsInWidth :
    (o : Option ℕ) (z : ℤ) → positive (at_most (2 ^ 63 - 1) o) ≡ some z → IsInWidth 63 z
positive-IsInWidth none z h = cc
positive-IsInWidth (some n) z h = elim (Bool-cases (leb n (2 ^ 63 - 1))) [
  | inl fits ↦ subst (IsInWidth 63) (some-inj (rw fits at h)) (ground (arith, fits))
  | inr too_large ↦ cc (rw too_large at h)
]

negative-IsInWidth :
    (o : Option ℕ) (z : ℤ) → negative (at_most (2 ^ 63) o) ≡ some z → IsInWidth 63 z
negative-IsInWidth none z h = cc
negative-IsInWidth (some zero) z h = subst (IsInWidth 63) (some-inj h) (omega arith)
negative-IsInWidth (some (suc n)) z h = elim (Bool-cases (leb (suc n) (2 ^ 63))) [
  | inl fits ↦ subst (IsInWidth 63) (some-inj (rw fits at h)) (ground (arith, fits))
  | inr too_large ↦ cc (rw too_large at h)
]

parse_int-IsInWidth : (s : Str) (z : ℤ) → parse_int s ≡ some z → IsInWidth 63 z
unfolding parse_int
parse_int-IsInWidth [] z h = cc
parse_int-IsInWidth (c ∷ s) z h = elim (Bool-cases (eqb c b'+')) [
  | inl plus ↦ positive-IsInWidth (parse_uint s) z (rw plus at h)
  | inr other ↦ elim (Bool-cases (eqb c b'-')) [
    | inl minus ↦ negative-IsInWidth (parse_uint s) z (rw (other, minus) at h)
    | inr digit ↦ positive-IsInWidth (parse_uint (c ∷ s)) z (rw (other, digit) at h)
  ]
]

wrap-fits : (z : ℤ) → IsInWidth 63 z → wrap 64 z ≡ z
unfolding wrap residue
wrap-fits (pos n) h = let small : n % 2 ^ 64 ≡ n = omega (arith, h) in rw small (ground (arith, h))
wrap-fits (negsuc n) h =
    let small : n % 2 ^ 64 ≡ n = omega (arith, h) in
    let back : 2 ^ 64 - 1 - (2 ^ 64 - 1 - n) ≡ n = omega (arith, h) in
    rw (small, back) (ground (arith, h))

assign-whole :
    ⦃env : Environment⦄ (key raw : Str) (old z : ℤ)
    → parse_int raw ≡ some z
    → assign key raw (whole 64 old) ≡ (none, whole 64 z)
unfolding assign
assign-whole ⦃env⦄ key raw old z parsed =
    rw (parsed, assign)
      (ap (λ x. (none, whole 64 x)) (wrap-fits z (parse_int-IsInWidth raw z parsed)))

-- A field of 64 bits, which `int` is, gets exactly the integer that its variable stands for, and that
-- lies between -2^63 and 2^63 - 1.
pub set_leaf-whole :
    ⦃env : Environment⦄ (key raw : Str) (required : Bool) (old z : ℤ)
    → env.lookup_env key ≡ some raw
    → parse_int raw ≡ some z
    → (set_leaf key required (whole 64 old) ≡ (none, whole 64 z)) × IsInWidth 63 z
unfolding set_leaf
set_leaf-whole ⦃env⦄ key raw required old z set parsed =
    (rw (set, set_leaf) (assign-whole key raw old z parsed), parse_int-IsInWidth raw z parsed)
