-- ===== src/Strings/Decimal.antt =====
-- Go's `strconv.Itoa` of a number that is not negative.
use external_dns_openwrt_nex.Prelude.{
  ◌-◌, ◌*◌, ℕ, zero, suc, ◌+◌, [], ◌∷◌, ◌++◌, ◌≡◌, refl, sym, ap, ◌∙◌, arith, inl, inr, ltb,
  if◌then◌else◌, Bool-cases, ◌<◌,
}
use Prim.Native.Nat.{◌/◌, ◌%◌}
use external_dns_openwrt_nex.Strings.{Str}

-- The digits, the last from the remainder. The number falls below ten within so many divisions.
digits : ℕ → ℕ → Str
digits zero n = []
digits (suc fuel) n =
    let front = digits fuel (n / 10) in (if ltb n 10 then [] else front) ++ (b'0' + n % 10) ∷ []

unfoldable pub itoa : ℕ → Str
unfolding digits
itoa n = digits (suc n) n

-- The number that the digits stand for.
abbrev pub value : ℕ → Str → ℕ
value seen [] = seen
value seen (c ∷ s) = value (seen * 10 + (c - b'0')) s

value-append :
    (seen : ℕ) (s : Str) (c : ℕ) → value seen (s ++ c ∷ []) ≡ value seen s * 10 + (c - b'0')
value-append seen [] c = refl
value-append seen (d ∷ s) c = value-append (seen * 10 + (d - b'0')) s c

value-digits : (fuel n : ℕ) → n < fuel → value 0 (digits fuel n) ≡ n
unfolding digits
value-digits zero n h = absurd (omega arith)
value-digits (suc fuel) n h = elim (Bool-cases (ltb n 10)) [
  | inl small ↦ rw small (ground arith)
  | inr large ↦
      rw (large, value-append 0 (digits fuel (n / 10)) (b'0' + n % 10))
        (ground (arith, value-digits fuel (n / 10)))
]

-- The digits stand for the number, whatever it is.
pub value-itoa : (n : ℕ) → value 0 (itoa n) ≡ n
unfolding itoa
value-itoa n = value-digits (suc n) n (omega arith)

-- So different numbers are written differently.
pub itoa-inj : (m n : ℕ) → itoa m ≡ itoa n → m ≡ n
itoa-inj m n e = sym (value-itoa m) ∙ ap (value 0) e ∙ value-itoa n
