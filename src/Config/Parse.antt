-- ===== src/Config/Parse.antt =====
-- Go's `strconv`, as pkg/config/config.go calls it: `ParseBool`, `ParseInt` in base 10 with 64 bits, and
-- the integer that a field of fewer bits keeps of one.
use Prim.Native.Nat.{◌%◌}
use external_dns_openwrt_nex.Prelude.{
  ◌-◌, ◌*◌, ◌^◌, ℕ, zero, suc, ◌+◌, Bool, true, false, ◌&&◌, List, [], ◌∷◌, Option, none, some, ltb,
  leb, eqb, if◌then◌else◌, any,
}
use external_dns_openwrt_nex.Strings.{Str, codes, ◌==◌}
use external_dns_openwrt_nex.Ubus.Errors.{ℤ, pos, negsuc}

abbrev true_texts : List Str
true_texts = codes "1" ∷ codes "t" ∷ codes "T" ∷ codes "true" ∷ codes "TRUE" ∷ codes "True" ∷ []

abbrev false_texts : List Str
false_texts = codes "0" ∷ codes "f" ∷ codes "F" ∷ codes "false" ∷ codes "FALSE" ∷ codes "False" ∷ []

unfoldable pub parse_bool : Str → Option Bool
parse_bool s =
    if any (λ t. t == s) true_texts
    then some true
    else if any (λ t. t == s) false_texts
    then some false
    else none

-- The number that digits stand for, behind one that is read already.
unfoldable pub parse_digits : ℕ → Str → Option ℕ
parse_digits n [] = some n
parse_digits n (c ∷ s) =
    let rest = parse_digits (n * 10 + (c - b'0')) s in
    if leb b'0' c && leb c b'9' then rest else none

unfoldable pub parse_uint : Str → Option ℕ
unfolding parse_digits
parse_uint [] = none
parse_uint (c ∷ s) = parse_digits 0 (c ∷ s)

abbrev pub at_most : ℕ → Option ℕ → Option ℕ
at_most top none = none
at_most top (some n) = if leb n top then some n else none

-- A number with its sign.
abbrev pub positive : Option ℕ → Option ℤ
positive none = none
positive (some n) = some (pos n)

abbrev pub negative : Option ℕ → Option ℤ
negative none = none
negative (some zero) = some (pos 0)
negative (some (suc n)) = some (negsuc n)

unfoldable pub parse_int : Str → Option ℤ
unfolding parse_uint
parse_int [] = none
parse_int (c ∷ s) =
    if eqb c b'+'
    then positive (at_most (2 ^ 63 - 1) (parse_uint s))
    else if eqb c b'-'
    then negative (at_most (2 ^ 63) (parse_uint s))
    else positive (at_most (2 ^ 63 - 1) (parse_uint (c ∷ s)))

-- The number modulo 2 ^ w, below 2 ^ w.
unfoldable pub residue : ℕ → ℤ → ℕ
residue w (pos n) = n % 2 ^ w
residue w (negsuc n) = 2 ^ w - 1 - n % 2 ^ w

-- The signed integer of `w` bits with that residue.
unfoldable pub wrap : ℕ → ℤ → ℤ
unfolding residue
wrap w z = let r = residue w z in if ltb r (2 ^ (w - 1)) then pos r else negsuc (2 ^ w - 1 - r)
