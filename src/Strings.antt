-- ===== src/Strings.antt =====
-- The functions of Go's `strings` and `unicode` that the program calls, on text as a list of code
-- points. A text that reaches the program is valid UTF-8: encoding/json decodes into nothing else.
pub mod Laws
pub mod Trim
pub mod Decimal
use Prim.Native.Char.{code}
use Prim.Native.String.{String}
use external_dns_openwrt_nex.Prelude.{
  ℕ, zero, suc, ◌+◌, ◌≤◌, Bool, true, false, ◌&&◌, ◌||◌, List, [], ◌∷◌, ◌++◌, map, ltb, leb, eqb,
  is_empty, if◌then◌else◌, ◌≡◌, ◌≢◌,
}

abbrev pub Str : Type 0
Str = List ℕ

-- A text literal.
abbrev pub codes : String → Str
codes String.[] = []
codes (String.◌∷◌ c s) = code c ∷ codes s

-- `==` on texts.
infix 50 ◌==◌
unfoldable pub ◌==◌ : Str → Str → Bool
[] == [] = true
[] == (_ ∷ _) = false
(_ ∷ _) == [] = false
(a ∷ s) == (b ∷ t) = eqb a b && s == t

-- `unicode.IsSpace`.
unfoldable pub is_space : ℕ → Bool
is_space r =
    leb 9 r && leb r 13
    || eqb r 32
    || eqb r 0x85
    || eqb r 0xa0
    || eqb r 0x1680
    || leb 0x2000 r && leb r 0x200a
    || eqb r 0x2028
    || eqb r 0x2029
    || eqb r 0x202f
    || eqb r 0x205f
    || eqb r 0x3000

-- `unicode.ToLower`, over the part of its table that lies past ASCII.
unfoldable pub lower_by : (ℕ → ℕ) → ℕ → ℕ
lower_by wide r = if ltb r 128 then (if leb 65 r && leb r 90 then r + 32 else r) else wide r

-- Unicode's table of simple lower case mappings, which the program links and this library does not
-- repeat. What is mapped stays as it is, and mapping makes and removes neither a dot nor a space.
pub record CaseTable : Type 0 where
  pub wide : ℕ → ℕ
  pub wide_idem : (r : ℕ) → 128 ≤ r → lower_by wide (wide r) ≡ wide r
  pub wide_dot : (r : ℕ) → 128 ≤ r → wide r ≢ 46
  pub wide_space : (r : ℕ) → 128 ≤ r → is_space (wide r) ≡ is_space r

module _ ⦃u : CaseTable⦄ where
  unfoldable pub lower : ℕ → ℕ
  unfolding lower_by
  lower r = lower_by u.wide r

  -- `strings.ToLower`.
  unfoldable pub to_lower : Str → Str
  unfolding lower
  to_lower s = map lower s

-- `strings.TrimSpace`, from the left and from the right.
pub trim_left : Str → Str
trim_left [] = []
trim_left (c ∷ s) = let rest = trim_left s in if is_space c then rest else c ∷ s

pub trim_right : Str → Str
trim_right [] = []
trim_right (c ∷ s) = let rest = trim_right s in if is_space c && is_empty rest then [] else c ∷ rest

unfoldable pub trim_space : Str → Str
unfolding trim_left trim_right is_space
trim_space s = trim_right (trim_left s)

-- `strings.TrimSuffix(s, ".")`.
unfoldable pub trim_dot : Str → Str
trim_dot [] = []
trim_dot (c ∷ []) = if eqb c b'.' then [] else c ∷ []
trim_dot (c ∷ d ∷ s) = c ∷ trim_dot (d ∷ s)

-- `strings.HasPrefix`.
unfoldable pub has_prefix : Str → Str → Bool
has_prefix s [] = true
has_prefix [] (_ ∷ _) = false
has_prefix (c ∷ s) (d ∷ p) = eqb c d && has_prefix s p

-- `strings.Split(s, ".")`, with the label read so far and those that follow.
abbrev pub prepend : ℕ → List Str → List Str
prepend c [] = (c ∷ []) ∷ []
prepend c (l ∷ ls) = (c ∷ l) ∷ ls

unfoldable pub split_dots : Str → List Str
split_dots [] = [] ∷ []
split_dots (c ∷ s) = if eqb c b'.' then [] ∷ split_dots s else prepend c (split_dots s)

-- `len` of a text counts the bytes of its UTF-8.
unfoldable pub rune_len : ℕ → ℕ
rune_len r = if ltb r 0x80 then 1 else if ltb r 0x800 then 2 else if ltb r 0x10000 then 3 else 4

unfoldable pub len : Str → ℕ
unfolding rune_len
len [] = 0
len (c ∷ s) = rune_len c + len s

-- `strings.Join`.
unfoldable pub join : Str → List Str → Str
join sep [] = []
join sep (s ∷ []) = s
join sep (s ∷ t ∷ rest) = s ++ sep ++ join sep (t ∷ rest)

-- `s[:n]`, of a text of ASCII.
abbrev pub take : ℕ → Str → Str
take zero s = []
take (suc n) [] = []
take (suc n) (c ∷ s) = c ∷ take n s
