-- ===== src/Status/Names.antt =====
-- pkg/status: the names of objects (`objectName`) and the label of their owner (`ownerValue`).
pub mod Valid
pub mod Labels
pub mod Owner
use external_dns_openwrt_nex.Prelude.{
  ℕ, zero, suc, ◌+◌, Bool, true, false, not, ◌&&◌, ◌||◌, List, [], ◌∷◌, ◌++◌, map, Option, none,
  some, ◌≡◌, refl, sym, ap, ◌∙◌, subst, arith, inl, inr, ◌⊎◌, ◌↔◌, ◌≢◌, ltb, leb, eqb,
  if◌then◌else◌, length, any, keep, is_empty, All, Bool-cases, Option-cases, ◌≤◌, ◌<◌,
}
use external_dns_openwrt_nex.Strings.{take, Str, codes, CaseTable, to_lower, len}

-- `hex.EncodeToString` of `sha256.Sum256`: the parameter of what is hashed. It writes 64 characters,
-- each a digit or a letter from a to f.
abbrev pub is_hex : ℕ → Bool
is_hex c = leb b'0' c && leb c b'9' || leb b'a' c && leb c b'f'

pub record Digest : Type 0 where
  pub hex : Str → Str
  pub hex_length : (s : Str) → length (hex s) ≡ 64
  pub hex_digits : (s : Str) → All (λ c. is_hex c ≡ true) (hex s)

-- `[a-z0-9]`
abbrev pub is_name_char : ℕ → Bool
is_name_char c = leb b'0' c && leb c b'9' || leb b'a' c && leb c b'z'

-- The expression `dns1123` as an automaton: the state is what came last, nothing of the label yet, a
-- letter or digit, or a hyphen.
pub data Seen : Type 0 where
  fresh alnum hyphen : Seen

unfoldable pub match_dns1123 : Seen → Str → Bool
match_dns1123 fresh [] = false
match_dns1123 alnum [] = true
match_dns1123 hyphen [] = false
match_dns1123 fresh (c ∷ s) =
    let next = match_dns1123 alnum s in if is_name_char c then next else false
match_dns1123 alnum (c ∷ s) =
    let next = match_dns1123 alnum s in
    let dashed = match_dns1123 hyphen s in
    let new_label = match_dns1123 fresh s in
    if is_name_char c
    then next
    else if eqb c b'-'
    then dashed
    else if eqb c b'.'
    then new_label
    else false
match_dns1123 hyphen (c ∷ s) =
    let next = match_dns1123 alnum s in
    let dashed = match_dns1123 hyphen s in
    if is_name_char c then next else if eqb c b'-' then dashed else false

unfoldable pub is_dns1123 : Str → Bool
unfolding match_dns1123
is_dns1123 s = match_dns1123 fresh s

-- `objectName`, of a record's type and name.
unfoldable pub object_name : ⦃u : CaseTable⦄ ⦃d : Digest⦄ → Str → Str → Str
unfolding is_dns1123 to_lower
object_name ⦃u⦄ ⦃d⦄ record_type dns_name =
    let name = to_lower (record_type ++ codes "." ++ dns_name) in
    let hashed =
      to_lower record_type ++ codes "-" ++ take 16 (d.hex (record_type ++ codes "|" ++ dns_name)) in
    if leb (len name) 253 && is_dns1123 name then name else hashed

-- `[A-Za-z0-9]` and `[-A-Za-z0-9_.]`
abbrev pub is_label_end : ℕ → Bool
is_label_end c = is_name_char c || leb b'A' c && leb c b'Z'

abbrev pub is_label_char : ℕ → Bool
is_label_char c = is_label_end c || eqb c b'-' || eqb c b'_' || eqb c b'.'

-- Behind the first character: at most 61 of any kind and one that may end a label, or nothing.
unfoldable pub match_label_rest : ℕ → Str → Bool
match_label_rest room [] = false
match_label_rest room (c ∷ []) = is_label_end c
match_label_rest zero (c ∷ e ∷ s) = false
match_label_rest (suc room) (c ∷ e ∷ s) =
    let rest = match_label_rest room (e ∷ s) in if is_label_char c then rest else false

-- The expression `labelValue`.
unfoldable pub is_label_value : Str → Bool
unfolding match_label_rest
is_label_value [] = false
is_label_value (c ∷ []) = is_label_end c
is_label_value (c ∷ e ∷ s) = is_label_end c && match_label_rest 61 (e ∷ s)

unfoldable pub owner_value : ⦃d : Digest⦄ → Str → Str
unfolding is_label_value
owner_value ⦃d⦄ ownership_id =
    if is_empty ownership_id
    then codes "none"
    else if is_label_value ownership_id
    then ownership_id
    else take 16 (d.hex ownership_id)
