-- ===== src/NetIp.antt =====
-- `netip.ParseAddr`, as far as the program looks at its result: whether a text is an address, and
-- of which family.
use external_dns_openwrt_nex.Prelude.{
  ℕ, zero, suc, ◌+◌, ◌-◌, ◌*◌, Bool, true, false, not, ◌&&◌, ◌||◌, [], ◌∷◌, Option, none, some, ltb,
  leb, eqb, is_empty, if◌then◌else◌,
}
use external_dns_openwrt_nex.Strings.{Str}

pub data Family : Type 0 where
  v4 v6 : Family

abbrev is_digit : ℕ → Bool
is_digit c = leb b'0' c && leb c b'9'

-- `parseIPv4Fields`: the value and the digits of the octet being read, and the octets before it.
v4_fields : Str → ℕ → ℕ → ℕ → Bool
v4_fields [] value digits octets = eqb octets 3
v4_fields (c ∷ s) value digits octets =
    let value' = value * 10 + (c - b'0') in
    let in_octet = v4_fields s value' (digits + 1) octets in
    let next_octet = v4_fields s 0 0 (octets + 1) in
    if is_digit c
    then (if eqb digits 1 && eqb value 0 || ltb 255 value' then false else in_octet)
    else if eqb c b'.'
    then (if eqb digits 0 || is_empty s || eqb octets 3 then false else next_octet)
    else false

unfoldable pub parse_ipv4 : Str → Bool
unfolding v4_fields
parse_ipv4 s = v4_fields s 0 0 0

abbrev is_hex : ℕ → Bool
is_hex c = is_digit c || leb b'a' c && leb c b'f' || leb b'A' c && leb c b'F'

-- The hexadecimal digits that a text begins with: how many, and what follows.
hex_run : Str → ℕ → ℕ × Str
hex_run [] n = (n, [])
hex_run (c ∷ s) n = let more = hex_run s (n + 1) in if is_hex c then more else (n, c ∷ s)

-- The checks after the loop of `parseIPv6`: the bytes filled, and whether `::` was seen.
v6_done : Str → ℕ → Bool → Bool
v6_done s i ellipsis = is_empty s && (if ltb i 16 then ellipsis else not ellipsis)

-- One group has been read in front of the text. `again` is the next round.
v6_after : Str → (Str → ℕ → Bool → Bool) → Str → ℕ → Bool → Bool
unfolding v6_done
v6_after group again [] i ellipsis = v6_done [] (i + 2) ellipsis
v6_after group again (c ∷ []) i ellipsis = false
v6_after group again (c ∷ d ∷ s) i ellipsis =
    if eqb c b'.'
    then (if not ellipsis && not (eqb i 12) || ltb 16 (i + 4)
        then false
        else parse_ipv4 group && v6_done [] (i + 4) ellipsis)
    else if not (eqb c b':')
    then false
    else if not (eqb d b':')
    then again (d ∷ s) (i + 2) ellipsis
    else if ellipsis
    then false
    else if is_empty s
    then v6_done [] (i + 2) true
    else again s (i + 2) true

-- The loop of `parseIPv6`. A round fills two bytes, so eight rounds are enough.
v6_loop : ℕ → Str → ℕ → Bool → Bool
unfolding v6_after hex_run
v6_loop zero s i ellipsis = v6_done s i ellipsis
v6_loop (suc fuel) s i ellipsis =
    let (digits, rest) = hex_run s 0 in
    if eqb digits 0 || ltb 4 digits then false else v6_after s (v6_loop fuel) rest i ellipsis

v6_body : Str → Bool
unfolding v6_loop
v6_body [] = v6_loop 8 [] 0 false
v6_body (c ∷ []) = v6_loop 8 (c ∷ []) 0 false
v6_body (c ∷ d ∷ s) =
    if eqb c b':' && eqb d b':'
    then (if is_empty s then true else v6_loop 8 s 0 true)
    else v6_loop 8 (c ∷ d ∷ s) 0 false

-- The text in front of `%`, and the zone behind it.
cut_zone : Str → Str × Option Str
cut_zone [] = ([], none)
cut_zone (c ∷ s) =
    let (front, zone) = cut_zone s in if eqb c b'%' then ([], some s) else (c ∷ front, zone)

parse_ipv6 : Str → Bool
unfolding v6_body cut_zone
parse_ipv6 s =
    let (body, zone) = cut_zone s in
    if elim zone [ some [] ↦ true | _ ↦ false ] then false else v6_body body

-- The first of `.`, `:` and `%` says what the text may be.
scan_addr : Str → Str → Option Family
unfolding parse_ipv6
scan_addr whole [] = none
scan_addr whole (c ∷ s) =
    let next = scan_addr whole s in
    if eqb c b'.'
    then (if parse_ipv4 whole then some v4 else none)
    else if eqb c b':'
    then (if parse_ipv6 whole then some v6 else none)
    else if eqb c b'%'
    then none
    else next

unfoldable pub parse_addr : Str → Option Family
unfolding scan_addr parse_ipv4
parse_addr s = scan_addr s s

-- `addr, err := netip.ParseAddr(s)` with `err == nil && addr.Is4()`.
unfoldable pub is_v4 : Str → Bool
unfolding parse_addr
is_v4 s = elim (parse_addr s) [ some v4 ↦ true | _ ↦ false ]

-- The same with `err == nil && !addr.Is4()`.
unfoldable pub is_v6 : Str → Bool
unfolding parse_addr
is_v6 s = elim (parse_addr s) [ some v6 ↦ true | _ ↦ false ]
