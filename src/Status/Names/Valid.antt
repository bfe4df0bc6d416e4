-- ===== src/Status/Names/Valid.antt =====
-- pkg/status, `objectName`: Kubernetes takes the names that are made.
use mathlib.Core.List.{append_assoc}
use external_dns_openwrt_nex.Prelude.{
  sym, ℕ, zero, suc, ◌+◌, Bool, true, ◌&&◌, [], ◌∷◌, ◌++◌, ◌≡◌, refl, ap, ◌∙◌, arith, inl, inr, ◌≢◌,
  leb, length, All, Bool-cases, ◌≤◌, ◌<◌,
}
use external_dns_openwrt_nex.Status.Names.Labels.{all_labels, is_dns1123-eq-labels}
use external_dns_openwrt_nex.Strings.{
  split_dots, Str, codes, CaseTable, to_lower, len, rune_len, take,
}
use external_dns_openwrt_nex.Status.Names.{
  Digest, is_hex, is_name_char, alnum, match_dns1123, is_dns1123, object_name,
}

abbrev pub IsAlnum : Str → Type 0
IsAlnum s = All (λ c. is_name_char c ≡ true) s

match-alnum : (s t : Str) → IsAlnum s → match_dns1123 alnum (s ++ t) ≡ match_dns1123 alnum t
unfolding match_dns1123
match-alnum [] t h = refl
match-alnum (c ∷ s) t h = rw (h.0) (match-alnum s t h.1)

take-All : (P : ℕ → Type 0) (n : ℕ) (s : Str) → All P s → All P (take n s)
take-All P zero s h = tt
take-All P (suc n) [] h = tt
take-All P (suc n) (c ∷ s) h = (h.0, take-All P n s h.1)

length-take : (n : ℕ) (s : Str) → n ≤ length s → length (take n s) ≡ n
length-take zero s h = refl
length-take (suc n) [] h = absurd (omega arith)
length-take (suc n) (c ∷ s) h = ap suc (length-take n s (omega arith))

hex-IsAlnum : (s : Str) → All (λ c. is_hex c ≡ true) s → IsAlnum s
hex-IsAlnum [] h = tt
hex-IsAlnum (c ∷ s) h = (ground (arith, h.0), hex-IsAlnum s h.1)

len-append : (s t : Str) → len (s ++ t) ≡ len s + len t
unfolding len
len-append [] t = omega arith
len-append (c ∷ s) t = omega (arith, len-append s t)

len-alnum : (s : Str) → IsAlnum s → len s ≡ length s
unfolding len rune_len
len-alnum [] h = refl
len-alnum (c ∷ s) h = ground (arith, h.0, len-alnum s h.1)

-- Sixteen characters of a digest.
pub digest_part :
    ⦃d : Digest⦄ (s : Str) → IsAlnum (take 16 (d.hex s)) × (length (take 16 (d.hex s)) ≡ 16)
digest_part ⦃d⦄ s = (
  hex-IsAlnum (take 16 (d.hex s)) (take-All (λ c. is_hex c ≡ true) 16 (d.hex s) (d.hex_digits s)),
  length-take 16 (d.hex s) (omega (arith, d.hex_length s)),
)

match-all : (s : Str) → IsAlnum s → match_dns1123 alnum s ≡ true
unfolding match_dns1123
match-all [] h = refl
match-all (c ∷ s) h = rw (h.0) (match-all s h.1)

-- A label, a hyphen and letters or digits.
dashed-is_dns1123 :
    (s t : Str) → IsAlnum s → IsAlnum t → s ≢ [] → t ≢ [] → is_dns1123 (s ++ codes "-" ++ t) ≡ true
unfolding is_dns1123 match_dns1123
dashed-is_dns1123 [] t hs ht ns nt = absurd (ns refl)
dashed-is_dns1123 (c ∷ s) [] hs ht ns nt = absurd (nt refl)
dashed-is_dns1123 (c ∷ s) (e ∷ t) hs ht ns nt = rw (hs.0) (
    ap (match_dns1123 alnum) (append_assoc s (codes "-") (e ∷ t))
    ∙ match-alnum s (b'-' ∷ e ∷ t) hs.1
    ∙ rw (ht.0) (match-all t ht.1))

not-empty : (s : Str) (n : ℕ) → length s ≡ suc n → s ≢ []
not-empty s n h e = absurd (omega (arith, ap length e))

both_hold : (n m : ℕ) (b : Bool) → (leb n m && b) ≡ true → (b ≡ true) × (n ≤ m)
both_hold n m b h = ground (arith, h)

len-dashed :
    (s t : Str)
    → IsAlnum s
    → IsAlnum t
    → length t ≡ 16
    → length s ≤ 236
    → len (s ++ codes "-" ++ t) ≤ 253
len-dashed s t hs ht sixteen short =
    let dash : len (codes "-") ≡ 1 = unfold len rune_len in refl in
    omega (
      arith,
      len-append (s ++ codes "-") t,
      len-append s (codes "-"),
      len-alnum s hs,
      len-alnum t ht,
      dash,
      sixteen,
      short,
    )

object_name-accepted :
    ⦃u : CaseTable⦄ ⦃d : Digest⦄ (record_type dns_name : Str)
    → IsAlnum (to_lower record_type)
    → 0 < length (to_lower record_type)
    → length (to_lower record_type) ≤ 236
    → (is_dns1123 (object_name record_type dns_name) ≡ true)
      × (len (object_name record_type dns_name) ≤ 253)
unfolding object_name
object_name-accepted ⦃u⦄ ⦃d⦄ record_type dns_name plain given short =
    let name = to_lower (record_type ++ codes "." ++ dns_name) in
    let type = to_lower record_type in
    let (digits, sixteen) = digest_part (record_type ++ codes "|" ++ dns_name) in
    let tail = take 16 (d.hex (record_type ++ codes "|" ++ dns_name)) in
    elim (Bool-cases (leb (len name) 253 && is_dns1123 name)) [
      | inl fits ↦ rw fits (both_hold (len name) 253 (is_dns1123 name) fits)
      | inr hashed ↦ rw hashed (
        dashed-is_dns1123 type tail plain digits (λ e. absurd (omega (arith, given, ap length e)))
            (not-empty tail 15 sixteen),
        len-dashed type tail plain digits sixteen short,
      )
    ]

-- `objectName` gives a name that Kubernetes takes, whatever the name of the record: at most 253 bytes,
-- in labels parted by dots, each of lower case letters, digits and hyphens, not empty, and with no
-- hyphen at an end. Condition: the record's type in lower case is of letters and digits, at least one
-- and at most 236.
pub object_name-valid :
    ⦃u : CaseTable⦄ ⦃d : Digest⦄ (record_type dns_name : Str)
    → IsAlnum (to_lower record_type)
    → 0 < length (to_lower record_type)
    → length (to_lower record_type) ≤ 236
    → (all_labels (split_dots (object_name record_type dns_name)) ≡ true)
      × (len (object_name record_type dns_name) ≤ 253)
object_name-valid record_type dns_name plain given short =
    let (accepted, fits) = object_name-accepted record_type dns_name plain given short in
    (sym (is_dns1123-eq-labels (object_name record_type dns_name)) ∙ accepted, fits)
