-- ===== src/Status/Names/Owner.antt =====
-- pkg/status, `ownerValue`: Kubernetes takes the value of the label.
use external_dns_openwrt_nex.Prelude.{
  ℕ, zero, suc, true, [], ◌∷◌, ◌++◌, ◌≡◌, refl, ap, subst, arith, inl, inr, ◌⊎◌, ◌↔◌, length,
  is_empty, All, Bool-cases, ◌≤◌, ◌<◌,
}
use external_dns_openwrt_nex.Strings.{Str, codes, take}
use external_dns_openwrt_nex.Status.Names.{
  Digest, is_label_end, is_label_char, match_label_rest, is_label_value, owner_value,
}
use external_dns_openwrt_nex.Status.Names.Valid.{IsAlnum, digest_part}

-- A letter or a digit.
abbrev pub IsAlphanumeric : ℕ → Type 0
IsAlphanumeric c = ((b'a' ≤ c) × (c ≤ b'z')) ⊎ ((b'A' ≤ c) × (c ≤ b'Z')) ⊎ ((b'0' ≤ c) × (c ≤ b'9'))

abbrev pub IsInner : ℕ → Type 0
IsInner c = IsAlphanumeric c ⊎ (c ≡ b'-') ⊎ (c ≡ b'_') ⊎ (c ≡ b'.')

-- What Kubernetes asks of the value of a label that is not empty: at most 63 characters, letters,
-- digits, hyphens, underscores and dots, of which the first and the last are letters or digits.
pub record IsLabelValue (s : Str) : Type 0 where
  pub given : 0 < length s
  pub short : length s ≤ 63
  pub inner : All IsInner s
  pub first : (c : ℕ) (t : Str) → s ≡ c ∷ t → IsAlphanumeric c
  pub last : (t : Str) (c : ℕ) → s ≡ t ++ c ∷ [] → IsAlphanumeric c

label_end_iff : (c : ℕ) → (is_label_end c ≡ true) ↔ IsAlphanumeric c
label_end_iff c = (λ h. ground (arith, h), λ h. ground (arith, h))

label_char_iff : (c : ℕ) → (is_label_char c ≡ true) ↔ IsInner c
label_char_iff c = (λ h. ground (arith, h), λ h. ground (arith, h))

head_eq : {a b : ℕ} {s t : Str} → a ∷ s ≡ b ∷ t → a ≡ b
head_eq e = cc

not_empty : (s : Str) → is_empty s ≡ true → 0 < length s → ⊥
not_empty [] e h = omega arith
not_empty (c ∷ s) e h = cc

alnum-last : (t : Str) (c : ℕ) → IsAlnum (t ++ c ∷ []) → IsAlphanumeric c
alnum-last [] c h = ground (arith, h.0)
alnum-last (a ∷ t) c h = alnum-last t c h.1

-- The last character is a letter or a digit.
abbrev EndsWell : Str → Type 0
EndsWell [] = Unit
EndsWell (c ∷ []) = IsAlphanumeric c
EndsWell (c ∷ e ∷ s) = EndsWell (e ∷ s)

EndsWell-snoc : (t : Str) (c : ℕ) → EndsWell (t ++ c ∷ []) → IsAlphanumeric c
EndsWell-snoc [] c h = h
EndsWell-snoc (a ∷ []) c h = h
EndsWell-snoc (a ∷ b ∷ t) c h = EndsWell-snoc (b ∷ t) c h

last-EndsWell : (s : Str) → ((t : Str) (c : ℕ) → s ≡ t ++ c ∷ [] → IsAlphanumeric c) → EndsWell s
last-EndsWell [] h = tt
last-EndsWell (c ∷ []) h = h [] c refl
last-EndsWell (c ∷ e ∷ s) h = last-EndsWell (e ∷ s) (λ t d q. h (c ∷ t) d (ap (◌∷◌ c) q))

-- What the rest of a value has to be behind its first character.
IsRest : ℕ → Str → Type 0
IsRest room s = (0 < length s) × (length s ≤ suc room) × All IsInner s × EndsWell s

match_label_rest_iff : (room : ℕ) (s : Str) → (match_label_rest room s ≡ true) ↔ IsRest room s
unfolding match_label_rest IsRest
match_label_rest_iff room [] = (λ h. cc, λ h. absurd (omega (arith, h.0)))
match_label_rest_iff room (c ∷ []) = (
  λ h. let alnum = (label_end_iff c).0 h in (omega arith, omega arith, (inl alnum, tt), alnum),
  λ h. (label_end_iff c).1 h.3,
)
match_label_rest_iff zero (c ∷ e ∷ s) = (λ h. cc, λ h. absurd (omega (arith, h.1)))
match_label_rest_iff (suc room) (c ∷ e ∷ s) =
    let (to, from) = match_label_rest_iff room (e ∷ s) in
    let (read, write) = label_char_iff c in
    (
      λ h. elim (Bool-cases (is_label_char c)) [
        | inl char ↦
            let (some_left, few, all_inner, ends) = to (rw char at h) in
            (omega arith, omega (arith, few), (read char, all_inner), ends)
        | inr other ↦ cc (rw other at h)
      ],
      λ (some_left, few, all_inner, ends).
          rw (write all_inner.0) (from (omega arith, omega (arith, few), all_inner.1, ends)),
    )

-- The expression `labelValue` matches exactly the values that Kubernetes takes.
is_label_value_iff : (s : Str) → (is_label_value s ≡ true) ↔ IsLabelValue s
unfolding is_label_value IsRest
is_label_value_iff [] = (λ h. cc, λ h. absurd (omega (arith, h.given)))
is_label_value_iff (c ∷ []) =
    let (read, write) = label_end_iff c in
    (
      λ h. record {
        given = omega arith;
        short = omega arith;
        inner = (inl (read h), tt);
        first = λ d t e. subst IsAlphanumeric (head_eq e) (read h);
        last = λ t d e. EndsWell-snoc t d (subst EndsWell e (read h));
      },
      λ h. write (h.first c [] refl),
    )
is_label_value_iff (c ∷ e ∷ s) =
    let (read, write) = label_end_iff c in
    let (to, from) = match_label_rest_iff 61 (e ∷ s) in
    (
      λ h. elim (Bool-cases (is_label_end c)) [
        | inl alnum ↦
            let (some_left, few, all_inner, ends) = to (rw alnum at h) in
            record {
              given = omega arith;
              short = omega (arith, few);
              inner = (inl (read alnum), all_inner);
              first = λ d t q. subst IsAlphanumeric (head_eq q) (read alnum);
              last = λ t d q. EndsWell-snoc t d (subst EndsWell q ends);
            }
        | inr other ↦ cc (rw other at h)
      ],
      λ h. rw (write (h.first c (e ∷ s) refl)) (
          from (
            omega arith,
            omega (arith, h.short),
            h.inner.1,
            last-EndsWell (e ∷ s) (λ t d q. h.last (c ∷ t) d (ap (◌∷◌ c) q)),
          )),
    )

alnum-IsInner : (s : Str) → IsAlnum s → All IsInner s
alnum-IsInner [] h = tt
alnum-IsInner (c ∷ s) h = (inl (ground (arith, h.0)), alnum-IsInner s h.1)

alnum-IsLabelValue : (s : Str) → IsAlnum s → 0 < length s → length s ≤ 63 → IsLabelValue s
alnum-IsLabelValue s h given short = record {
  given = given;
  short = short;
  inner = alnum-IsInner s h;
  first = λ c t e. ground (arith, (subst IsAlnum e h).0);
  last = λ t c e. alnum-last t c (subst IsAlnum e h);
}

-- `ownerValue` gives a value that Kubernetes takes for a label, whatever the ownership ID: 1 to 63
-- letters, digits, hyphens, underscores and dots, of which the first and the last are letters or
-- digits. An ownership ID that is such a value already is the value.
pub owner_value-valid :
    ⦃d : Digest⦄ (ownership_id : Str)
    → IsLabelValue (owner_value ownership_id)
      × (IsLabelValue ownership_id → owner_value ownership_id ≡ ownership_id)
unfolding owner_value
owner_value-valid ⦃d⦄ ownership_id =
    let (digits, sixteen) = digest_part ownership_id in
    let (to, from) = is_label_value_iff ownership_id in
    elim (Bool-cases (is_empty ownership_id)) [
      | inl none_given ↦ rw none_given (
        (is_label_value_iff (codes "none")).0 (unfold is_label_value match_label_rest in refl),
        λ h. absurd (not_empty ownership_id none_given h.given),
      )
      | inr given ↦ elim (Bool-cases (is_label_value ownership_id)) [
        | inl fits ↦ rw (given, fits) (to fits, λ h. refl)
        | inr hashed ↦
            rw (given, hashed)
              (
                alnum-IsLabelValue (take 16 (d.hex ownership_id)) digits (omega (arith, sixteen))
                    (omega (arith, sixteen)),
                λ h. cc (hashed, from h),
              )
      ]
    ]
