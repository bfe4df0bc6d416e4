-- ===== src/Status/Names/Labels.antt =====
-- pkg/status/syncer.go, `dns1123`: the automaton accepts the names whose labels are well formed.
use external_dns_openwrt_nex.Prelude.{
  ℕ, Bool, true, false, not, ◌&&◌, ◌||◌, List, [], ◌∷◌, ◌≡◌, refl, sym, ap, ◌∙◌, arith, inl, inr,
  eqb, is_empty, Bool-cases,
}
use external_dns_openwrt_nex.Strings.{Str, split_dots}
use external_dns_openwrt_nex.Status.Names.{
  is_name_char, Seen, fresh, alnum, hyphen, match_dns1123, is_dns1123,
}

-- A letter, a digit or a hyphen.
abbrev is_inner : ℕ → Bool
is_inner c = is_name_char c || eqb c b'-'

-- Characters of a label of which the last, if there is one, is a letter or a digit.
abbrev pub ends_well : Str → Bool
ends_well [] = true
ends_well (c ∷ []) = is_name_char c
ends_well (c ∷ e ∷ s) = is_inner c && ends_well (e ∷ s)

-- `[a-z0-9]([-a-z0-9]*[a-z0-9])?`: letters, digits and hyphens, at least one, and neither the first
-- nor the last a hyphen.
abbrev pub is_label : Str → Bool
is_label [] = false
is_label (c ∷ s) = is_name_char c && ends_well s

abbrev pub all_labels : List Str → Bool
all_labels [] = true
all_labels (l ∷ ls) = is_label l && all_labels ls

-- The rest of a label behind a character of this kind, and the labels that follow.
abbrev rest_ok : Seen → Str → Bool
rest_ok fresh l = is_label l
rest_ok alnum l = ends_well l
rest_ok hyphen l = not (is_empty l) && ends_well l

abbrev continues : Seen → List Str → Bool
continues st [] = false
continues st (l ∷ ls) = rest_ok st l && all_labels ls

split_dots-cons : (s : Str) → (l : Str) × (ls : List Str) × (split_dots s ≡ l ∷ ls)
unfolding split_dots
split_dots-cons [] = ([], [], refl)
split_dots-cons (c ∷ s) = elim (Bool-cases (eqb c b'.')) [
  | inl dot ↦ ([], split_dots s, rw dot refl)
  | inr other ↦ let (l, ls, e) = split_dots-cons s in (c ∷ l, ls, rw (other, e) refl)
]

dot_apart : (c : ℕ) → eqb c b'.' ≡ true → (is_name_char c ≡ false) × (eqb c b'-' ≡ false)
dot_apart c h = (ground (arith, h), ground (arith, h))

hyphen_apart : (c : ℕ) → eqb c b'-' ≡ true → is_name_char c ≡ false
hyphen_apart c h = ground (arith, h)

-- A dot in front of what is split already.
step_dot :
    (st : Seen) (c : ℕ) (s l : Str) (ls : List Str)
    → ((st' : Seen) → match_dns1123 st' s ≡ continues st' (l ∷ ls))
    → eqb c b'.' ≡ true
    → match_dns1123 st (c ∷ s) ≡ continues st ([] ∷ l ∷ ls)
unfolding match_dns1123
step_dot st c s l ls h dot =
    let (no_name, no_hyphen) = dot_apart c dot in
    elim st as (λ x. match_dns1123 x (c ∷ s) ≡ continues x ([] ∷ l ∷ ls)) [
      | fresh ↦ rw no_name refl
      | alnum ↦ rw (no_name, no_hyphen, dot) (h fresh)
      | hyphen ↦ rw (no_name, no_hyphen) refl
    ]

-- A letter or a digit, a hyphen, or a character of no name in front of it.
step_name :
    (st : Seen) (c : ℕ) (s l : Str) (ls : List Str)
    → match_dns1123 alnum s ≡ continues alnum (l ∷ ls)
    → is_name_char c ≡ true
    → match_dns1123 st (c ∷ s) ≡ continues st ((c ∷ l) ∷ ls)
unfolding match_dns1123
step_name fresh c s l ls h name = rw name h
step_name alnum c s [] ls h name = rw name h
step_name alnum c s (e ∷ l) ls h name = rw name h
step_name hyphen c s [] ls h name = rw name h
step_name hyphen c s (e ∷ l) ls h name = rw name h

step_hyphen :
    (st : Seen) (c : ℕ) (s l : Str) (ls : List Str)
    → match_dns1123 hyphen s ≡ continues hyphen (l ∷ ls)
    → eqb c b'-' ≡ true
    → match_dns1123 st (c ∷ s) ≡ continues st ((c ∷ l) ∷ ls)
unfolding match_dns1123
step_hyphen fresh c s l ls h dash = rw (hyphen_apart c dash) refl
step_hyphen alnum c s [] ls h dash = rw (hyphen_apart c dash, dash) h
step_hyphen alnum c s (e ∷ l) ls h dash = rw (hyphen_apart c dash, dash) h
step_hyphen hyphen c s [] ls h dash = rw (hyphen_apart c dash, dash) h
step_hyphen hyphen c s (e ∷ l) ls h dash = rw (hyphen_apart c dash, dash) h

step_none :
    (st : Seen) (c : ℕ) (s l : Str) (ls : List Str)
    → is_name_char c ≡ false
    → eqb c b'-' ≡ false
    → eqb c b'.' ≡ false
    → match_dns1123 st (c ∷ s) ≡ continues st ((c ∷ l) ∷ ls)
unfolding match_dns1123
step_none fresh c s l ls name dash dot = rw name refl
step_none alnum c s [] ls name dash dot = rw (name, dash, dot) refl
step_none alnum c s (e ∷ l) ls name dash dot = rw (name, dash, dot) refl
step_none hyphen c s [] ls name dash dot = rw (name, dash) refl
step_none hyphen c s (e ∷ l) ls name dash dot = rw (name, dash) refl

step_other :
    (st : Seen) (c : ℕ) (s l : Str) (ls : List Str)
    → ((st' : Seen) → match_dns1123 st' s ≡ continues st' (l ∷ ls))
    → eqb c b'.' ≡ false
    → match_dns1123 st (c ∷ s) ≡ continues st ((c ∷ l) ∷ ls)
step_other st c s l ls h other = elim (Bool-cases (is_name_char c)) [
  | inl name ↦ step_name st c s l ls (h alnum) name
  | inr no_name ↦ elim (Bool-cases (eqb c b'-')) [
    | inl dash ↦ step_hyphen st c s l ls (h hyphen) dash
    | inr no_hyphen ↦ step_none st c s l ls no_name no_hyphen other
  ]
]

match_dns1123-eq-continues :
    (st : Seen) (s : Str) → match_dns1123 st s ≡ continues st (split_dots s)
match_dns1123-eq-continues fresh [] = unfold match_dns1123 split_dots in refl
match_dns1123-eq-continues alnum [] = unfold match_dns1123 split_dots in refl
match_dns1123-eq-continues hyphen [] = unfold match_dns1123 split_dots in refl
match_dns1123-eq-continues st (c ∷ s) =
    let (l, ls, e) = split_dots-cons s in
    let before = λ (st' : Seen). match_dns1123-eq-continues st' s ∙ ap (continues st') e in
    elim (Bool-cases (eqb c b'.')) [
      | inl dot ↦ step_dot st c s l ls before dot ∙ unfold split_dots in rw (dot, e) refl
      | inr other ↦ step_other st c s l ls before other ∙ unfold split_dots in rw (other, e) refl
    ]

-- The expression `dns1123` matches exactly the names all of whose labels, the parts between the dots,
-- are well formed: of letters, digits and hyphens, not empty, and with no hyphen at an end.
pub is_dns1123-eq-labels : (s : Str) → is_dns1123 s ≡ all_labels (split_dots s)
unfolding is_dns1123
is_dns1123-eq-labels s =
    let (l, ls, e) = split_dots-cons s in
    match_dns1123-eq-continues fresh s ∙ ap (continues fresh) e ∙ sym (ap all_labels e)
