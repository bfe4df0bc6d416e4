-- ===== src/OpenWrt/Index/Loop/Rounds.antt =====
-- pkg/openwrt/index.go, `closesCNAMELoop`: its loop ends within the rounds that the model gives it.
use mathlib.Core.List.{Memᴰ}
use mathlib.Core.List.Memᴰ
use mathlib.Core.Logic.{⊎_elim}
use external_dns_openwrt_nex.Prelude.{
  ℕ, zero, suc, ◌+◌, ◌*◌, ◌≤◌, ◌<◌, Bool, true, false, List, [], ◌∷◌, map, Option, some, keep,
  length, ◌≡◌, ◌∙◌, ◌↔◌, ◌⊎◌, inl, inr, refl, sym, ap, subst, arith, if◌then◌else◌, Bool-cases,
  mem-keep,
}
use external_dns_openwrt_nex.Strings.{Str, ◌==◌, CaseTable}
use external_dns_openwrt_nex.Strings.Laws.{eq_iff}
use external_dns_openwrt_nex.OpenWrt.Types.{record_type_cname, canonical_name}
use external_dns_openwrt_nex.OpenWrt.Index.{
  IndexedSection, SectionIndex, all_sections, holds, named, seen_in, push_all, search_loop, rounds,
}

length-map {ℓ κ} :
    {A : Type ℓ} {B : Type κ} (f : A → B) (xs : List A) → length (map f xs) ≡ length xs
length-map f [] = refl
length-map f (x ∷ xs) = ap suc (length-map f xs)

mul_le : (n a b : ℕ) → a ≤ b → n * a ≤ n * b
mul_le n a b h = grind arith

mul_step : (n a b : ℕ) → a < b → n * a + n ≤ n * b
mul_step n a b h = grind arith

length-keep {ℓ} : {A : Type ℓ} (p : A → Bool) (xs : List A) → length (keep p xs) ≤ length xs
length-keep p [] = omega arith
length-keep p (x ∷ xs) = ground (arith, length-keep p xs)

module _ ⦃u : CaseTable⦄ (i : SectionIndex) where
  values : List Str
  values = map (λ s. s.dns.value) (all_sections i)

  pub mem-push_all :
      (v : Str) (ss : List IndexedSection) (next : List Str)
      → Memᴰ v (push_all ss next)
        ↔ (Memᴰ v next ⊎ ((s : IndexedSection) × Memᴰ s ss × (s.dns.value ≡ v)))
  mem-push_all v [] next = (inl, ⊎_elim (λ m. m) (λ (s, m, _). absurd (Memᴰ.not-nil m)))
  mem-push_all v (s ∷ ss) next =
      let (to, from) = mem-push_all v ss (s.dns.value ∷ next) in
      (
        λ m. elim (to m) [
          | inl old ↦ elim (Memᴰ.cases_cons old) [
            | inl e ↦ inr (s, Memᴰ.head refl, sym e)
            | inr t ↦ inl t
          ]
          | inr (r, l, e) ↦ inr (r, Memᴰ.tail l, e)
        ],
        λ m. elim m [
          | inl old ↦ from (inl (Memᴰ.tail old))
          | inr (r, l, e) ↦ elim (Memᴰ.cases_cons l) [
            | inl q ↦ from (inl (Memᴰ.head (sym e ∙ ap (λ (x : IndexedSection). x.dns.value) q)))
            | inr t ↦ from (inr (r, t, e))
          ]
        ],
      )

  length-push_all :
      (ss : List IndexedSection) (next : List Str)
      → length (push_all ss next) ≡ length ss + length next
  length-push_all [] next = omega arith
  length-push_all (s ∷ ss) next = omega (arith, length-push_all ss (s.dns.value ∷ next))

  -- How many names of a list have not been seen.
  unseen : List Str → List Str → ℕ
  unseen [] seen = 0
  unseen (c ∷ cs) seen = if seen_in c seen then unseen cs seen else suc (unseen cs seen)

  unseen-le : (cs seen : List Str) (n : Str) → unseen cs (n ∷ seen) ≤ unseen cs seen
  unfolding unseen
  unseen-le [] seen n = omega arith
  unseen-le (c ∷ cs) seen n = ground (arith, unseen-le cs seen n)

  unseen-lt :
      (cs seen : List Str) (n : Str)
      → Memᴰ n cs
      → seen_in n seen ≡ false
      → unseen cs (n ∷ seen) < unseen cs seen
  unfolding unseen
  unseen-lt [] seen n m h = absurd (Memᴰ.not-nil m)
  unseen-lt (c ∷ cs) seen n (Memᴰ.head e) h = ground (arith, unseen-le cs seen n, eq_iff n c)
  unseen-lt (c ∷ cs) seen n (Memᴰ.tail m) h =
      ground (arith, unseen-lt cs seen n m h, unseen-le cs seen n)

  unseen-le-length : (cs seen : List Str) → unseen cs seen ≤ length cs
  unfolding unseen
  unseen-le-length [] seen = omega arith
  unseen-le-length (c ∷ cs) seen = ground (arith, unseen-le-length cs seen)

  mem-named :
      (n : Str) (s : IndexedSection)
      → Memᴰ s (named i record_type_cname n)
      → Memᴰ s.dns.value values
  unfolding named values
  mem-named n s m =
      Memᴰ.map (λ (r : IndexedSection). r.dns.value)
        ((mem-keep (holds record_type_cname (canonical_name n)) s (all_sections i)).0 m).0

  length-named : (n : Str) → length (named i record_type_cname n) ≤ length (all_sections i)
  unfolding named
  length-named n = length-keep (holds record_type_cname (canonical_name n)) (all_sections i)

  module _ (alias : Str) where
    abbrev search : ℕ → List Str → List Str → Option Bool
    search = search_loop i alias

    -- What the rounds left have to cover: the names to visit, and the values of names not yet seen.
    loop_returns :
        (cs : List Str)
        → ((v : Str) → Memᴰ v values → Memᴰ v cs)
        → (fuel : ℕ) (seen next : List Str) → ((v : Str) → Memᴰ v next → Memᴰ v cs)
        → length next + length (all_sections i) * unseen cs seen ≤ fuel
        → (b : Bool) × (search fuel seen next ≡ some b)
    unfolding search_loop
    loop_returns cs all fuel seen [] known h = (false, refl)
    loop_returns cs all zero seen (n ∷ next) known h = absurd (omega arith)
    loop_returns cs all (suc fuel) seen (n ∷ next) known h = elim (Bool-cases (n == alias)) [
      | inl found ↦ (true, rw found)
      | inr other ↦ elim (Bool-cases (seen_in n seen)) [
        | inl old ↦
            rw (other, old)
              (loop_returns cs all fuel seen next (λ v m. known v (Memᴰ.tail m)) (omega arith))
        | inr new ↦
            rw (other, new)
              (loop_returns cs all fuel (n ∷ seen) (push_all (named i record_type_cname n) next)
                (λ v m. elim ((mem-push_all v (named i record_type_cname n) next).0 m) [
                  | inl old ↦ known v (Memᴰ.tail old)
                  | inr (s, l, e) ↦ all v (subst (λ w. Memᴰ w values) e (mem-named n s l))
                ])
                (omega (
                  arith,
                  length-push_all (named i record_type_cname n) next,
                  length-named n,
                  mul_step (length (all_sections i)) (unseen cs (n ∷ seen)) (unseen cs seen)
                      (unseen-lt cs seen n (known n (Memᴰ.head refl)) new),
                )))
      ]
    ]

  -- The rounds that `closes_cname_loop` gives its loop are enough.
  pub search_returns :
      (alias target : Str) → (b : Bool) × (search_loop i alias (rounds i) [] (target ∷ []) ≡ some b)
  unfolding rounds values
  search_returns alias target =
      let n = length (all_sections i) in
      loop_returns alias (target ∷ values) (λ v m. Memᴰ.tail m) (rounds i) [] (target ∷ [])
        (λ v m. Memᴰ.head (Memᴰ.eq_of_singleton m))
        (omega (
          arith,
          mul_le n (unseen (target ∷ values) []) (suc n) (
              omega (
                arith,
                unseen-le-length (target ∷ values) [],
                length-map {0, 0} (λ (s : IndexedSection). s.dns.value) (all_sections i),
              )),
        ))
