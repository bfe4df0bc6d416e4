-- ===== src/OpenWrt/Index/Loop.antt =====
-- pkg/openwrt/index.go, `closesCNAMELoop`: it finds a walk along the indexed CNAMEs exactly where
-- there is one.
pub mod Rounds
use mathlib.Core.List.{Memᴰ}
use mathlib.Core.List.Memᴰ
use mathlib.Core.Logic.{⊎_elim, ∥∥₁_elim}
use mathlib.Core.HLevel.{⊥_prop}
use external_dns_openwrt_nex.OpenWrt.Dnsmasq.{Star, arrive, step}
use external_dns_openwrt_nex.Prelude.{
  ℕ, zero, suc, ◌+◌, ◌*◌, ◌≤◌, ◌<◌, Bool, true, false, List, [], ◌∷◌, map, Option, some, keep,
  length, ◌≡◌, ◌∙◌, ◌≢◌, ◌↔◌, ◌⊎◌, inl, inr, refl, sym, ap, subst, arith, if◌then◌else◌, Bool-cases,
  mem-cons, mem-keep,
}
use external_dns_openwrt_nex.Strings.{Str, ◌==◌, CaseTable}
use external_dns_openwrt_nex.Strings.Laws.{eq_iff, ne_of_false}
use external_dns_openwrt_nex.OpenWrt.Types.{record_type_cname, canonical_name}
use external_dns_openwrt_nex.OpenWrt.Index.{
  IndexedSection, SectionIndex, all_sections, holds, named, seen_in, push_all, search_loop, rounds,
  closes_cname_loop,
}
use external_dns_openwrt_nex.OpenWrt.Index.Loop.Rounds.{mem-push_all, search_returns}

pub seen_in_iff : (n : Str) (seen : List Str) → (seen_in n seen ≡ true) ↔ Memᴰ n seen
seen_in_iff n [] = (λ h. cc, λ m. absurd (Memᴰ.not-nil m))
seen_in_iff n (m ∷ seen) = ground (arith, eq_iff m n, seen_in_iff n seen, mem-cons n m seen)

module _ ⦃u : CaseTable⦄ (i : SectionIndex) where
  -- A lookup of `from` may answer `to`: a CNAME section of its canonical name has that value.
  pub record Leads (from to : Str) : Type 0 where
    pub section : IndexedSection
    pub listed : Memᴰ section (named i record_type_cname from)
    pub target : section.dns.value ≡ to

  -- The walks along CNAME sections to `goal`.
  abbrev pub Walk : Str → Str → Type 0
  Walk goal = Star Leads goal

  module _ (alias : Str) where
    abbrev search : ℕ → List Str → List Str → Option Bool
    search = search_loop i alias

    abbrev Hits : List Str → Type 0
    Hits next = (v : Str) × Memᴰ v next × Walk alias v

    loop_sound : (fuel : ℕ) (seen next : List Str) → search fuel seen next ≡ some true → Hits next
    unfolding search_loop
    loop_sound fuel seen [] h = cc
    loop_sound zero seen (n ∷ next) h = cc
    loop_sound (suc fuel) seen (n ∷ next) h = elim (Bool-cases (n == alias)) [
      | inl found ↦ (n, Memᴰ.head refl, subst (Walk alias) (sym ((eq_iff n alias).0 found)) arrive)
      | inr other ↦ elim (Bool-cases (seen_in n seen)) [
        | inl old ↦
            let (v, m, w) = loop_sound fuel seen next (rw (other, old, search_loop) at h) in
            (v, Memᴰ.tail m, w)
        | inr new ↦
            let ss = named i record_type_cname n in
            let (v, m, w) =
              loop_sound fuel (n ∷ seen) (push_all ss next) (rw (other, new, search_loop) at h) in
            elim ((mem-push_all i v ss next).0 m) [
              | inl old ↦ (v, Memᴰ.tail old, w)
              | inr (s, l, e) ↦
                  (n, Memᴰ.head refl, step (record { section = s; listed = l; target = e }) w)
            ]
      ]
    ]

    -- What the loop keeps: no name seen is the alias, and all that it leads to is seen or waiting.
    record Explored (seen next : List Str) : Type 0 where
      missed : (v : Str) → Memᴰ v seen → v ≢ alias
      closed : (v w : Str) → Memᴰ v seen → Leads v w → Memᴰ w seen ⊎ Memᴰ w next

    Walk-stays : {v : Str} (seen : List Str) → Explored seen [] → Memᴰ v seen → Walk alias v → ⊥
    Walk-stays seen x m arrive = x.missed alias m refl
    Walk-stays seen x m (step {a} {b} l w) = elim (x.closed a b m l) [
      | inl m' ↦ Walk-stays seen x m' w
      | inr q ↦ Memᴰ.not-nil q
    ]

    in_seen :
        (n : Str) (seen next : List Str)
        → Memᴰ n seen
        → (v : Str) → Memᴰ v seen ⊎ Memᴰ v (n ∷ next)
        → Memᴰ v seen ⊎ Memᴰ v next
    in_seen n seen next k v (inl m) = inl m
    in_seen n seen next k v (inr m) = elim (Memᴰ.cases_cons m) [
      | inl e ↦ inl (Memᴰ.cast e k)
      | inr t ↦ inr t
    ]

    Explored-skip :
        (n : Str) (seen next : List Str)
        → Memᴰ n seen
        → Explored seen (n ∷ next)
        → Explored seen next
    Explored-skip n seen next k x = record {
      missed = x.missed;
      closed = λ v w m l. in_seen n seen next k w (x.closed v w m l);
    }

    moved :
        (n : Str) (seen next : List Str) (v : Str)
        → Memᴰ v seen ⊎ Memᴰ v (n ∷ next)
        → Memᴰ v (n ∷ seen) ⊎ Memᴰ v (push_all (named i record_type_cname n) next)
    moved n seen next v (inl m) = inl (Memᴰ.tail m)
    moved n seen next v (inr m) = elim (Memᴰ.cases_cons m) [
      | inl e ↦ inl (Memᴰ.head e)
      | inr t ↦ inr ((mem-push_all i v (named i record_type_cname n) next).1 (inl t))
    ]

    Explored-visit :
        (n : Str) (seen next : List Str)
        → (n == alias) ≡ false
        → Explored seen (n ∷ next)
        → Explored (n ∷ seen) (push_all (named i record_type_cname n) next)
    Explored-visit n seen next other x = record {
      missed = λ v m e. elim (Memᴰ.cases_cons m) [
        | inl q ↦ ne_of_false n alias other (sym q ∙ e)
        | inr t ↦ x.missed v t e
      ];
      closed = λ v w m l. elim (Memᴰ.cases_cons m) [
        | inl q ↦ inr (
            (mem-push_all i w (named i record_type_cname n) next).1 (
              inr (
                l.section,
                subst (λ y. Memᴰ l.section (named i record_type_cname y)) q l.listed,
                l.target,
              )))
        | inr t ↦ moved n seen next w (x.closed v w t l)
      ];
    }

    loop_complete :
        (fuel : ℕ) (seen next : List Str)
        → search fuel seen next ≡ some false
        → Explored seen next
        → (v : Str) → Memᴰ v seen ⊎ Memᴰ v next
        → ¬ Walk alias v
    unfolding search_loop
    loop_complete fuel seen [] h x v m w =
        Walk-stays seen x (elim m [ inl q ↦ q | inr q ↦ absurd (Memᴰ.not-nil q) ]) w
    loop_complete zero seen (n ∷ next) h x v m w = cc
    loop_complete (suc fuel) seen (n ∷ next) h x v m w = elim (Bool-cases (n == alias)) [
      | inl found ↦ cc (rw (found, search_loop) at h)
      | inr other ↦ elim (Bool-cases (seen_in n seen)) [
        | inl old ↦
            let n_seen = (seen_in_iff n seen).0 old in
            loop_complete fuel seen next (rw (other, old, search_loop) at h)
              (Explored-skip n seen next n_seen x) v (in_seen n seen next n_seen v m) w
        | inr new ↦
            let ss = named i record_type_cname n in
            loop_complete fuel (n ∷ seen) (push_all ss next) (rw (other, new, search_loop) at h)
              (Explored-visit n seen next other x) v (moved n seen next v m) w
      ]
    ]

  closes-eq :
      (alias target : Str) {b : Bool}
      → search_loop i (canonical_name alias) (rounds i) [] (canonical_name target ∷ []) ≡ some b
      → closes_cname_loop i alias target ≡ b
  unfolding closes_cname_loop
  closes-eq alias target e = rw (e, closes_cname_loop)

  -- `closes_cname_loop` says `true` exactly if a walk along CNAME sections leads from the canonical
  -- target to the canonical alias.
  pub closes_cname_loop_iff :
      (alias target : Str)
      → (closes_cname_loop i alias target ≡ true)
        ↔ ∥ Walk (canonical_name alias) (canonical_name target) ∥₁
  closes_cname_loop_iff alias target =
      let a = canonical_name alias in
      let t = canonical_name target in
      let (b, e) = search_returns i a t in
      let same : closes_cname_loop i alias target ≡ b = closes-eq alias target e in
      (
        λ h.
            let (v, m, w) =
              loop_sound a (rounds i) [] (t ∷ [])
                (subst (λ c. search a (rounds i) [] (t ∷ []) ≡ some c) (sym same ∙ h) e) in
            ∣ subst (Walk a) (Memᴰ.eq_of_singleton m) w ∣₁,
        λ w. elim (Bool-cases (closes_cname_loop i alias target)) [
          | inl h ↦ h
          | inr h ↦ absurd (
              ∥∥₁_elim w ⊥_prop (
                loop_complete a (rounds i) [] (t ∷ [])
                  (subst (λ c. search a (rounds i) [] (t ∷ []) ≡ some c) (sym same ∙ h) e)
                  (record {
                    missed = λ v m. absurd (Memᴰ.not-nil m);
                    closed = λ v w m. absurd (Memᴰ.not-nil m);
                  })
                  t (inr (Memᴰ.head refl))))
        ],
      )
