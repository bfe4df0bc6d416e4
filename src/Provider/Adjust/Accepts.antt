-- ===== src/Provider/Adjust/Accepts.antt =====
-- internal/provider/provider.go, `AdjustEndpoints`: what it lets through, what becomes of the rest,
-- and that nothing it lets through is refused when it is written.
use external_dns_openwrt_nex.Prelude.{
  All-append, List, [], ◌∷◌, map, Option, none, some, ◌≡◌, refl, sym, ap, ◌∙◌, subst, inl, inr, ◌⊎◌,
  ◌≢◌, All, Bool-cases,
}
use external_dns_openwrt_nex.Provider.Endpoints.{
  records_at, endpoints_to_dns_records, is_supported, Endpoint, Pointers, record_key,
}
use external_dns_openwrt_nex.OpenWrt.Types.{validate}
use external_dns_openwrt_nex.Prelude.{◌↔◌}
use external_dns_openwrt_nex.Provider.Adjust.Stripped.{
  IsStripped, trimmed-IsStripped, IsStripped-trimmed,
}
use external_dns_openwrt_nex.Provider.Adjust.{
  unsupported, rejected, Verdict, adjust, trimmed, accepted, judge,
}
use mathlib.Core.List.{Memᴰ}
use mathlib.Core.List.Memᴰ
use external_dns_openwrt_nex.OpenWrt.Types.Valid.{validate_iff, IsWritable}
use external_dns_openwrt_nex.Strings.{Str, CaseTable}
use external_dns_openwrt_nex.GoMap.{str_key}
use external_dns_openwrt_nex.Provider.Adjust.Verdicts.{
  some_eq, record_for, judge_iff, accepted_from, adjust_loop-accepted, IsAcceptable,
}

module _ ⦃u : CaseTable⦄ where
  -- An endpoint that stands in a list, is acceptable, and becomes the given one.
  record Comes (endpoints : Pointers) (ep' : Endpoint) : Type 0 where
    source : Endpoint
    listed : Memᴰ (some source) endpoints
    acceptable : IsAcceptable source
    result : ep' ≡ trimmed source

  Comes-tail :
      (p : Option Endpoint) (rest : Pointers) (ep' : Endpoint)
      → Comes rest ep'
      → Comes (p ∷ rest) ep'
  Comes-tail p rest ep' c = record {
    source = c.source;
    listed = Memᴰ.tail c.listed;
    acceptable = c.acceptable;
    result = c.result;
  }

  Verdict-cases :
      (v : Verdict) → ((ep : Endpoint) × (v ≡ accepted ep)) ⊎ ((ep : Endpoint) → v ≢ accepted ep)
  Verdict-cases unsupported = inr (λ ep e. cc)
  Verdict-cases (rejected reason) = inr (λ ep e. cc)
  Verdict-cases (accepted ep) = inl (ep, refl)

  none_accepted :
      (v : Verdict) (rest : List Endpoint)
      → ((ep : Endpoint) → v ≢ accepted ep)
      → ◌≡◌ {A = List Endpoint} (elim v [ accepted ep ↦ ep ∷ rest | _ ↦ rest ]) rest
  none_accepted unsupported rest h = refl
  none_accepted (rejected reason) rest h = refl
  none_accepted (accepted ep) rest h = absurd (h ep refl)

  other-accepted :
      (ep : Endpoint) (rest : Pointers)
      → ((ep' : Endpoint) → judge ep ≢ accepted ep')
      → accepted_from (some ep ∷ rest) ≡ accepted_from rest
  other-accepted ep rest h = none_accepted (judge ep) (accepted_from rest) h

  from-accepted :
      (endpoints : Pointers) (ep' : Endpoint)
      → Memᴰ ep' (accepted_from endpoints)
      → Comes endpoints ep'
  from-accepted [] ep' m = absurd (Memᴰ.not-nil m)
  from-accepted (none ∷ rest) ep' m = Comes-tail none rest ep' (from-accepted rest ep' m)
  from-accepted (some ep ∷ rest) ep' m = elim (Verdict-cases (judge ep)) [
    | inr h ↦
        Comes-tail (some ep) rest ep'
          (from-accepted rest ep' (subst (Memᴰ ep') (other-accepted ep rest h) m))
    | inl (ep1, e) ↦ elim (Memᴰ.cases_cons (rw (e, accepted_from) at m)) [
      | inr t ↦ Comes-tail (some ep) rest ep' (from-accepted rest ep' t)
      | inl q ↦
          let (a, r) = (judge_iff ep ep1).0 e in
          record { source = ep; listed = Memᴰ.head refl; acceptable = a; result = q ∙ r }
    ]
  ]

  to-accepted :
      (endpoints : Pointers) (ep : Endpoint)
      → Memᴰ (some ep) endpoints
      → IsAcceptable ep
      → Memᴰ (trimmed ep) (accepted_from endpoints)
  to-accepted [] ep m a = absurd (Memᴰ.not-nil m)
  to-accepted (none ∷ rest) ep m a = elim (Memᴰ.cases_cons m) [
    | inl e ↦ cc
    | inr t ↦ to-accepted rest ep t a
  ]
  to-accepted (some ep1 ∷ rest) ep m a = elim (Verdict-cases (judge ep1)) [
    | inr h ↦ elim (Memᴰ.cases_cons m) [
      | inl e ↦ absurd (
          h (trimmed ep) (
            (judge_iff ep1 (trimmed ep)).1
              (let q = some_eq ep ep1 e in (subst IsAcceptable q a, ap trimmed q))))
      | inr t ↦
          subst (Memᴰ (trimmed ep)) (sym (other-accepted ep1 rest h)) (to-accepted rest ep t a)
    ]
    | inl (ep2, j) ↦
        rw (j, accepted_from)
          (elim (Memᴰ.cases_cons m) [
            | inl e ↦ Memᴰ.head (ap trimmed (some_eq ep ep1 e) ∙ sym ((judge_iff ep1 ep2).0 j).1)
            | inr t ↦ Memᴰ.tail (to-accepted rest ep t a)
          ])
  ]

  -- An endpoint that stands in a list, is acceptable, and is returned as the given one.
  pub record Returns (endpoints : Pointers) (ep' : Endpoint) : Type 0 where
    pub source : Endpoint
    pub listed : Memᴰ (some source) endpoints
    pub acceptable : IsAcceptable source
    pub stripped : IsStripped source ep'

  -- `AdjustEndpoints` returns an endpoint exactly if one of those it was given can be held by the
  -- router and is that endpoint but for what is dropped: the set identifier and the provider's
  -- properties are empty, and a TTL above zero is zero. Name, type, targets, labels and a negative
  -- TTL stay.
  pub adjust_iff :
      (endpoints : Pointers) (ep' : Endpoint)
      → Memᴰ ep' (adjust endpoints).0 ↔ Returns endpoints ep'
  unfolding adjust
  adjust_iff endpoints ep' =
      let e = adjust_loop-accepted endpoints ([], []) in
      (
        λ m.
            let c = from-accepted endpoints ep' (subst (Memᴰ ep') e m) in
            record {
              source = c.source;
              listed = c.listed;
              acceptable = c.acceptable;
              stripped = subst (IsStripped c.source) (sym c.result) (trimmed-IsStripped c.source);
            },
        λ c.
            subst (λ x. Memᴰ x (adjust endpoints).0)
              (sym (IsStripped-trimmed c.source ep' c.stripped))
              (subst (Memᴰ (trimmed c.source)) (sym e)
                (to-accepted endpoints c.source c.listed c.acceptable)),
      )

  records-valid :
      (ep : Endpoint) (targets : List Str)
      → All (λ target. IsWritable (record_for ep target)) targets
      → All
          (λ r. validate r ≡ none)
          (map
            (λ target. record {
              type = ep.record_type;
              name = ep.dns_name;
              value = target;
              owner = [];
            })
            targets)
  records-valid ep [] h = tt
  records-valid ep (target ∷ rest) h =
      ((validate_iff (record_for ep target)).1 h.0, records-valid ep rest h.1)

  records_at-valid :
      (ep : Endpoint)
      → All (λ target. IsWritable (record_for ep target)) ep.targets
      → All (λ r. validate r ≡ none) (records_at (some ep))
  records_at-valid ep h = elim (Bool-cases (is_supported ep.record_type)) [
    | inl yes_known ↦ rw yes_known (records-valid ep ep.targets h)
    | inr other ↦ rw other tt
  ]

  endpoints-valid :
      (endpoints : List Endpoint)
      → ((ep : Endpoint)
          → Memᴰ ep endpoints
          → All (λ target. IsWritable (record_for ep target)) ep.targets)
      → All (λ r. validate r ≡ none) (endpoints_to_dns_records (map some endpoints))
  unfolding endpoints_to_dns_records
  endpoints-valid [] h = tt
  endpoints-valid (ep ∷ rest) h =
      All-append (λ r. validate r ≡ none) (records_at (some ep))
        (endpoints_to_dns_records (map some rest)) (records_at-valid ep (h ep (Memᴰ.head refl)))
        (endpoints-valid rest (λ e m. h e (Memᴰ.tail m)))

  -- No record of an endpoint that `AdjustEndpoints` lets through is refused by `Validate`, so an
  -- endpoint that cannot be written does not fail a change set planned from its result.
  pub adjust-valid :
      (endpoints : Pointers)
      → All (λ r. validate r ≡ none) (endpoints_to_dns_records (map some (adjust endpoints).0))
  adjust-valid endpoints = endpoints-valid (adjust endpoints).0 λ ep m.
      let c = (adjust_iff endpoints ep).0 m in
      subst (λ (e : Endpoint). All (λ target. IsWritable (record_for e target)) e.targets)
        (sym (IsStripped-trimmed c.source ep c.stripped)) c.acceptable.writable
