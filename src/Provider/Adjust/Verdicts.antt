-- ===== src/Provider/Adjust/Verdicts.antt =====
-- internal/provider/provider.go, `AdjustEndpoints`: which endpoints pass the checks.
use external_dns_openwrt_nex.Prelude.{
  true, false, List, [], ◌∷◌, ◌++◌, none, some, ◌≡◌, refl, sym, ◌∙◌, arith, ◌↔◌, length, All, ◌≤◌,
}
use external_dns_openwrt_nex.Provider.Endpoints.{
  RecordKey, is_supported, Endpoint, Pointers, record_key,
}
use external_dns_openwrt_nex.OpenWrt.Types.{record_type_cname, DnsRecord}
use external_dns_openwrt_nex.Provider.Adjust.{
  unsupported, note, rejected, Verdict, Rejection, trimmed, accepted, adjust_loop, first_invalid,
  judge,
}
use external_dns_openwrt_nex.Strings.Laws.{eq_iff}
use mathlib.Core.List.{append-nil, append_assoc}
use external_dns_openwrt_nex.OpenWrt.Types.Valid.{validate_iff, IsWritable}
use external_dns_openwrt_nex.Strings.{codes, has_prefix, Str, CaseTable}
use external_dns_openwrt_nex.GoMap.{GoMap, str_key}

pub some_eq : (a b : Endpoint) → some a ≡ some b → a ≡ b
some_eq a b e = cc

module _ ⦃u : CaseTable⦄ where
  abbrev pub record_for : Endpoint → Str → DnsRecord
  record_for ep target = record {
    type = ep.record_type;
    name = ep.dns_name;
    value = target;
    owner = [];
  }

  -- An endpoint that the router can hold.
  pub record IsAcceptable (ep : Endpoint) : Type 0 where
    pub supported : is_supported ep.record_type ≡ true
    pub literal : has_prefix ep.dns_name (codes "*.") ≡ false
    pub single : ep.record_type ≡ record_type_cname → length ep.targets ≤ 1
    pub writable : All (λ target. IsWritable (record_for ep target)) ep.targets

  pub first_invalid_iff :
      (ep : Endpoint) (targets : List Str)
      → (first_invalid ep.record_type ep.dns_name targets ≡ none)
        ↔ All (λ target. IsWritable (record_for ep target)) targets
  unfolding first_invalid
  first_invalid_iff ep [] = (λ h. tt, λ h. refl)
  first_invalid_iff ep (target ∷ rest) =
      ground (arith, validate_iff (record_for ep target), first_invalid_iff ep rest)

  -- `judge` accepts exactly the endpoints that the router can hold.
  pub judge_iff :
      (ep ep' : Endpoint) → (judge ep ≡ accepted ep') ↔ (IsAcceptable ep × (ep' ≡ trimmed ep))
  unfolding judge
  judge_iff ep ep' =
      let same = eq_iff ep.record_type record_type_cname in
      let checked = first_invalid_iff ep ep.targets in
      (
        λ h. (
          record {
            supported = ground arith;
            literal = ground arith;
            single = λ t. ground (arith, same);
            writable = ground (arith, checked);
          },
          ground arith,
        ),
        λ (a, e).
            let literal = a.literal in
            let known = a.supported in ground (arith, same, checked, a.single, a.writable),
      )

  -- The accepted endpoints, in order.
  abbrev pub accepted_from : Pointers → List Endpoint
  accepted_from [] = []
  accepted_from (none ∷ rest) = accepted_from rest
  accepted_from (some ep ∷ rest) = elim (judge ep) [
    | accepted ep' ↦ ep' ∷ accepted_from rest
    | _ ↦ accepted_from rest
  ]

  pub step_accepted :
      (ep : Endpoint) (v : Verdict) (rest : Pointers)
      (out : List Endpoint × GoMap RecordKey Rejection)
      → ((o : List Endpoint × GoMap RecordKey Rejection)
          → (adjust_loop rest o).0 ≡ o.0 ++ accepted_from rest)
      → (adjust_loop rest (note ep v out)).0
        ≡ out.0 ++ (elim v [ accepted ep' ↦ ep' ∷ accepted_from rest | _ ↦ accepted_from rest ])
  step_accepted ep unsupported rest out ih = ih out
  step_accepted ep (rejected reason) rest out ih = ih (note ep (rejected reason) out)
  step_accepted ep (accepted ep') rest out ih =
      ih (note ep (accepted ep') out) ∙ append_assoc out.0 (ep' ∷ []) (accepted_from rest)

  pub adjust_loop-accepted :
      (endpoints : Pointers) (out : List Endpoint × GoMap RecordKey Rejection)
      → (adjust_loop endpoints out).0 ≡ out.0 ++ accepted_from endpoints
  unfolding adjust_loop
  adjust_loop-accepted [] out = sym (append-nil out.0)
  adjust_loop-accepted (none ∷ rest) out = adjust_loop-accepted rest out
  adjust_loop-accepted (some ep ∷ rest) out =
      step_accepted ep (judge ep) rest out (adjust_loop-accepted rest)
