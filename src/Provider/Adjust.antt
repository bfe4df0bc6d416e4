-- ===== src/Provider/Adjust.antt =====
-- internal/provider/provider.go, `AdjustEndpoints`: the endpoints that the router can hold.
pub mod Verdicts
pub mod Stripped
pub mod Accepts
use external_dns_openwrt_nex.OpenWrt.Types.{record_type_cname, validate, Invalid}
use external_dns_openwrt_nex.Prelude.{
  ℕ, zero, suc, ◌+◌, Bool, true, false, not, ◌&&◌, ◌||◌, List, [], ◌∷◌, ◌++◌, map, Option, none,
  some, ◌≡◌, refl, sym, ap, ◌∙◌, subst, arith, inl, inr, ◌⊎◌, ◌↔◌, ◌≢◌, ltb, leb, eqb,
  if◌then◌else◌, length, any, keep, is_empty, All, Bool-cases, Option-cases, ◌≤◌, ◌<◌,
}
use external_dns_openwrt_nex.Sorting.{sorted}
use external_dns_openwrt_nex.Strings.{◌==◌, codes, has_prefix, Str, CaseTable}
use external_dns_openwrt_nex.Ubus.Errors.{negsuc, pos, ℤ}
use external_dns_openwrt_nex.Provider.Endpoints.{
  key_of, is_supported, RecordKey, Pointers, Endpoint, record_key,
}
use external_dns_openwrt_nex.GoMap.{insert, GoMap}

-- Why an endpoint was rejected. The source prints a text.
pub data RejectReason : Type 0 where
  wildcard many_targets : RejectReason
  unwritable : Invalid → RejectReason

pub record Rejection : Type 0 where
  pub targets : List Str
  pub reason : RejectReason

pub data Verdict : Type 0 where
  unsupported : Verdict
  rejected : RejectReason → Verdict
  accepted : Endpoint → Verdict

abbrev pub is_positive : ℤ → Bool
is_positive (pos zero) = false
is_positive (pos (suc n)) = true
is_positive (negsuc n) = false

-- What the plan compares is what `Records` can report.
abbrev pub trimmed : Endpoint → Endpoint
trimmed ep = record ep {
  record_ttl = if is_positive ep.record_ttl then pos 0 else ep.record_ttl;
  set_identifier = [];
  provider_specific = [];
}

module _ ⦃u : CaseTable⦄ where
  -- The loop over the targets: the first error of `Validate`.
  unfoldable pub first_invalid : Str → Str → List Str → Option Invalid
  first_invalid type name [] = none
  first_invalid type name (target ∷ rest) =
      elim (validate (record { type = type; name = name; value = target; owner = [] })) [
        | some e ↦ some e
        | none ↦ first_invalid type name rest
      ]

  unfoldable pub judge : Endpoint → Verdict
  judge ep =
      if not (is_supported ep.record_type)
      then unsupported
      else if has_prefix ep.dns_name (codes "*.")
      then rejected wildcard
      else if ep.record_type == record_type_cname && ltb 1 (length ep.targets)
      then rejected many_targets
      else elim (first_invalid ep.record_type ep.dns_name ep.targets) [
        | some e ↦ rejected (unwritable e)
        | none ↦ accepted (trimmed ep)
      ]

  -- What an element adds to the result and to the rejections.
  abbrev pub note :
      Endpoint
      → Verdict
      → List Endpoint × GoMap RecordKey Rejection
      → List Endpoint × GoMap RecordKey Rejection
  note ep unsupported (adjusted, rejections) = (adjusted, rejections)
  note ep (accepted ep') (adjusted, rejections) = (adjusted ++ ep' ∷ [], rejections)
  note ep (rejected reason) (adjusted, rejections) = (
    adjusted,
    insert (key_of ep.dns_name ep.record_type)
        (record { targets = sorted ep.targets; reason = reason }) rejections,
  )

  unfoldable pub adjust_loop :
      Pointers
      → List Endpoint × GoMap RecordKey Rejection
      → List Endpoint × GoMap RecordKey Rejection
  adjust_loop [] out = out
  adjust_loop (none ∷ rest) out = adjust_loop rest out
  adjust_loop (some ep ∷ rest) out = adjust_loop rest (note ep (judge ep) out)

  -- The adjusted endpoints and the rejections, which go to the status.
  unfoldable pub adjust : Pointers → List Endpoint × GoMap RecordKey Rejection
  unfolding adjust_loop
  adjust endpoints = adjust_loop endpoints ([], [])
