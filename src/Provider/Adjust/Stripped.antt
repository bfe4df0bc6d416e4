-- ===== src/Provider/Adjust/Stripped.antt =====
-- internal/provider/provider.go, `AdjustEndpoints`: what an endpoint loses that is returned.
use external_dns_openwrt_nex.Prelude.{ℕ, zero, suc, [], ◌≡◌, refl, sym, ap, ◌∙◌, if◌then◌else◌}
use external_dns_openwrt_nex.Ubus.Errors.{ℤ, pos, negsuc}
use external_dns_openwrt_nex.Provider.Endpoints.{Endpoint}
use external_dns_openwrt_nex.Provider.Adjust.{is_positive, trimmed}

-- An endpoint as it is returned: the one given, less what `Records` cannot report. A TTL above zero
-- becomes zero and a negative one stays.
pub record IsStripped (ep ep' : Endpoint) : Type 0 where
  pub same_name : ep'.dns_name ≡ ep.dns_name
  pub same_type : ep'.record_type ≡ ep.record_type
  pub same_targets : ep'.targets ≡ ep.targets
  pub same_labels : ep'.labels ≡ ep.labels
  pub no_identifier : ep'.set_identifier ≡ []
  pub no_properties : ep'.provider_specific ≡ []
  pub no_ttl : (n : ℕ) → ep.record_ttl ≡ pos n → ep'.record_ttl ≡ pos 0
  pub negative_ttl : (n : ℕ) → ep.record_ttl ≡ negsuc n → ep'.record_ttl ≡ negsuc n

stripped_ttl : ℤ → ℤ
stripped_ttl (pos n) = pos 0
stripped_ttl (negsuc n) = negsuc n

trimmed_ttl : (z : ℤ) → (if is_positive z then pos 0 else z) ≡ stripped_ttl z
unfolding stripped_ttl
trimmed_ttl (pos zero) = refl
trimmed_ttl (pos (suc n)) = refl
trimmed_ttl (negsuc n) = refl

pub trimmed-IsStripped : (ep : Endpoint) → IsStripped ep (trimmed ep)
unfolding stripped_ttl
trimmed-IsStripped ep = record {
  same_name = refl;
  same_type = refl;
  same_targets = refl;
  same_labels = refl;
  no_identifier = refl;
  no_properties = refl;
  no_ttl = λ n e. trimmed_ttl ep.record_ttl ∙ ap stripped_ttl e;
  negative_ttl = λ n e. trimmed_ttl ep.record_ttl ∙ ap stripped_ttl e;
}

IsStripped-ttl :
    (ep ep' : Endpoint) → IsStripped ep ep' → ep'.record_ttl ≡ stripped_ttl ep.record_ttl
unfolding stripped_ttl
IsStripped-ttl ep ep' h =
    elim ep.record_ttl as (λ z. ep.record_ttl ≡ z → ep'.record_ttl ≡ stripped_ttl z) [
      | pos n ↦ λ e. h.no_ttl n e
      | negsuc n ↦ λ e. h.negative_ttl n e
    ]
      refl

pub IsStripped-trimmed : (ep ep' : Endpoint) → IsStripped ep ep' → ep' ≡ trimmed ep
IsStripped-trimmed ep ep' h =
    let ttl = IsStripped-ttl ep ep' h ∙ sym (trimmed_ttl ep.record_ttl) in
    cc (
      h.same_name, h.same_type, h.same_targets, h.same_labels, h.no_identifier, h.no_properties,
      ttl,
    )
