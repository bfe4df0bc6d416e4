-- ===== src/Provider/Endpoints/Grouping.antt =====
-- internal/provider/provider.go: the records of the router, grouped into endpoints and flattened
-- again, are the same records.
use external_dns_openwrt_nex.Prelude.{
  true, List, [], ◌∷◌, ◌++◌, map, some, ◌≡◌, refl, sym, ap, ◌∙◌, subst, inl, inr, ◌⊎◌, ◌↔◌,
  Bool-cases,
}
use mathlib.Core.List.{Memᴰ}
use mathlib.Core.List.Memᴰ
use external_dns_openwrt_nex.Strings.{Str, CaseTable}
use external_dns_openwrt_nex.GoMap.{GoMap, insert}
use external_dns_openwrt_nex.Sorting.{sorted, mem-sort, le_str}
use external_dns_openwrt_nex.OpenWrt.Types.{DnsRecord, canonical_name}
use external_dns_openwrt_nex.Provider.Endpoints.{
  Endpoint, RecordKey, record_key, key_of, is_supported, records_of, records_at,
  endpoints_to_dns_records, group_at, group_records, endpoint_of, le_endpoint,
  dns_records_to_endpoints,
}
use external_dns_openwrt_nex.Provider.Endpoints.Groups.{Groups, InGroup, InGroup-append}

module _ ⦃u : CaseTable⦄ where
  -- A section of the map gives the target to the key.
  Gives : RecordKey → Str → Str × DnsRecord → Type 0
  Gives k v x = (k ≡ key_of x.1.name x.1.type) × (v ≡ x.1.value)

  Given : RecordKey → Str → GoMap Str DnsRecord → Type 0
  Given k v m = (x : Str × DnsRecord) × Memᴰ x m × Gives k v x

  Given-cons :
      (k : RecordKey) (v : Str) (x : Str × DnsRecord) (m : GoMap Str DnsRecord)
      → Given k v (x ∷ m) ↔ (Gives k v x ⊎ Given k v m)
  unfolding Given
  Given-cons k v x m = (
    λ (y, member, h). elim (Memᴰ.cases_cons member) [
      | inl e ↦ inl (subst (Gives k v) e h)
      | inr later ↦ inr (y, later, h)
    ],
    λ h. elim h [
      | inl here ↦ (x, Memᴰ.head refl, here)
      | inr (y, member, there) ↦ (y, Memᴰ.tail member, there)
    ],
  )

  InGroup-group_records :
      (k : RecordKey) (v : Str) (m : GoMap Str DnsRecord) (g : Groups)
      → InGroup k v (group_records m g) ↔ (InGroup k v g ⊎ Given k v m)
  unfolding group_records Gives
  InGroup-group_records k v [] g =
      (inl, λ h. elim h [ inl a ↦ a | inr b ↦ unfold Given in absurd (Memᴰ.not-nil b.1) ])
  InGroup-group_records k v ((section, r) ∷ rest) g =
      let j = key_of r.name r.type in
      let g' = insert j (group_at j g ++ r.value ∷ []) g in
      let (to, from) = InGroup-group_records k v rest g' in
      let (split, join) = InGroup-append k v j r.value g in
      let (uncons, cons) = Given-cons k v (section, r) rest in
      (
        λ m. elim (to m) [
          | inl a ↦ elim (split a) [ inl b ↦ inl b | inr c ↦ inr (cons (inl c)) ]
          | inr d ↦ inr (cons (inr d))
        ],
        λ h. elim h [
          | inl b ↦ from (inl (join (inl b)))
          | inr d ↦ elim (uncons d) [ inl c ↦ from (inl (join (inr c))) | inr q ↦ from (inr q) ]
        ],
      )

  pub mem-dns_records_to_endpoints :
      (ep : Endpoint) (m : GoMap Str DnsRecord)
      → Memᴰ ep (dns_records_to_endpoints m)
        ↔ ((x : RecordKey × List Str) × Memᴰ x (group_records m []) × (endpoint_of x ≡ ep))
  unfolding dns_records_to_endpoints
  mem-dns_records_to_endpoints ep m =
      let groups = group_records m [] in
      let (to, from) = mem-sort le_endpoint ep (map endpoint_of groups) in
      (
        λ h. Memᴰ.of_map endpoint_of groups (to h),
        λ (x, member, e).
            from (subst (λ y. Memᴰ y (map endpoint_of groups)) e (Memᴰ.map endpoint_of member)),
      )

-- The record is one of the endpoint's.
abbrev IsOf : DnsRecord → Endpoint → Type 0
IsOf r ep = (is_supported ep.record_type ≡ true) × Memᴰ r (records_of ep)

mem-records_at : (r : DnsRecord) (ep : Endpoint) → Memᴰ r (records_at (some ep)) ↔ IsOf r ep
mem-records_at r ep = elim (Bool-cases (is_supported ep.record_type)) [
  | inl yes_it_is ↦ rw yes_it_is (λ h. (refl, h), λ h. h.1)
  | inr otherwise ↦ rw otherwise (λ h. absurd (Memᴰ.not-nil h), λ h. cc)
]

mem-endpoints_to_dns_records :
    (r : DnsRecord) (eps : List Endpoint)
    → Memᴰ r (endpoints_to_dns_records (map some eps)) ↔ ((ep : Endpoint) × Memᴰ ep eps × IsOf r ep)
unfolding endpoints_to_dns_records
mem-endpoints_to_dns_records r [] =
    (λ h. absurd (Memᴰ.not-nil h), λ (ep, m, h). absurd (Memᴰ.not-nil m))
mem-endpoints_to_dns_records r (ep ∷ eps) =
    let (to, from) = mem-endpoints_to_dns_records r eps in
    (
      λ h. elim (Memᴰ.append_cases (records_at (some ep)) h) [
        | inl here ↦ (ep, Memᴰ.head refl, (mem-records_at r ep).0 here)
        | inr later ↦ let (e, m, k) = to later in (e, Memᴰ.tail m, k)
      ],
      λ (e, m, k). elim (Memᴰ.cases_cons m) [
        | inl same ↦
            Memᴰ.append_left (endpoints_to_dns_records (map some eps))
              ((mem-records_at r ep).1 (subst (IsOf r) same k))
        | inr later ↦ Memᴰ.append_right (records_at (some ep)) (from (e, later, k))
      ],
    )

module _ ⦃u : CaseTable⦄ where
  -- The record that a section is reported as.
  abbrev pub reported : DnsRecord → DnsRecord
  reported r = record { type = r.type; name = canonical_name r.name; value = r.value; owner = [] }

  -- The record of a target in a key's group.
  abbrev of_group : RecordKey → Str → DnsRecord
  of_group k v = record { type = k.record_type; name = k.name; value = v; owner = [] }

  -- A group's endpoint has the records of the sections in the group.
  mem-endpoint_of :
      (r : DnsRecord) (k : RecordKey) (ts : List Str)
      → Memᴰ r (records_of (endpoint_of (k, ts))) ↔ ((v : Str) × Memᴰ v ts × (of_group k v ≡ r))
  unfolding sorted
  mem-endpoint_of r k ts = (
    λ h.
        let (v, m, e) = Memᴰ.of_map (of_group k) (sorted ts) h in
        (v, (mem-sort le_str v ts).0 m, e),
    λ (v, m, e).
        subst (λ y. Memᴰ y (map (of_group k) (sorted ts))) e
          (Memᴰ.map (of_group k) ((mem-sort le_str v ts).1 m)),
  )

  of_group-ap : {k j : RecordKey} {v w : Str} → k ≡ j → v ≡ w → of_group k v ≡ of_group j w
  of_group-ap {k} {j} {v} e q = ap (λ i. of_group i v) e ∙ ap (of_group j) q

  -- The records of the endpoints that Records reports are those of the router's sections of a
  -- supported type, by their canonical names and with no owner: none is lost in the grouping, and
  -- none comes in.
  pub endpoints-roundtrip :
      (m : GoMap Str DnsRecord) (r : DnsRecord)
      → Memᴰ r (endpoints_to_dns_records (map some (dns_records_to_endpoints m)))
        ↔ ((x : Str × DnsRecord) × Memᴰ x m × (is_supported x.1.type ≡ true) × (reported x.1 ≡ r))
  unfolding key_of InGroup Given Gives
  endpoints-roundtrip m r = (
    λ h.
        let (ep, listed, of) = (mem-endpoints_to_dns_records r (dns_records_to_endpoints m)).0 h in
        let ((k, ts), grouped, e) = (mem-dns_records_to_endpoints ep m).0 listed in
        let (sup, held) = subst (IsOf r) (sym e) of in
        let (v, there, q) = (mem-endpoint_of r k ts).0 held in
        elim ((InGroup-group_records k v m []).0 (ts, grouped, there)) [
          | inl (us, nowhere, _) ↦ absurd (Memᴰ.not-nil nowhere)
          | inr (x, member, (same, value)) ↦ (
            x,
            member,
            subst (λ (j : RecordKey). is_supported j.record_type ≡ true) same sup,
            sym (of_group-ap same value) ∙ q,
          )
        ],
    λ (x, member, sup, e).
        let k = key_of x.1.name x.1.type in
        let (ts, grouped, there) =
          (InGroup-group_records k x.1.value m []).1 (inr (x, member, (refl, refl))) in
        (mem-endpoints_to_dns_records r (dns_records_to_endpoints m)).1 (
          endpoint_of (k, ts),
          (mem-dns_records_to_endpoints (endpoint_of (k, ts)) m).1 ((k, ts), grouped, refl),
          (sup, (mem-endpoint_of r k ts).1 (x.1.value, there, e)),
        ),
  )
