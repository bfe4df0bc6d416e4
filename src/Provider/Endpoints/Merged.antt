-- ===== src/Provider/Endpoints/Merged.antt =====
-- internal/provider/provider.go, `dnsRecords2Endpoints`: the sections of one name and type are reported
-- as one endpoint, with the target of each of them.
use external_dns_openwrt_nex.Prelude.{
  ℕ, ◌+◌, Bool, true, false, ◌&&◌, ◌||◌, List, [], ◌∷◌, ◌++◌, map, none, some, ◌≡◌, refl, ap, ◌∙◌,
  subst, arith, inl, inr, ◌↔◌, if◌then◌else◌, length, keep, any,
}
use mathlib.Core.List.{Memᴰ}
use mathlib.Core.List.Memᴰ
use external_dns_openwrt_nex.Strings.{Str, CaseTable, ◌==◌}
use external_dns_openwrt_nex.GoMap.{
  GoMap, insert, lookup, lookup-insert, HasUniqueKeys, insert-HasUniqueKeys,
}
use external_dns_openwrt_nex.Sorting.{sort, sorted, insert_sorted, le_str}
use external_dns_openwrt_nex.Tally.{count}
use external_dns_openwrt_nex.OpenWrt.Types.{DnsRecord, canonical_name}
use external_dns_openwrt_nex.Provider.Endpoints.{
  Endpoint, RecordKey, record_key, record_key_beq, record_key_beq_iff, key_of, is_supported,
  endpoints_to_dns_records, group_at, group_records, endpoint_of, le_endpoint,
  dns_records_to_endpoints,
}
use external_dns_openwrt_nex.Provider.Endpoints.Groups.{Groups}
use external_dns_openwrt_nex.Provider.Endpoints.Grouping.{
  endpoints-roundtrip, reported, mem-dns_records_to_endpoints,
}

module _ {A : Type 0} (p : A → Bool) where
  -- How many elements of a list pass a test.
  abbrev pub count_if : List A → ℕ
  count_if xs = length (keep p xs)

  count_if-insert_sorted :
      (le : A → A → Bool) (x : A) (xs : List A)
      → count_if (insert_sorted le x xs) ≡ count_if (x ∷ xs)
  unfolding insert_sorted
  count_if-insert_sorted le x [] = refl
  count_if-insert_sorted le x (y ∷ ys) = ground (arith, count_if-insert_sorted le x ys)

  -- Sorting keeps the elements, each as often as it was there.
  count_if-sort : (le : A → A → Bool) (xs : List A) → count_if (sort le xs) ≡ count_if xs
  unfolding sort
  count_if-sort le [] = refl
  count_if-sort le (x ∷ xs) =
      ground (arith, count_if-insert_sorted le x (sort le xs), count_if-sort le xs)

count_if-map :
    {A B : Type 0} (p : B → Bool) (f : A → B) (xs : List A)
    → count_if p (map f xs) ≡ count_if (λ x. p (f x)) xs
count_if-map p f [] = refl
count_if-map p f (x ∷ xs) = ground (arith, count_if-map p f xs)

count-snoc :
    (v x : Str) (w : List Str) → count v (w ++ x ∷ []) ≡ count v w + (if x == v then 1 else 0)
count-snoc v x [] = ground arith
count-snoc v x (y ∷ w) = ground (arith, count-snoc v x w)

-- A group stands under the key.
is_grouped : RecordKey → Groups → Bool
is_grouped k g = elim (lookup k g) [ none ↦ false | some targets ↦ true ]

is_grouped-insert :
    (j k : RecordKey) (w : List Str) (g : Groups)
    → is_grouped k (insert j w g) ≡ (record_key_beq j k || is_grouped k g)
unfolding is_grouped
is_grouped-insert j k w g = ground (arith, lookup-insert j k w g)

group_at-insert :
    (j k : RecordKey) (w : List Str) (g : Groups)
    → group_at k (insert j w g) ≡ (if record_key_beq j k then w else group_at k g)
group_at-insert j k w g = ground (arith, lookup-insert j k w g)

-- How many groups stand under the key.
abbrev groups_of : RecordKey → Groups → ℕ
groups_of k g = count_if (λ p. record_key_beq p.0 k) g

groups_of-none :
    (j k : RecordKey) (g : Groups)
    → record_key_beq j k ≡ true
    → lookup j g ≡ none
    → groups_of k g ≡ 0
unfolding lookup
groups_of-none j k [] e h = refl
groups_of-none j k ((i, w) ∷ g) e h = ground (
  arith,
  record_key_beq_iff j k,
  record_key_beq_iff i j,
  record_key_beq_iff i k,
  groups_of-none j k g e,
)

groups_of_unique :
    (k : RecordKey) (g : Groups)
    → HasUniqueKeys g
    → groups_of k g ≡ (if is_grouped k g then 1 else 0)
unfolding lookup is_grouped
groups_of_unique k [] h = refl
groups_of_unique k ((j, w) ∷ g) h =
    ground (arith, groups_of-none j k g, groups_of_unique k g h.1, h.0)

group_at-mem :
    (k : RecordKey) (ts : List Str) (g : Groups)
    → HasUniqueKeys g
    → Memᴰ (k, ts) g
    → lookup k g ≡ some ts
unfolding lookup
group_at-mem k ts [] h m = absurd (Memᴰ.not-nil m)
group_at-mem k ts ((j, w) ∷ g) h m = elim (Memᴰ.cases_cons m) [
  | inl e ↦
      let same : k ≡ j = ap (λ p. p.0) e in
      let held : ts ≡ w = ap (λ p. p.1) e in ground (arith, same, held, record_key_beq_iff j k)
  | inr later ↦
      let there = group_at-mem k ts g h.1 later in
      ground (arith, there, h.0, record_key_beq_iff j k)
]

module _ ⦃u : CaseTable⦄ where
  -- The record has this canonical name and type.
  abbrev pub is_at : RecordKey → DnsRecord → Bool
  is_at k r = canonical_name r.name == k.name && r.type == k.record_type

  group_records-HasUniqueKeys :
      (m : GoMap Str DnsRecord) (g : Groups) → HasUniqueKeys g → HasUniqueKeys (group_records m g)
  unfolding group_records
  group_records-HasUniqueKeys [] g h = h
  group_records-HasUniqueKeys ((section, r) ∷ rest) g h =
      let k = key_of r.name r.type in
      let more = group_at k g ++ r.value ∷ [] in
      group_records-HasUniqueKeys rest (insert k more g) (insert-HasUniqueKeys k more g h)

  is_grouped-group_records :
      (k : RecordKey) (m : GoMap Str DnsRecord) (g : Groups)
      → is_grouped k (group_records m g) ≡ (is_grouped k g || any (λ x. is_at k x.1) m)
  unfolding group_records key_of record_key_beq
  is_grouped-group_records k [] g = ground arith
  is_grouped-group_records k ((section, r) ∷ rest) g =
      let j = key_of r.name r.type in
      let more = group_at j g ++ r.value ∷ [] in
      ground
        (arith, is_grouped-group_records k rest (insert j more g), is_grouped-insert j k more g)

  count-group_records :
      (k : RecordKey) (v : Str) (m : GoMap Str DnsRecord) (g : Groups)
      → count v (group_at k (group_records m g))
        ≡ count v (group_at k g) + count_if (λ x. is_at k x.1 && x.1.value == v) m
  unfolding group_records key_of record_key_beq
  count-group_records k v [] g = omega arith
  count-group_records k v ((section, r) ∷ rest) g =
      let j = key_of r.name r.type in
      let more = group_at j g ++ r.value ∷ [] in
      ground (
        arith,
        count-group_records k v rest (insert j more g),
        group_at-insert j k more g,
        count-snoc v r.value (group_at j g),
        record_key_beq_iff j k,
      )

  abbrev pub key_in : Endpoint → RecordKey
  key_in ep = record { name = ep.dns_name; record_type = ep.record_type }

  -- What Records reports of sections.
  pub record Merges (m : GoMap Str DnsRecord) (eps : List Endpoint) : Type 0 where
    -- One endpoint for each name and type that a section has, and no other.
    pub merged :
        (k : RecordKey)
        → count_if (λ ep. record_key_beq (key_in ep) k) eps
          ≡ (if any (λ x. is_at k x.1) m then 1 else 0)
    -- Its targets are those of the sections, each as often as there are sections with it.
    pub targets :
        (ep : Endpoint) (v : Str)
        → Memᴰ ep eps
        → count v ep.targets ≡ count_if (λ x. is_at (key_in ep) x.1 && x.1.value == v) m
    -- Flattened, the endpoints are the records of the sections of a supported type.
    pub flattened :
        (r : DnsRecord)
        → Memᴰ r (endpoints_to_dns_records (map some eps))
          ↔ ((x : Str × DnsRecord) × Memᴰ x m × (is_supported x.1.type ≡ true) × (reported x.1 ≡ r))

  endpoints-one :
      (m : GoMap Str DnsRecord) (k : RecordKey)
      → count_if (λ ep. record_key_beq (key_in ep) k) (dns_records_to_endpoints m)
        ≡ (if any (λ x. is_at k x.1) m then 1 else 0)
  unfolding dns_records_to_endpoints
  endpoints-one m k =
      let g = group_records m [] in
      let p = λ (ep : Endpoint). record_key_beq (key_in ep) k in
      let among : is_grouped k g ≡ any (λ x. is_at k x.1) m =
        is_grouped-group_records k m [] ∙ unfold is_grouped lookup in refl in
      count_if-sort p le_endpoint (map endpoint_of g)
      ∙ count_if-map p endpoint_of g
      ∙ groups_of_unique k g (group_records-HasUniqueKeys m [] tt)
      ∙ ap (λ b. if b then 1 else 0) among

  endpoints-targets :
      (m : GoMap Str DnsRecord) (ep : Endpoint) (v : Str)
      → Memᴰ ep (dns_records_to_endpoints m)
      → count v ep.targets ≡ count_if (λ x. is_at (key_in ep) x.1 && x.1.value == v) m
  unfolding sorted
  endpoints-targets m ep v listed =
      let ((k, ts), grouped, e) = (mem-dns_records_to_endpoints ep m).0 listed in
      let held =
        group_at-mem k ts (group_records m []) (group_records-HasUniqueKeys m [] tt) grouped in
      let all : group_at k (group_records m []) ≡ ts = rw (held, group_at) refl in
      let empty : count v (group_at k []) ≡ 0 = unfold lookup in refl in
      let counted : count v ts ≡ count_if (λ x. is_at k x.1 && x.1.value == v) m =
        omega (arith, ap (count v) all, count-group_records k v m [], empty) in
      subst
        (λ (x : Endpoint).
          count v x.targets ≡ count_if (λ y. is_at (key_in x) y.1 && y.1.value == v) m)
        e (count_if-sort (λ j. j == v) le_str ts ∙ counted)

  -- Records merges the sections: it reports exactly one endpoint for each canonical name and type that
  -- a section has, whose targets are the values of those sections, each as often as there are
  -- sections with it. Flattened again, the endpoints are the records of the sections of a supported
  -- type, by their canonical names and with no owner.
  pub endpoints-merged : (m : GoMap Str DnsRecord) → Merges m (dns_records_to_endpoints m)
  endpoints-merged m = record {
    merged = endpoints-one m;
    targets = endpoints-targets m;
    flattened = endpoints-roundtrip m;
  }
