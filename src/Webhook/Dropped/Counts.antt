-- ===== src/Webhook/Dropped/Counts.antt =====
-- pkg/webhook/webhook.go, `droppedByType`: the counts are the differences.
use external_dns_openwrt_nex.Strings.Laws.{eq_iff}
use external_dns_openwrt_nex.Prelude.{
  ℕ, zero, suc, true, List, [], ◌∷◌, Option, none, some, ◌≡◌, refl, sym, ap, ◌∙◌, subst, arith, ltb,
  if◌then◌else◌, ◌-◌,
}
use external_dns_openwrt_nex.Strings.{Str, ◌==◌}
use external_dns_openwrt_nex.GoMap.{lookup, insert, str_key, HasUniqueKeys, insert-HasUniqueKeys}
use external_dns_openwrt_nex.Ubus.Errors.{ℤ, pos, negsuc}
use external_dns_openwrt_nex.Provider.Endpoints.{Pointers}
use external_dns_openwrt_nex.Tally.{
  Balance, balance_at, succ_ℤ, pred_ℤ, count_keys, count, IsDiff, balance-IsDiff,
}
use external_dns_openwrt_nex.Webhook.Dropped.{count_types, positive_counts, dropped_by_type}

-- The types of the endpoints that are not nil.
abbrev pub types_of : Pointers → List Str
types_of [] = []
types_of (none ∷ rest) = types_of rest
types_of (some ep ∷ rest) = ep.record_type ∷ types_of rest

count_types-eq-count_keys :
    (g : ℤ → ℤ) (eps : Pointers) (m : Balance) → count_types g eps m ≡ count_keys g (types_of eps) m
unfolding count_types count_keys
count_types-eq-count_keys g [] m = refl
count_types-eq-count_keys g (none ∷ rest) m = count_types-eq-count_keys g rest m
count_types-eq-count_keys g (some ep ∷ rest) m =
    count_types-eq-count_keys g rest (insert ep.record_type (g (balance_at ep.record_type m)) m)

count_types-HasUniqueKeys :
    (g : ℤ → ℤ) (eps : Pointers) (m : Balance)
    → HasUniqueKeys m
    → HasUniqueKeys (count_types g eps m)
unfolding count_types
count_types-HasUniqueKeys g [] m h = h
count_types-HasUniqueKeys g (none ∷ rest) m h = count_types-HasUniqueKeys g rest m h
count_types-HasUniqueKeys g (some ep ∷ rest) m h =
    let n = g (balance_at ep.record_type m) in
    count_types-HasUniqueKeys g rest (insert ep.record_type n m)
      (insert-HasUniqueKeys ep.record_type n m h)

abbrev positive : ℤ → Option ℕ
positive (pos zero) = none
positive (pos (suc n)) = some (suc n)
positive (negsuc n) = none

lookup-positive_none :
    (k : Str) (m : Balance) → lookup k m ≡ none → lookup k (positive_counts m) ≡ none
unfolding positive_counts lookup
lookup-positive_none k [] h = refl
lookup-positive_none k ((j, pos zero) ∷ m) h = lookup-positive_none k m (ground arith)
lookup-positive_none k ((j, pos (suc n)) ∷ m) h = ground (arith, lookup-positive_none k m)
lookup-positive_none k ((j, negsuc n) ∷ m) h = lookup-positive_none k m (ground arith)

lookup-positive_same :
    (j k : Str) (m : Balance)
    → (j == k) ≡ true
    → lookup j m ≡ none
    → lookup k (positive_counts m) ≡ none
lookup-positive_same j k m same h =
    lookup-positive_none k m (ap (λ i. lookup i m) (sym ((eq_iff j k).0 same)) ∙ h)

lookup-positive_counts :
    (k : Str) (m : Balance)
    → HasUniqueKeys m
    → lookup k (positive_counts m) ≡ positive (balance_at k m)
unfolding positive_counts lookup balance_at
lookup-positive_counts k [] u = refl
lookup-positive_counts k ((j, pos zero) ∷ m) u =
    ground (arith, lookup-positive_same j k m, lookup-positive_counts k m u.1, u.0)
lookup-positive_counts k ((j, pos (suc n)) ∷ m) u =
    ground (arith, lookup-positive_same j k m, lookup-positive_counts k m u.1, u.0)
lookup-positive_counts k ((j, negsuc n) ∷ m) u =
    ground (arith, lookup-positive_same j k m, lookup-positive_counts k m u.1, u.0)

positive-IsDiff :
    (z : ℤ) (a b : ℕ) → IsDiff z a b → positive z ≡ (if ltb b a then some (a - b) else none)
positive-IsDiff (pos zero) a b h = ground arith
positive-IsDiff (pos (suc n)) a b h = ground arith
positive-IsDiff (negsuc n) a b h = ground arith

-- `droppedByType` counts, for each type, the endpoints that went in less those that came back, and
-- has no entry where as many or more came back.
pub lookup-dropped_by_type :
    (before after : Pointers) (type : Str)
    → lookup type (dropped_by_type before after) ≡ (
        if ltb (count type (types_of after)) (count type (types_of before))
        then some (count type (types_of before) - count type (types_of after))
        else none)
unfolding dropped_by_type
lookup-dropped_by_type before after type =
    let balance = count_types pred_ℤ after (count_types succ_ℤ before []) in
    let same : balance
        ≡ count_keys pred_ℤ (types_of after) (count_keys succ_ℤ (types_of before) []) =
      count_types-eq-count_keys pred_ℤ after (count_types succ_ℤ before [])
      ∙ ap (count_keys pred_ℤ (types_of after)) (count_types-eq-count_keys succ_ℤ before []) in
    let unique =
      count_types-HasUniqueKeys pred_ℤ after (count_types succ_ℤ before [])
        (count_types-HasUniqueKeys succ_ℤ before [] tt) in
    lookup-positive_counts type balance unique
    ∙ positive-IsDiff (balance_at type balance) (count type (types_of before))
        (count type (types_of after))
        (subst
          (λ m.
            IsDiff (balance_at type m) (count type (types_of before)) (count type (types_of after)))
          (sym same) (balance-IsDiff type (types_of before) (types_of after)))
