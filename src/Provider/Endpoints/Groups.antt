-- ===== src/Provider/Endpoints/Groups.antt =====
-- internal/provider/provider.go, `dnsRecords2Endpoints`: what the groups hold.
use external_dns_openwrt_nex.Prelude.{
  false, List, [], ◌∷◌, ◌++◌, ◌≡◌, ap, subst, arith, inl, inr, ◌⊎◌, ◌↔◌, Bool-cases,
}
use mathlib.Core.List.{Memᴰ}
use mathlib.Core.List.Memᴰ
use external_dns_openwrt_nex.Strings.{Str}
use external_dns_openwrt_nex.GoMap.{GoMap, lookup, insert}
use external_dns_openwrt_nex.Provider.Endpoints.{
  RecordKey, record_key, record_key_beq, record_key_beq_iff, group_at,
}

abbrev pub Groups : Type 0
Groups = GoMap RecordKey (List Str)

-- A group of the key holds the target.
unfoldable pub InGroup : RecordKey → Str → Groups → Type 0
InGroup k v g = (ts : List Str) × Memᴰ (k, ts) g × Memᴰ v ts

pub InGroup-cons :
    (k : RecordKey) (v : Str) (j : RecordKey) (w : List Str) (g : Groups)
    → InGroup k v ((j, w) ∷ g) ↔ (((k ≡ j) × Memᴰ v w) ⊎ InGroup k v g)
unfolding InGroup
InGroup-cons k v j w g = (
  λ (ts, m, n). elim (Memᴰ.cases_cons m) [
    | inl e ↦ inl (ap (λ p. p.0) e, subst (λ l. Memᴰ v l) (ap (λ p. p.1) e) n)
    | inr later ↦ inr (ts, later, n)
  ],
  λ h. elim h [
    | inl (e, n) ↦ (w, Memᴰ.head (ap (λ (i : RecordKey). (i, w)) e), n)
    | inr (ts, m, n) ↦ (ts, Memᴰ.tail m, n)
  ],
)

pub mem-snoc : (v x : Str) (w : List Str) → Memᴰ v (w ++ x ∷ []) ↔ (Memᴰ v w ⊎ (v ≡ x))
mem-snoc v x w = (
  λ m. elim (Memᴰ.append_cases w m) [
    | inl before ↦ inl before
    | inr last ↦ inr (Memᴰ.eq_of_singleton last)
  ],
  λ h. elim h [
    | inl before ↦ Memᴰ.append_left (x ∷ []) before
    | inr e ↦ Memᴰ.append_right w (Memᴰ.head e)
  ],
)

pub group_at-other :
    (j i : RecordKey) (w : List Str) (g : Groups)
    → record_key_beq i j ≡ false
    → group_at j ((i, w) ∷ g) ≡ group_at j g
unfolding lookup
group_at-other j i w g other = rw (other, group_at)

pub append_other :
    (j : RecordKey) (x : Str) (i : RecordKey) (w : List Str) (g : Groups)
    → record_key_beq i j ≡ false
    → insert j (group_at j ((i, w) ∷ g) ++ x ∷ []) ((i, w) ∷ g)
      ≡ (i, w) ∷ insert j (group_at j g ++ x ∷ []) g
unfolding insert lookup
append_other j x i w g other =
    rw other (ap (λ l. (i, w) ∷ insert j (l ++ x ∷ []) g) (group_at-other j i w g other))

-- Appending a target to a key's group adds that target, and no other.
pub InGroup-append :
    (k : RecordKey) (v : Str) (j : RecordKey) (x : Str) (g : Groups)
    → InGroup k v (insert j (group_at j g ++ x ∷ []) g) ↔ (InGroup k v g ⊎ ((k ≡ j) × (v ≡ x)))
unfolding insert lookup
InGroup-append k v j x [] =
    ground
      (arith, InGroup-cons k v j (x ∷ []) [], mem-snoc v x [], λ (m : Memᴰ v []). Memᴰ.not-nil m)
InGroup-append k v j x ((i, w) ∷ g) = elim (Bool-cases (record_key_beq i j)) [
  | inl same ↦
      let e : i ≡ j = (record_key_beq_iff i j).0 same in
      rw same (
        ground
          (arith, e, InGroup-cons k v i (w ++ x ∷ []) g, InGroup-cons k v i w g, mem-snoc v x w))
  | inr other ↦
      let more = group_at j g ++ x ∷ [] in
      rw (append_other j x i w g other) (
        ground (
          arith,
          InGroup-cons k v i w (insert j more g),
          InGroup-cons k v i w g,
          InGroup-append k v j x g,
        ))
]
