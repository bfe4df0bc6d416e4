-- ===== src/Provider/Tracker/Learns.antt =====
-- internal/provider/status.go: what the tracker holds for a record after a change set.
use external_dns_openwrt_nex.Prelude.{
  Bool, true, false, List, [], ◌∷◌, Option, none, some, ◌≡◌, refl, ap, ◌∙◌, arith, if◌then◌else◌,
  any, Bool-cases, inl, inr,
}
use mathlib.Core.List.{Memᴰ}
use external_dns_openwrt_nex.Strings.{Str, CaseTable}
use external_dns_openwrt_nex.GoMap.{GoMap, lookup, insert, erase, lookup-insert, lookup-erase}
use external_dns_openwrt_nex.Exec.{ok, err}
use external_dns_openwrt_nex.Sorting.{sorted}
use external_dns_openwrt_nex.OpenWrt.Apply.{Reason, Fault}
use external_dns_openwrt_nex.Provider.Endpoints.{
  RecordKey, record_key, Endpoint, Pointers, record_key_beq, record_key_beq_iff,
}
use external_dns_openwrt_nex.Provider.Adjust.{Rejection}
use external_dns_openwrt_nex.Provider.Tracker.{Tracker, TargetMap, nil_pointer, change, entry}
use external_dns_openwrt_nex.Provider.Tracker.Observe.{
  key_at, note_wanted, note_failure, mark_wanted, forget_old, hold_one, hold_wanted,
}

abbrev pub has_nil : Pointers → Bool
has_nil = any (λ ep. elim ep [ none ↦ true | some _ ↦ false ])

-- What a change set's first loop leaves alone.
abbrev pub seen : Tracker → Option TargetMap × (Option TargetMap × GoMap RecordKey Rejection)
seen t = (t.actual, (t.desired, t.rejected))

-- What the loops over the router's records leave alone.
abbrev pub kept :
    Tracker
    → (Option TargetMap × GoMap RecordKey Rejection)
      × (GoMap RecordKey Reason × GoMap RecordKey Fault)
kept t = ((t.desired, t.rejected), (t.conflicts, t.failures))

abbrev pub is_known : Option TargetMap → Bool
is_known none = false
is_known (some m) = true

module _ ⦃u : CaseTable⦄ where
  abbrev pub has_key : RecordKey → Option Endpoint → Bool
  has_key k none = false
  has_key k (some ep) = record_key_beq (key_at ep) k

  pub mark_wanted-result :
      (error : Option Fault) (eps : Pointers) (t : Tracker)
      → (mark_wanted error eps t).0 ≡ (if has_nil eps then err nil_pointer else ok tt)
  unfolding mark_wanted
  mark_wanted-result error [] t = refl
  mark_wanted-result error (none ∷ rest) t = refl
  mark_wanted-result error (some ep ∷ rest) t =
      mark_wanted-result error rest (note_wanted error (key_at ep) t)

  pub mark_wanted-seen :
      (error : Option Fault) (eps : Pointers) (t : Tracker)
      → seen (mark_wanted error eps t).1 ≡ seen t
  unfolding mark_wanted
  mark_wanted-seen error [] t = refl
  mark_wanted-seen error (none ∷ rest) t = refl
  mark_wanted-seen error (some ep ∷ rest) t =
      mark_wanted-seen error rest (note_wanted error (key_at ep) t)

  pub mark_wanted-conflicts :
      (error : Option Fault) (eps : Pointers) (t : Tracker) (k : RecordKey)
      → has_nil eps ≡ false
      → lookup k (mark_wanted error eps t).1.conflicts
        ≡ (if any (has_key k) eps then none else lookup k t.conflicts)
  unfolding mark_wanted
  mark_wanted-conflicts error [] t k h = refl
  mark_wanted-conflicts error (none ∷ rest) t k h = cc
  mark_wanted-conflicts error (some ep ∷ rest) t k h = ground (
    arith,
    mark_wanted-conflicts error rest (note_wanted error (key_at ep) t) k h,
    lookup-erase (key_at ep) k t.conflicts,
  )

  pub note_failure-own :
      (error : Option Fault) (k j : RecordKey) (m : GoMap RecordKey Fault)
      → lookup j (note_failure error k (erase k m))
        ≡ (if record_key_beq k j then error else lookup j m)
  note_failure-own none k j m = lookup-erase k j m
  note_failure-own (some e) k j m =
      ground (arith, lookup-insert k j e (erase k m), lookup-erase k j m)

  pub mark_wanted-failures :
      (error : Option Fault) (eps : Pointers) (t : Tracker) (k : RecordKey)
      → has_nil eps ≡ false
      → lookup k (mark_wanted error eps t).1.failures
        ≡ (if any (has_key k) eps then error else lookup k t.failures)
  unfolding mark_wanted
  mark_wanted-failures error [] t k h = refl
  mark_wanted-failures error (none ∷ rest) t k h = cc
  mark_wanted-failures error (some ep ∷ rest) t k h = ground (
    arith,
    mark_wanted-failures error rest (note_wanted error (key_at ep) t) k h,
    note_failure-own error (key_at ep) k t.failures,
  )

  pub forget_old-result :
      (eps : Pointers) (t : Tracker)
      → (forget_old eps t).0 ≡ (if has_nil eps then err nil_pointer else ok tt)
  unfolding forget_old
  forget_old-result [] t = refl
  forget_old-result (none ∷ rest) t = refl
  forget_old-result (some ep ∷ rest) t =
      forget_old-result rest (record t { actual = change (erase (key_at ep)) t.actual })

  pub forget_old-kept : (eps : Pointers) (t : Tracker) → kept (forget_old eps t).1 ≡ kept t
  unfolding forget_old
  forget_old-kept [] t = refl
  forget_old-kept (none ∷ rest) t = refl
  forget_old-kept (some ep ∷ rest) t =
      forget_old-kept rest (record t { actual = change (erase (key_at ep)) t.actual })

  change-is_known :
      (f : TargetMap → TargetMap) (m : Option TargetMap) → is_known (change f m) ≡ is_known m
  change-is_known f none = refl
  change-is_known f (some m) = refl

  pub forget_old-is_known :
      (eps : Pointers) (t : Tracker) → is_known (forget_old eps t).1.actual ≡ is_known t.actual
  unfolding forget_old
  forget_old-is_known [] t = refl
  forget_old-is_known (none ∷ rest) t = refl
  forget_old-is_known (some ep ∷ rest) t =
      forget_old-is_known rest (record t { actual = change (erase (key_at ep)) t.actual })
      ∙ change-is_known (erase (key_at ep)) t.actual

  pub hold_wanted-result :
      (eps : Pointers) (t : Tracker)
      → (hold_wanted eps t).0 ≡ (if has_nil eps then err nil_pointer else ok tt)
  unfolding hold_wanted
  hold_wanted-result [] t = refl
  hold_wanted-result (none ∷ rest) t = refl
  hold_wanted-result (some ep ∷ rest) t = hold_wanted-result rest (hold_one ep t)

  hold_one-kept : (ep : Endpoint) (t : Tracker) → kept (hold_one ep t) ≡ kept t
  hold_one-kept ep t = ground arith

  pub hold_wanted-kept : (eps : Pointers) (t : Tracker) → kept (hold_wanted eps t).1 ≡ kept t
  unfolding hold_wanted
  hold_wanted-kept [] t = refl
  hold_wanted-kept (none ∷ rest) t = refl
  hold_wanted-kept (some ep ∷ rest) t = hold_wanted-kept rest (hold_one ep t) ∙ hold_one-kept ep t

  entry-insert :
      (j k : RecordKey) (v : List Str) (m : Option TargetMap)
      → is_known m ≡ true
      → entry k (change (insert j v) m) ≡ (if record_key_beq j k then some v else entry k m)
  entry-insert j k v none i = cc
  entry-insert j k v (some m) i = lookup-insert j k v m

  hold_one-is_known :
      (ep : Endpoint) (t : Tracker) → is_known (hold_one ep t).actual ≡ is_known t.actual
  hold_one-is_known ep t =
      ground (arith, change-is_known (insert (key_at ep) (sorted ep.targets)) t.actual)

  hold_one-entry :
      (ep : Endpoint) (t : Tracker) (k : RecordKey) (want : List Str)
      → is_known t.actual ≡ true
      → lookup k t.conflicts ≡ none
      → (key_at ep ≡ k → sorted ep.targets ≡ want)
      → entry k (hold_one ep t).actual
        ≡ (if record_key_beq (key_at ep) k then some want else entry k t.actual)
  hold_one-entry ep t k want i c d = elim (Bool-cases (record_key_beq (key_at ep) k)) [
    | inl e ↦
        let same = (record_key_beq_iff (key_at ep) k).0 e in
        let free : lookup (key_at ep) t.conflicts ≡ none =
          ap (λ j. lookup j t.conflicts) same ∙ c in
        ground (arith, free, d same, entry-insert (key_at ep) k (sorted ep.targets) t.actual i)
    | inr e ↦ ground (arith, entry-insert (key_at ep) k (sorted ep.targets) t.actual i)
  ]

  -- What the second loop leaves for a record that is in no conflict.
  pub hold_wanted-entry :
      (eps : Pointers) (t : Tracker) (k : RecordKey) (want : List Str)
      → has_nil eps ≡ false
      → is_known t.actual ≡ true
      → lookup k t.conflicts ≡ none
      → ((ep : Endpoint) → Memᴰ (some ep) eps → key_at ep ≡ k → sorted ep.targets ≡ want)
      → entry k (hold_wanted eps t).1.actual
        ≡ (if any (has_key k) eps then some want else entry k t.actual)
  unfolding hold_wanted
  hold_wanted-entry [] t k want h i c d = refl
  hold_wanted-entry (none ∷ rest) t k want h i c d = cc
  hold_wanted-entry (some ep ∷ rest) t k want h i c d =
      let t' = hold_one ep t in
      let above =
        hold_wanted-entry rest t' k want h (hold_one-is_known ep t ∙ i)
          (ap (λ p. lookup k p.1.0) (hold_one-kept ep t) ∙ c) (λ ep' m. d ep' (Memᴰ.tail m)) in
      let here = hold_one-entry ep t k want i c (d ep (Memᴰ.head refl)) in
      ground (arith, above, here)
