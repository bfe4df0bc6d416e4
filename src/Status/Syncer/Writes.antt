-- ===== src/Status/Syncer/Writes.antt =====
-- pkg/status/syncer.go, `sync`: which objects a pass writes, whatever the API server answers.
use external_dns_openwrt_nex.Prelude.{
  false, List, [], ◌∷◌, map, ◌≡◌, refl, sym, subst, inl, inr, ◌⊎◌, any, Bool-cases,
}
use mathlib.Core.List.{Memᴰ}
use mathlib.Core.List.Memᴰ
use external_dns_openwrt_nex.Strings.{Str, codes, CaseTable, ◌==◌}
use external_dns_openwrt_nex.GoMap.{GoMap, lookup, insert, str_key}
use external_dns_openwrt_nex.Exec.{Result, ok, err}
use external_dns_openwrt_nex.Metrics.{Float64}
use external_dns_openwrt_nex.Status.Names.{Digest}
use external_dns_openwrt_nex.Status.Syncer.{
  Record, Object, WrittenRecord, Syncer, Site, read_live, up_to_date, fail, note_write,
  remove_stale, name_of, object_of, sync_record, sync_records, sync_listed, sync,
}
use external_dns_openwrt_nex.Status.Syncer.Turn.{world-note_write}

module _ {W E : Type 0} ⦃u : CaseTable⦄ ⦃d : Digest⦄ (s : Syncer W E) where
  -- What is kept when objects of the snapshot are applied.
  abbrev pub IsKeptByApply : (W → Type 0) → List Record → Type 0
  IsKeptByApply P records =
      (r : Record) (o : Object) (w : W)
      → Memᴰ r records
      → o.name ≡ name_of r
      → o.shown ≡ r
      → P w
      → P (s.client.apply o w).1

  -- What is kept when listed objects are removed that no record of the snapshot names.
  abbrev pub IsKeptByRemove : (W → Type 0) → List Record → List Str → Type 0
  IsKeptByRemove P records listed =
      (name : Str) (w : W)
      → Memᴰ name listed
      → any (λ n. n == name) (map name_of records) ≡ false
      → P w
      → P (s.client.remove name w).1

module _ {W E F : Type 0} ⦃u : CaseTable⦄ ⦃d : Digest⦄ ⦃f : Float64 F⦄ (s : Syncer W E) where
  Holds-note :
      (P : W → Type 0) (operation : Str) (r : Result E (Unit {0})) (site : Site W F)
      → P site.world
      → P (note_write s operation r site).world
  Holds-note P operation r site h = subst P (sym (world-note_write s operation r site)) h

  Holds-sync_record :
      (P : W → Type 0) (records : List Record)
      → IsKeptByApply s P records
      → (live : GoMap Str WrittenRecord) (r : Record) (site : Site W F) → Memᴰ r records
      → P site.world
      → P (sync_record s live r site).world
  unfolding sync_record object_of
  Holds-sync_record P records kept live r site m h =
      elim (Bool-cases (up_to_date r (lookup (name_of r) live))) [
        | inl fresh ↦ rw fresh h
        | inr stale ↦
            let o = object_of (s.now site.world) r (lookup (name_of r) live) in
            let (answer, world) = s.client.apply o site.world in
            rw stale (
              Holds-note P (codes "apply") answer (record site { world = world })
                (kept r o site.world m refl refl h))
      ]

  Holds-sync_records :
      (P : W → Type 0) (all : List Record)
      → IsKeptByApply s P all
      → (live : GoMap Str WrittenRecord) (records : List Record) (site : Site W F)
      → ((r : Record) → Memᴰ r records → Memᴰ r all)
      → P site.world
      → P (sync_records s live records site).world
  unfolding sync_records
  Holds-sync_records P all kept live [] site part h = h
  Holds-sync_records P all kept live (r ∷ records) site part h =
      Holds-sync_records P all kept live records (sync_record s live r site)
        (λ q m. part q (Memᴰ.tail m))
        (Holds-sync_record P all kept live r site (part r (Memᴰ.head refl)) h)

  Holds-remove_stale :
      (P : W → Type 0) (wanted all live : List Str)
      → ((name : Str) (w : W)
          → Memᴰ name all
          → any (λ n. n == name) wanted ≡ false
          → P w
          → P (s.client.remove name w).1)
      → ((name : Str) → Memᴰ name live → Memᴰ name all)
      → (site : Site W F) → P site.world
      → P (remove_stale s wanted live site).world
  unfolding remove_stale
  Holds-remove_stale P wanted all [] kept part site h = h
  Holds-remove_stale P wanted all (name ∷ live) kept part site h =
      let later = Holds-remove_stale P wanted all live kept (λ n m. part n (Memᴰ.tail m)) in
      elim (Bool-cases (any (λ n. n == name) wanted)) [
        | inl stays ↦ rw (stays, remove_stale) (later site h)
        | inr stale ↦
            let (r, world) = s.client.remove name site.world in
            rw (stale, remove_stale)
              (later (note_write s (codes "delete") r (record site { world = world })) (
                Holds-note P (codes "delete") r (record site { world = world })
                  (kept name site.world (part name (Memᴰ.head refl)) stale h)))
      ]

keys-insert :
    (k j : Str) (v : WrittenRecord) (m : GoMap Str WrittenRecord)
    → Memᴰ k (map (λ (name, w). name) (insert j v m))
    → (k ≡ j) ⊎ Memᴰ k (map (λ (name, w). name) m)
unfolding insert
keys-insert k j v [] h = elim (Memᴰ.cases_cons h) [
  | inl e ↦ inl e
  | inr t ↦ absurd (Memᴰ.not-nil t)
]
keys-insert k j v ((i, w) ∷ m) h = elim (Bool-cases (i == j)) [
  | inl same ↦ inr (rw same at h)
  | inr other ↦ elim (Memᴰ.cases_cons (rw other at h)) [
    | inl e ↦ inr (Memᴰ.head e)
    | inr t ↦ elim (keys-insert k j v m t) [ inl e ↦ inl e | inr r ↦ inr (Memᴰ.tail r) ]
  ]
]

keys-read_live :
    (k : Str) (objects : List Object) (m : GoMap Str WrittenRecord)
    → Memᴰ k (map (λ (name, w). name) (read_live objects m))
    → Memᴰ k (map (λ o. o.name) objects) ⊎ Memᴰ k (map (λ (name, w). name) m)
unfolding read_live
keys-read_live k [] m h = inr h
keys-read_live k (o ∷ objects) m h =
    let w : WrittenRecord = record { shown = o.shown; since = o.last_transition_time } in
    elim (keys-read_live k objects (insert o.name w m) h) [
      | inl listed ↦ inl (Memᴰ.tail listed)
      | inr inserted ↦ elim (keys-insert k o.name w m inserted) [
        | inl e ↦ inl (Memᴰ.head e)
        | inr before ↦ inr before
      ]
    ]

module _ {W E F : Type 0} ⦃u : CaseTable⦄ ⦃d : Digest⦄ ⦃f : Float64 F⦄ (s : Syncer W E) where
  Holds-sync_listed :
      (P : W → Type 0) (records : List Record) (answer : Result E (List Object))
      → IsKeptByApply s P records
      → ((objects : List Object)
          → answer ≡ ok objects
          → IsKeptByRemove s P records (map (λ o. o.name) objects))
      → (site : Site W F) → P site.world
      → P (sync_listed s records answer site).world
  unfolding fail
  Holds-sync_listed P records (err e) by_apply by_remove site h = h
  Holds-sync_listed P records (ok objects) by_apply by_remove site h =
      Holds-remove_stale s P (map name_of records) (map (λ o. o.name) objects)
        (map (λ (name, w). name) (read_live objects [])) (by_remove objects refl)
        (λ k m. elim (keys-read_live k objects [] m) [
          | inl listed ↦ listed
          | inr nowhere ↦ absurd (Memᴰ.not-nil nowhere)
        ])
        (sync_records s (read_live objects []) records site)
        (Holds-sync_records s P records by_apply (read_live objects []) records site (λ r m. m) h)

  -- Whatever the API server answers, a pass applies only objects of the snapshot's records, each
  -- under the record's object name, and removes only objects that it was told of and that no record
  -- stands for: what listing, such an apply and such a removal keep, a pass keeps.
  pub sync-Holds :
      (P : W → Type 0) (records : List Record) (site : Site W F)
      → ((w : W) → P w → P (s.client.list w).1)
      → IsKeptByApply s P records
      → ((objects : List Object)
          → (s.client.list site.world).0 ≡ ok objects
          → IsKeptByRemove s P records (map (λ o. o.name) objects))
      → P site.world
      → P (sync s records site).world
  unfolding sync
  sync-Holds P records site by_list by_apply by_remove h =
      let (answer, world) = s.client.list site.world in
      Holds-sync_listed P records answer by_apply by_remove (record site { world = world })
        (by_list site.world h)
