-- ===== src/Status/Syncer/Again.antt =====
-- pkg/status/syncer.go, `sync`: a pass that finds its mirror in place.
use external_dns_openwrt_nex.Exec.{ok}
use external_dns_openwrt_nex.Prelude.{
  some-inj, true, false, List, [], ◌∷◌, map, Option, none, some, ◌≡◌, refl, sym, ap, ◌∙◌, subst,
  arith, inl, inr, ◌⊎◌, ◌≢◌, any, All, Bool-cases, All-of_mem,
}
use mathlib.Core.List.{Memᴰ}
use mathlib.Core.List.Memᴰ
use external_dns_openwrt_nex.Strings.{Str, CaseTable, ◌==◌}
use external_dns_openwrt_nex.Strings.Laws.{eq_iff}
use external_dns_openwrt_nex.GoMap.{GoMap, lookup, str_key}
use external_dns_openwrt_nex.Metrics.{Float64}
use external_dns_openwrt_nex.Status.Names.{Digest}
use external_dns_openwrt_nex.Status.Syncer.{
  Record, Object, WrittenRecord, Syncer, Site, read_live, up_to_date, remove_stale, name_of,
  sync_record, sync_records, sync,
}
use external_dns_openwrt_nex.Status.Syncer.Live.{
  equal_iff, written, IsListOf, lookup-live, is_some, any-keys, HasUniqueNames,
}
use external_dns_openwrt_nex.Status.Syncer.Turn.{IsReliable, Mirrors, is_empty-not}
use external_dns_openwrt_nex.Status.Syncer.Mirrors.{sync-Mirrors}

up_to_date-shown :
    (r : Record) (o : Object)
    → o.shown ≡ r
    → o.last_transition_time ≢ []
    → up_to_date r (written (some o)) ≡ true
unfolding up_to_date
up_to_date-shown r o shown timed =
    ground (arith, (equal_iff o.shown r).1 shown, is_empty-not o.last_transition_time timed)

text-cases : (s : Str) → (s ≡ []) ⊎ (s ≢ [])
text-cases [] = inl refl
text-cases (c ∷ s) = inr (λ e. cc)

any-mem : (n : Str) (l : List Str) → Memᴰ n l → any (λ k. k == n) l ≡ true
any-mem n [] m = absurd (Memᴰ.not-nil m)
any-mem n (k ∷ l) m = elim (Memᴰ.cases_cons m) [
  | inl e ↦ ground (arith, (eq_iff k n).1 (sym e))
  | inr later ↦ ground (arith, any-mem n l later)
]

module _ ⦃u : CaseTable⦄ ⦃d : Digest⦄ where
  apart_names :
      (n : Str) (records : List Record)
      → any (λ k. k == n) (map name_of records) ≡ false
      → All (λ r. name_of r ≢ n) records
  apart_names n [] h = tt
  apart_names n (r ∷ records) h =
      (λ e. cc (h, (eq_iff (name_of r) n).1 e), apart_names n records (ground (arith, h)))

  -- The names in the map of a listing are those of objects that are there.
  keys-wanted :
      (held : Str → Option Object) (objects : List Object) (records : List Record)
      → IsListOf held objects
      → ((n : Str) → All (λ r. name_of r ≢ n) records → held n ≡ none)
      → All
          (λ k. any (λ n. n == k) (map name_of records) ≡ true)
          (map (λ (name, w). name) (read_live objects []))
  keys-wanted held objects records lists only =
      let keys = map (λ (name, w). name) (read_live objects []) in
      All-of_mem (λ k. any (λ n. n == k) (map name_of records) ≡ true) keys
        (λ k m. elim (Bool-cases (any (λ n. n == k) (map name_of records))) [
          | inl wanted ↦ wanted
          | inr stale ↦
              let there : is_some (lookup k (read_live objects [])) ≡ true =
                sym (any-keys (read_live objects []) k) ∙ any-mem k keys m in
              let gone : is_some (lookup k (read_live objects [])) ≡ false = ap is_some (
                lookup-live held objects k lists
                ∙ ap written (only k (apart_names k records stale))) in
              cc (there, gone)
        ])

module _ {W E : Type 0} (s : Syncer W E) (view : W → Str → Option Object) where
  -- Every object that mirrors a record has a transition time, if the clock gives one.
  Mirrors-timed :
      ((w : W) → s.now w ≢ [])
      → (before : Option Object) (r : Record) (after : Option Object)
        (h : Mirrors s view before r after)
      → h.object.last_transition_time ≢ []
  Mirrors-timed ticks none r after h = let (w, e) = h.renews (λ o q. cc) in λ q. ticks w (sym e ∙ q)
  Mirrors-timed ticks (some o) r after h =
      let renewed = λ (why : (o.shown.state ≢ r.state) ⊎ (o.last_transition_time ≡ [])).
        let (w, e) = h.renews (λ o' q.
          subst (λ x. (x.shown.state ≢ r.state) ⊎ (x.last_transition_time ≡ [])) (some-inj q)
            why) in
        λ (q : h.object.last_transition_time ≡ []). ticks w (sym e ∙ q) in
      elim (Bool-cases (o.shown.state == r.state)) [
        | inr changed ↦ renewed (inl (λ k. cc ((eq_iff o.shown.state r.state).1 k, changed)))
        | inl same ↦ elim (text-cases o.last_transition_time) [
          | inl untimed ↦ renewed (inr untimed)
          | inr timed ↦
              λ q. timed (sym (h.keeps o refl ((eq_iff o.shown.state r.state).0 same) timed) ∙ q)
        ]
      ]

module _ {W E F : Type 0} ⦃u : CaseTable⦄ ⦃d : Digest⦄ ⦃f : Float64 F⦄ (s : Syncer W E) where
  sync_records-idle :
      (live : GoMap Str WrittenRecord) (records : List Record) (site : Site W F)
      → All (λ r. up_to_date r (lookup (name_of r) live) ≡ true) records
      → sync_records s live records site ≡ site
  unfolding sync_records sync_record
  sync_records-idle live [] site h = refl
  sync_records-idle live (r ∷ records) site h = rw (h.0) (sync_records-idle live records site h.1)

  remove_stale-idle :
      (wanted live : List Str) (site : Site W F)
      → All (λ k. any (λ n. n == k) wanted ≡ true) live
      → remove_stale s wanted live site ≡ site
  unfolding remove_stale
  remove_stale-idle wanted [] site h = refl
  remove_stale-idle wanted (k ∷ live) site h = rw (h.0) (remove_stale-idle wanted live site h.1)

  sync-idle :
      (records : List Record) (objects : List Object) (site : Site W F)
      → (s.client.list site.world).0 ≡ ok objects
      → All (λ r. up_to_date r (lookup (name_of r) (read_live objects [])) ≡ true) records
      → All
          (λ k. any (λ n. n == k) (map name_of records) ≡ true)
          (map (λ (name, w). name) (read_live objects []))
      → sync s records site ≡ record site { world = (s.client.list site.world).1 }
  unfolding sync
  sync-idle records objects site listed fresh wanted =
      let live = read_live objects [] in
      let next : Site W F = record site { world = (s.client.list site.world).1 } in
      rw listed (
        ap (remove_stale s (map name_of records) (map (λ (name, w). name) live))
          (sync_records-idle live records next fresh)
        ∙ remove_stale-idle (map name_of records) (map (λ (name, w). name) live) next wanted)

  -- A second pass over the same snapshot writes nothing: it lists the objects and leaves everything
  -- else as it is. Conditions: the API server does what it is asked, the clock gives a time, and no
  -- two records of the snapshot stand for objects of one name.
  pub sync-again :
      (view : W → Str → Option Object)
      → IsReliable s view
      → ((w : W) → s.now w ≢ [])
      → (records : List Record) (first : Site W F) → HasUniqueNames records
      → sync s records (sync s records first)
        ≡ record (sync s records first) { world = (s.client.list (sync s records first).world).1 }
  sync-again view l ticks records first unique =
      let site = sync s records first in
      let held = view site.world in
      let objects = l.objects site.world in
      let live = read_live objects [] in
      let (mirrors, only) = sync-Mirrors s view l records first unique in
      let fresh =
        All-of_mem (λ (r : Record). up_to_date r (lookup (name_of r) live) ≡ true) records
          (λ r m.
            let h = mirrors r m in
            ap (up_to_date r)
              (lookup-live held objects (name_of r) (l.lists site.world) ∙ ap written h.there)
            ∙ up_to_date-shown r h.object h.shows (
                Mirrors-timed s view ticks (view first.world (name_of r)) r (held (name_of r))
                  h)) in
      sync-idle records objects site (l.listed site.world) fresh
        (keys-wanted held objects records (l.lists site.world) only)
