-- ===== src/Status/Syncer/Mirrors.antt =====
-- pkg/status/syncer.go, `sync`: what a pass without failures leaves on the API server.
use external_dns_openwrt_nex.Prelude.{
  true, not, ◌&&◌, List, [], ◌∷◌, map, Option, none, ◌≡◌, refl, sym, ap, ◌∙◌, subst, arith, inl,
  inr, ◌≢◌, if◌then◌else◌, any, All, Option-cases, All-mem,
}
use external_dns_openwrt_nex.Strings.{codes, Str, CaseTable, ◌==◌}
use mathlib.Core.List.{Memᴰ}
use mathlib.Core.List.Memᴰ
use external_dns_openwrt_nex.Strings.Laws.{eq_iff}
use external_dns_openwrt_nex.GoMap.{GoMap, lookup, str_key}
use external_dns_openwrt_nex.Metrics.{Float64}
use external_dns_openwrt_nex.Status.Names.{Digest}
use external_dns_openwrt_nex.Status.Syncer.{
  Record, Object, WrittenRecord, Syncer, Site, read_live, note_write, remove_stale, name_of,
  sync_record, sync_records, sync,
}
use external_dns_openwrt_nex.Status.Syncer.Live.{
  written, lookup-live, is_some, any-keys, HasUniqueNames, wanted-mem, unwanted,
}
use external_dns_openwrt_nex.Status.Syncer.Turn.{
  IsReliable, Mirrors, world-note_write, sync_record-other, sync_records-other, sync_record-Mirrors,
}

module _ {W E F : Type 0} ⦃u : CaseTable⦄ ⦃d : Digest⦄ ⦃f : Float64 F⦄ (s : Syncer W E)
    (view : W → Str → Option Object) where
  sync_records-Mirrors :
      IsReliable s view
      → (live : GoMap Str WrittenRecord) (records : List Record) (site : Site W F)
      → (start : Str → Option Object) → HasUniqueNames records
      → ((n : Str) → lookup n live ≡ written (start n))
      → ((r : Record) → Memᴰ r records → view site.world (name_of r) ≡ start (name_of r))
      → (r : Record) → Memᴰ r records
      → Mirrors s view
          (start (name_of r))
          r
          (view (sync_records s live records site).world (name_of r))
  unfolding sync_records
  sync_records-Mirrors l live [] site start unique seen same r m = absurd (Memᴰ.not-nil m)
  sync_records-Mirrors l live (q ∷ records) site start unique seen same r m =
      let next = sync_record s live q site in
      elim (Memᴰ.cases_cons m) [
        | inl e ↦
            let done =
              sync_record-Mirrors s view l live q site (start (name_of q)) (seen (name_of q))
                (same q (Memᴰ.head refl)) in
            let kept = sync_records-other s view l live records next (name_of q) unique.0 in
            subst
              (λ x.
                Mirrors s view (start (name_of x)) x
                  (view (sync_records s live records next).world (name_of x)))
              (sym e) (subst (λ a. Mirrors s view (start (name_of q)) q a) (sym kept) done)
        | inr later ↦
            sync_records-Mirrors l live records next start unique.1 seen
              (λ x mx.
                sync_record-other s view l live q site (name_of x) (λ e.
                  All-mem (λ (y : Record). name_of y ≢ name_of q) records unique.0 x mx (sym e))
                ∙ same x (Memᴰ.tail mx))
              r later
      ]

  view-remove_stale :
      IsReliable s view
      → (wanted live : List Str) (site : Site W F) (n : Str)
      → view (remove_stale s wanted live site).world n ≡ (
          if any (λ k. k == n) live && not (any (λ k. k == n) wanted)
          then none
          else view site.world n)
  unfolding remove_stale
  view-remove_stale l wanted [] site n = refl
  view-remove_stale l wanted (k ∷ live) site n =
      let (r, world) = s.client.remove k site.world in
      let removed = note_write s (codes "delete") r (record site { world = world }) in
      let gone : view removed.world n ≡ (if k == n then none else view site.world n) =
        ap (λ w. view w n) (world-note_write s (codes "delete") r (record site { world = world }))
        ∙ l.remove_view k site.world n in
      let same : (k == n) ≡ true → any (λ j. j == k) wanted ≡ any (λ j. j == n) wanted =
        λ e. ap (λ x. any (λ j. j == x) wanted) ((eq_iff k n).0 e) in
      ground (
        arith,
        gone,
        same,
        view-remove_stale l wanted live site n,
        view-remove_stale l wanted live removed n,
      )

  -- The map of what is listed, and the site behind the listing.
  abbrev live_at : IsReliable s view → Site W F → GoMap Str WrittenRecord
  live_at l site = read_live (l.objects site.world) []

  abbrev behind : Site W F → Site W F
  behind site = record site { world = (s.client.list site.world).1 }

  view-sync :
      (l : IsReliable s view) (records : List Record) (site : Site W F) (n : Str)
      → view (sync s records site).world n ≡ (
          if is_some (lookup n (live_at l site)) && not (any (λ k. k == n) (map name_of records))
          then none
          else view (sync_records s (live_at l site) records (behind site)).world n)
  unfolding sync
  view-sync l records site n = rw (l.listed site.world) (
      view-remove_stale l (map name_of records) (map (λ (name, w). name) (live_at l site))
        (sync_records s (live_at l site) records (behind site)) n
      ∙ rw (any-keys (live_at l site) n) refl)

  -- A pass over an API server that does what it is asked leaves the mirror of the snapshot: for each
  -- record, an object that shows it, with the old transition time if the state is still the same and
  -- the time of the write if it is not; and no other object. Condition: no two records of the
  -- snapshot stand for objects of one name.
  pub sync-Mirrors :
      IsReliable s view
      → (records : List Record) (site : Site W F) → HasUniqueNames records
      → ((r : Record)
          → Memᴰ r records
          → Mirrors s view
              (view site.world (name_of r))
              r
              (view (sync s records site).world (name_of r)))
        × ((n : Str) → All (λ r. name_of r ≢ n) records → view (sync s records site).world n ≡ none)
  sync-Mirrors l records site unique =
      let held = view site.world in
      let live = live_at l site in
      let seen = λ (n : Str). lookup-live held (l.objects site.world) n (l.lists site.world) in
      (
        λ r m.
            let done =
              sync_records-Mirrors l live records (behind site) held unique seen
                (λ x mx. l.list_view site.world (name_of x)) r m in
            subst (λ a. Mirrors s view (held (name_of r)) r a)
              (sym (view-sync l records site (name_of r) ∙ ground (arith, wanted-mem r records m)))
              done,
        λ n apart.
            let untouched : view (sync_records s live records (behind site)).world n ≡ held n =
              sync_records-other s view l live records (behind site) n apart
              ∙ l.list_view site.world n in
            view-sync l records site n ∙ elim (Option-cases (held n)) [
              | inl gone ↦
                  ground (arith, untouched, gone, seen n, ap (λ x. is_some (written x)) gone)
              | inr (o, there) ↦
                  let listed : is_some (lookup n live) ≡ true =
                    ap is_some (seen n) ∙ ap (λ x. is_some (written x)) there in
                  rw (listed, unwanted n records apart) refl
            ],
      )
