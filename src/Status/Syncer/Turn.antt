-- ===== src/Status/Syncer/Turn.antt =====
-- pkg/status/syncer.go, `sync`: an API server that does what it is asked, and the turn of one record.
use external_dns_openwrt_nex.Prelude.{
  true, false, not, List, [], ◌∷◌, Option, none, some, ◌≡◌, refl, sym, ap, ◌∙◌, subst, arith, inl,
  inr, ◌⊎◌, ◌≢◌, if◌then◌else◌, is_empty, All, Bool-cases,
}
use external_dns_openwrt_nex.Strings.{codes, Str, CaseTable, ◌==◌}
use external_dns_openwrt_nex.Strings.Laws.{eq_iff, eq_refl}
use external_dns_openwrt_nex.GoMap.{GoMap, lookup, str_key}
use external_dns_openwrt_nex.Exec.{Result, ok, err}
use external_dns_openwrt_nex.Metrics.{Float64}
use external_dns_openwrt_nex.Status.Names.{Digest}
use external_dns_openwrt_nex.Status.Syncer.{
  Record, Object, WrittenRecord, Syncer, Site, up_to_date, since_of, fail, note_write, name_of,
  object_of, sync_record, sync_records,
}
use external_dns_openwrt_nex.Status.Syncer.Live.{equal_iff, written, IsListOf}

pub is_empty-not : (s : Str) → s ≢ [] → is_empty s ≡ false
is_empty-not [] h = absurd (h refl)
is_empty-not (c ∷ s) h = refl

not-is_empty : (s : Str) → not (is_empty s) ≡ true → s ≢ []
not-is_empty [] h = cc
not-is_empty (c ∷ s) h = cc

since_of-keeps :
    (now : Str) (r : Record) (o : Object)
    → o.shown.state ≡ r.state
    → o.last_transition_time ≢ []
    → since_of now r (written (some o)) ≡ o.last_transition_time
unfolding since_of
since_of-keeps now r o same timed =
    ground (arith, (eq_iff o.shown.state r.state).1 same, is_empty-not o.last_transition_time timed)

since_of-renews :
    (now : Str) (r : Record) (o : Object)
    → (o.shown.state ≢ r.state) ⊎ (o.last_transition_time ≡ [])
    → since_of now r (written (some o)) ≡ now
unfolding since_of
since_of-renews now r o h =
    ground
      (arith, h, eq_iff o.shown.state r.state, λ (e : o.last_transition_time ≡ []). ap is_empty e)

module _ {W E : Type 0} (s : Syncer W E) (view : W → Str → Option Object) where
  -- An API server that does what it is asked: it lists what is there, an apply puts the object in the
  -- place of what had its name, and a removal takes it away.
  pub record IsReliable : Type 0 where
    pub objects : W → List Object
    pub listed : (w : W) → (s.client.list w).0 ≡ ok (objects w)
    pub lists : (w : W) → IsListOf (view w) (objects w)
    pub list_view : (w : W) (n : Str) → view (s.client.list w).1 n ≡ view w n
    pub apply_view :
        (o : Object) (w : W) (n : Str)
        → view (s.client.apply o w).1 n ≡ (if o.name == n then some o else view w n)
    pub remove_view :
        (k : Str) (w : W) (n : Str)
        → view (s.client.remove k w).1 n ≡ (if k == n then none else view w n)

  -- The object mirrors the record: it shows it, and its transition time is the one that it had if
  -- the state is still the same, and the time of the write if it is not.
  pub record Mirrors (before : Option Object) (r : Record) (after : Option Object) : Type 0 where
    pub object : Object
    pub there : after ≡ some object
    pub shows : object.shown ≡ r
    pub keeps :
        (o : Object)
        → before ≡ some o
        → o.shown.state ≡ r.state
        → o.last_transition_time ≢ []
        → object.last_transition_time ≡ o.last_transition_time
    pub renews :
        ((o : Object) → before ≡ some o → (o.shown.state ≢ r.state) ⊎ (o.last_transition_time ≡ []))
        → (w : W) × (object.last_transition_time ≡ s.now w)

module _ {W E F : Type 0} ⦃f : Float64 F⦄ (s : Syncer W E) where
  pub world-note_write :
      (operation : Str) (r : Result E (Unit {0})) (site : Site W F)
      → (note_write s operation r site).world ≡ site.world
  unfolding fail
  world-note_write operation (ok _) site = refl
  world-note_write operation (err e) site = refl

module _ {W E F : Type 0} ⦃u : CaseTable⦄ ⦃d : Digest⦄ ⦃f : Float64 F⦄ (s : Syncer W E)
    (view : W → Str → Option Object) where
  view-sync_record :
      IsReliable s view
      → (live : GoMap Str WrittenRecord) (r : Record) (site : Site W F) (n : Str)
      → view (sync_record s live r site).world n ≡ (
          if up_to_date r (lookup (name_of r) live)
          then view site.world n
          else if name_of r == n
          then some (object_of (s.now site.world) r (lookup (name_of r) live))
          else view site.world n)
  unfolding sync_record object_of
  view-sync_record l live r site n =
      let o = object_of (s.now site.world) r (lookup (name_of r) live) in
      let (answer, world) = s.client.apply o site.world in
      elim (Bool-cases (up_to_date r (lookup (name_of r) live))) [
        | inl fresh ↦ rw fresh refl
        | inr stale ↦ rw stale (
            ap (λ w. view w n)
              (world-note_write s (codes "apply") answer (record site { world = world }))
            ∙ l.apply_view o site.world n)
      ]

  pub sync_record-other :
      IsReliable s view
      → (live : GoMap Str WrittenRecord) (r : Record) (site : Site W F) (n : Str) → name_of r ≢ n
      → view (sync_record s live r site).world n ≡ view site.world n
  sync_record-other l live r site n apart =
      ground (arith, view-sync_record l live r site n, eq_iff (name_of r) n)

  pub sync_records-other :
      IsReliable s view
      → (live : GoMap Str WrittenRecord) (records : List Record) (site : Site W F) (n : Str)
      → All (λ r. name_of r ≢ n) records
      → view (sync_records s live records site).world n ≡ view site.world n
  unfolding sync_records
  sync_records-other l live [] site n apart = refl
  sync_records-other l live (r ∷ records) site n apart =
      sync_records-other l live records (sync_record s live r site) n apart.1
      ∙ sync_record-other l live r site n apart.0

  -- The object of a record after its turn, where one is written.
  sync_record-written :
      IsReliable s view
      → (live : GoMap Str WrittenRecord) (r : Record) (site : Site W F)
        (previous : Option WrittenRecord)
      → lookup (name_of r) live ≡ previous
      → up_to_date r previous ≡ false
      → view (sync_record s live r site).world (name_of r)
        ≡ some (object_of (s.now site.world) r previous)
  sync_record-written l live r site previous seen stale =
      view-sync_record l live r site (name_of r) ∙ rw (seen, stale, eq_refl (name_of r)) refl

  sync_record-kept :
      IsReliable s view
      → (live : GoMap Str WrittenRecord) (r : Record) (site : Site W F)
        (previous : Option WrittenRecord)
      → lookup (name_of r) live ≡ previous
      → up_to_date r previous ≡ true
      → view (sync_record s live r site).world (name_of r) ≡ view site.world (name_of r)
  sync_record-kept l live r site previous seen fresh =
      view-sync_record l live r site (name_of r) ∙ rw (seen, fresh) refl

  pub sync_record-Mirrors_stale :
      IsReliable s view
      → (live : GoMap Str WrittenRecord) (r : Record) (site : Site W F) (o : Object)
      → lookup (name_of r) live ≡ written (some o)
      → up_to_date r (written (some o)) ≡ false
      → Mirrors s view (some o) r (view (sync_record s live r site).world (name_of r))
  unfolding object_of
  sync_record-Mirrors_stale l live r site o seen stale =
      let now = s.now site.world in
      record {
        object = object_of now r (written (some o));
        there = sync_record-written l live r site (written (some o)) seen stale;
        shows = refl;
        keeps = λ o' e same timed.
            let own : o ≡ o' = cc e in
            subst (λ x. since_of now r (written (some o)) ≡ x.last_transition_time) own
              (since_of-keeps now r o (ap (λ x. x.shown.state) own ∙ same)
                (λ q. timed (sym (ap (λ x. x.last_transition_time) own) ∙ q)));
        renews = λ h. (site.world, since_of-renews now r o (h o refl));
      }

  -- One record, with what was there before the pass.
  pub sync_record-Mirrors :
      IsReliable s view
      → (live : GoMap Str WrittenRecord) (r : Record) (site : Site W F) (before : Option Object)
      → lookup (name_of r) live ≡ written before
      → view site.world (name_of r) ≡ before
      → Mirrors s view before r (view (sync_record s live r site).world (name_of r))
  unfolding object_of up_to_date since_of
  sync_record-Mirrors l live r site none seen is_before = record {
    object = object_of (s.now site.world) r none;
    there = sync_record-written l live r site none seen refl;
    shows = refl;
    keeps = λ o' e same timed. cc;
    renews = λ h. (site.world, refl);
  }
  sync_record-Mirrors l live r site (some o) seen is_before =
      elim (Bool-cases (up_to_date r (written (some o)))) [
        | inr stale ↦ sync_record-Mirrors_stale l live r site o seen stale
        | inl fresh ↦
            let shows : o.shown ≡ r = (equal_iff o.shown r).0 (ground (arith, fresh)) in
            let timed = not-is_empty o.last_transition_time (ground (arith, fresh)) in
            record {
              object = o;
              there = sync_record-kept l live r site (written (some o)) seen fresh ∙ is_before;
              shows = shows;
              keeps =
                  λ o' e same t. let own : o ≡ o' = cc e in ap (λ x. x.last_transition_time) own;
              renews = λ h. elim (h o refl) [
                | inl changed ↦ absurd (changed (ap (λ x. x.state) shows))
                | inr untimed ↦ absurd (timed untimed)
              ];
            }
      ]
