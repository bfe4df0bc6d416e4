-- ===== src/Status/Syncer.antt =====
-- pkg/status/syncer.go, `sync`: one pass over the objects of a snapshot.
pub mod Live
pub mod Turn
pub mod Mirrors
pub mod Again
pub mod Writes
use external_dns_openwrt_nex.Prelude.{
  ℕ, zero, suc, ◌+◌, Bool, true, false, not, ◌&&◌, ◌||◌, List, [], ◌∷◌, ◌++◌, map, Option, none,
  some, ◌≡◌, refl, sym, ap, ◌∙◌, subst, arith, inl, inr, ◌⊎◌, ◌↔◌, ◌≢◌, ltb, leb, eqb,
  if◌then◌else◌, length, any, keep, is_empty, All, Bool-cases, Option-cases, ◌≤◌, ◌<◌,
}
use external_dns_openwrt_nex.Strings.{Str, codes, CaseTable, ◌==◌}
use external_dns_openwrt_nex.GoMap.{GoMap, lookup, insert, str_key}
use external_dns_openwrt_nex.Exec.{Exec, Result, ok, err}
use external_dns_openwrt_nex.Metrics.{
  Float64, Registry, MetricRef, prefix, register_counter, counter_inc,
}
use external_dns_openwrt_nex.Status.Names.{Digest, object_name}

-- One row of the mirror, as it is written.
pub record Record : Type 0 where
  pub dns_name : Str
  pub record_type : Str
  pub targets : List Str
  pub state : Str
  pub reason : Str

-- `slices.Equal`.
unfoldable pub equal_targets : List Str → List Str → Bool
equal_targets [] [] = true
equal_targets [] (_ ∷ _) = false
equal_targets (_ ∷ _) [] = false
equal_targets (a ∷ r) (b ∷ other) = a == b && equal_targets r other

unfoldable pub equal : Record → Record → Bool
unfolding equal_targets
equal r other =
    r.dns_name == other.dns_name
    && r.record_type == other.record_type
    && r.state == other.state
    && r.reason == other.reason
    && equal_targets r.targets other.targets

-- What the syncer reads and writes of an object: its name, and the fields of its spec and status.
pub record Object : Type 0 where
  pub name : Str
  pub shown : Record
  pub last_transition_time : Str

pub record WrittenRecord : Type 0 where
  pub shown : Record
  pub since : Str

-- The calls of the Kubernetes client, over its world.
pub record StatusClient (W E : Type 0) : Type 0 where
  pub list : Exec W E (List Object)
  pub apply : Object → Exec W E (Unit {0})
  pub remove : Str → Exec W E (Unit {0})

pub record Syncer (W E : Type 0) : Type 0 where
  pub client : StatusClient W E
  pub errors : MetricRef
  -- `now().UTC().Format(time.RFC3339)`
  pub now : W → Str

-- What a pass changes: the client's world, and the counter of errors.
pub record Site (W F : Type 0) : Type 0 where
  pub world : W
  pub registry : Registry F

-- `live[obj.Metadata.Name] = ...`
unfoldable pub read_live : List Object → GoMap Str WrittenRecord → GoMap Str WrittenRecord
read_live [] live = live
read_live (o ∷ objects) live =
    read_live objects
      (insert o.name (record { shown = o.shown; since = o.last_transition_time }) live)

-- Whether the object is as it should be, and has a transition time.
unfoldable pub up_to_date : Record → Option WrittenRecord → Bool
unfolding equal
up_to_date r none = false
up_to_date r (some previous) = equal previous.shown r && not (is_empty previous.since)

-- The transition time to write: the old one, unless the state changed or there is none.
unfoldable pub since_of : Str → Record → Option WrittenRecord → Str
since_of now r none = now
since_of now r (some previous) =
    if not (previous.shown.state == r.state) || is_empty previous.since then now else previous.since

module _ {W E F : Type 0} ⦃f : Float64 F⦄ (s : Syncer W E) where
  unfoldable pub fail : Str → Site W F → Site W F
  fail operation site = record site {
    registry = counter_inc s.errors (operation ∷ []) site.registry;
  }

  -- After a write: its failure is counted, and the pass goes on.
  abbrev pub note_write : Str → Result E (Unit {0}) → Site W F → Site W F
  note_write operation (ok _) site = site
  note_write operation (err e) site = fail operation site

  unfoldable pub remove_stale : List Str → List Str → Site W F → Site W F
  unfolding fail
  remove_stale wanted [] site = site
  remove_stale wanted (name ∷ live) site =
      let (r, world) = s.client.remove name site.world in
      let removed = note_write (codes "delete") r (record site { world = world }) in
      remove_stale wanted live (if any (λ n. n == name) wanted then site else removed)

module _ ⦃u : CaseTable⦄ ⦃d : Digest⦄ where
  abbrev pub name_of : Record → Str
  name_of r = object_name r.record_type r.dns_name

  -- The object that is written for a record.
  unfoldable pub object_of : Str → Record → Option WrittenRecord → Object
  unfolding since_of
  object_of now r previous = record {
    name = name_of r;
    shown = r;
    last_transition_time = since_of now r previous;
  }

module _ {W E F : Type 0} ⦃u : CaseTable⦄ ⦃d : Digest⦄ ⦃f : Float64 F⦄ (s : Syncer W E) where
  unfoldable pub sync_record : GoMap Str WrittenRecord → Record → Site W F → Site W F
  unfolding up_to_date object_of fail
  sync_record live r site =
      let previous = lookup (name_of r) live in
      let (answer, world) = s.client.apply (object_of (s.now site.world) r previous) site.world in
      let written = note_write s (codes "apply") answer (record site { world = world }) in
      if up_to_date r previous then site else written

  unfoldable pub sync_records : GoMap Str WrittenRecord → List Record → Site W F → Site W F
  unfolding sync_record
  sync_records live [] site = site
  sync_records live (r ∷ records) site = sync_records live records (sync_record live r site)

  abbrev pub sync_listed : List Record → Result E (List Object) → Site W F → Site W F
  sync_listed records (err e) site = fail s (codes "list") site
  sync_listed records (ok objects) site =
      let live = read_live objects [] in
      remove_stale s (map name_of records) (map (λ (name, w). name) live)
        (sync_records live records site)

  unfoldable pub sync : List Record → Site W F → Site W F
  unfolding sync_records remove_stale fail read_live
  sync records site =
      let (answer, world) = s.client.list site.world in
      sync_listed records answer (record site { world = world })

-- `NewSyncer`, with the client and the clock.
unfoldable pub new_syncer :
    {W E F : Type 0} → StatusClient W E → (W → Str) → Registry F → Syncer W E × Registry F
unfolding register_counter
new_syncer client now r =
    let (errors, r') =
      register_counter (prefix ++ codes "_status_errors_total")
        (codes "Failed writes of OpenWrtRecord objects, by operation.") (codes "operation" ∷ [])
        r in
    (record { client = client; errors = errors; now = now }, r')
