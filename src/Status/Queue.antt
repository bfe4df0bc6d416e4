-- ===== src/Status/Queue.antt =====
-- pkg/status/syncer.go, `Publish` and `Run`: snapshots on their way to the goroutine that writes them.
-- Publishers and the writer run side by side: each function is a step between two of their accesses
-- to what they share, `none` where the step cannot be taken.
pub mod Owed
pub mod Ends
use external_dns_openwrt_nex.Prelude.{
  ℕ, zero, suc, ◌+◌, Bool, true, false, not, ◌&&◌, ◌||◌, List, [], ◌∷◌, ◌++◌, map, Option, none,
  some, ◌≡◌, refl, sym, ap, ◌∙◌, subst, arith, inl, inr, ◌⊎◌, ◌↔◌, ◌≢◌, ltb, leb, eqb,
  if◌then◌else◌, length, any, keep, is_empty, All, Bool-cases, Option-cases, ◌≤◌, ◌<◌,
}

-- What the goroutine of `Run` does: it waits in the select, it has taken the kick and has not yet
-- read the snapshot, or it is in `sync`.
pub data Writer (A : Type 0) : Type 0 where
  waiting woken : Writer A
  writing : A → Writer A

-- `posting` counts the publishers between the unlock and the select, and `written` is the snapshot
-- of the last `sync` that has ended.
pub record Queue (A : Type 0) : Type 0 where
  pub latest : A
  pub kick : Bool
  pub posting : ℕ
  pub writer : Writer A
  pub written : A

module _ {A : Type 0} where
  -- As `NewSyncer` makes it: nothing is published, and nothing is written.
  abbrev pub new_queue : A → Queue A
  new_queue nil = record {
    latest = nil;
    kick = false;
    posting = 0;
    writer = waiting;
    written = nil;
  }

  -- `Publish`, up to the unlock.
  unfoldable pub store : A → Queue A → Queue A
  store snapshot q = record q { latest = snapshot; posting = suc q.posting }

  abbrev pub posted : ℕ → Queue A → Option (Queue A)
  posted zero q = none
  posted (suc n) q = some (record q { kick = true; posting = n })

  -- The select of `Publish`: the channel holds a kick after it, one sent now or one from before.
  unfoldable pub post : Queue A → Option (Queue A)
  post q = posted q.posting q

  abbrev pub received : Writer A → Queue A → Option (Queue A)
  received waiting q = if q.kick then some (record q { kick = false; writer = woken }) else none
  received woken q = none
  received (writing r) q = none

  -- `<-s.kick`
  unfoldable pub receive : Queue A → Option (Queue A)
  receive q = received q.writer q

  abbrev pub loaded : Writer A → Queue A → Option (Queue A)
  loaded waiting q = none
  loaded woken q = some (record q { writer = writing q.latest })
  loaded (writing r) q = none

  -- `records := s.latest`
  unfoldable pub load : Queue A → Option (Queue A)
  load q = loaded q.writer q

  abbrev pub finished : Writer A → Queue A → Option (Queue A)
  finished waiting q = none
  finished woken q = none
  finished (writing r) q = some (record q { writer = waiting; written = r })

  -- The end of `sync`.
  unfoldable pub finish : Queue A → Option (Queue A)
  finish q = finished q.writer q

  -- A step of a publisher that has stored its snapshot, or of the writer.
  pub data Move (q q' : Queue A) : Type 0 where
    posts : post q ≡ some q' → Move q q'
    receives : receive q ≡ some q' → Move q q'
    loads : load q ≡ some q' → Move q q'
    finishes : finish q ≡ some q' → Move q q'

  pub data Moves (q : Queue A) : Queue A → Type 0 where
    done : Moves q q
    after : {p r : Queue A} → Moves q p → Move p r → Moves q r

  -- What publishers and writer reach together.
  pub data Reachable (nil : A) : Queue A → Type 0 where
    new : Reachable nil (new_queue nil)
    publishes : {q : Queue A} → (snapshot : A) → Reachable nil q → Reachable nil (store snapshot q)
    moves : {q q' : Queue A} → Reachable nil q → Move q q' → Reachable nil q'
