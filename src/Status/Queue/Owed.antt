-- ===== src/Status/Queue/Owed.antt =====
-- pkg/status/syncer.go, `Publish` and `Run`: a snapshot that is not read yet wakes the writer.
use external_dns_openwrt_nex.Prelude.{
  ℕ, zero, suc, Bool, true, false, ◌||◌, some, ◌≡◌, refl, sym, ap, ◌∙◌, subst, arith, inl, inr, ◌⊎◌,
  ltb, Bool-cases, some-inj,
}
use external_dns_openwrt_nex.Status.Queue.{
  Writer, waiting, woken, writing, Queue, store, post, receive, load, finish, Move, posts, receives,
  loads, finishes, Reachable, new, publishes, moves, posted, received, loaded, finished,
}

module _ {A : Type 0} where
  abbrev pub queue_of : A → A → Bool → ℕ → Writer A → Queue A
  queue_of latest written kick posting w = record {
    latest = latest;
    kick = kick;
    posting = posting;
    writer = w;
    written = written;
  }

  -- The snapshot that the writer has read last.
  abbrev read_last : Writer A → A → A
  read_last waiting written = written
  read_last woken written = written
  read_last (writing r) written = r

  abbrev is_woken : Writer A → Bool
  is_woken waiting = false
  is_woken woken = true
  is_woken (writing r) = false

  -- The writer has read the newest snapshot, or will be woken for it.
  abbrev pub IsOwed : Queue A → Type 0
  IsOwed q =
      (read_last q.writer q.written ≡ q.latest)
      ⊎ ((is_woken q.writer || q.kick || ltb 0 q.posting) ≡ true)

  post-IsOwed : (n : ℕ) (q q' : Queue A) → posted n q ≡ some q' → IsOwed q'
  post-IsOwed zero q q' e = cc
  post-IsOwed (suc n) q q' e = subst IsOwed (some-inj e) (inr (ground arith))

  receive-IsOwed : (w : Writer A) (q q' : Queue A) → received w q ≡ some q' → IsOwed q'
  receive-IsOwed waiting q q' e = elim (Bool-cases q.kick) [
    | inl kicked ↦ subst IsOwed (some-inj (rw kicked at e)) (inr refl)
    | inr quiet ↦ cc (rw quiet at e)
  ]
  receive-IsOwed woken q q' e = cc
  receive-IsOwed (writing r) q q' e = cc

  load-IsOwed : (w : Writer A) (q q' : Queue A) → loaded w q ≡ some q' → IsOwed q'
  load-IsOwed waiting q q' e = cc
  load-IsOwed woken q q' e = subst IsOwed (some-inj e) (inl refl)
  load-IsOwed (writing r) q q' e = cc

  finish-IsOwed :
      (w : Writer A) (q q' : Queue A) → q.writer ≡ w → finished w q ≡ some q' → IsOwed q → IsOwed q'
  finish-IsOwed waiting q q' now e h = cc
  finish-IsOwed woken q q' now e h = cc
  finish-IsOwed (writing r) q q' now e h = subst IsOwed (some-inj e) (elim h [
    | inl current ↦ inl (ap (λ w. read_last w q.written) (sym now) ∙ current)
    | inr more ↦ inr (rw now at more)
  ])

  Move-IsOwed : (q q' : Queue A) → Move q q' → IsOwed q → IsOwed q'
  unfolding post receive load finish
  Move-IsOwed q q' (posts e) h = post-IsOwed q.posting q q' e
  Move-IsOwed q q' (receives e) h = receive-IsOwed q.writer q q' e
  Move-IsOwed q q' (loads e) h = load-IsOwed q.writer q q' e
  Move-IsOwed q q' (finishes e) h = finish-IsOwed q.writer q q' refl e h

  pub Reachable-IsOwed : (nil : A) (q : Queue A) → Reachable nil q → IsOwed q
  unfolding store
  Reachable-IsOwed nil q new = inl refl
  Reachable-IsOwed nil q (publishes snapshot h) = inr (ground arith)
  Reachable-IsOwed nil q (moves {q = p} h m) = Move-IsOwed p q m (Reachable-IsOwed nil p h)

  -- Nothing is on its way, and the newest snapshot is the one that was written.
  pub record IsSettled (q : Queue A) : Type 0 where
    pub idle : q.writer ≡ waiting
    pub quiet : q.kick ≡ false
    pub posted_all : q.posting ≡ 0
    pub current : q.written ≡ q.latest
