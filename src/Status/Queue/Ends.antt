-- ===== src/Status/Queue/Ends.antt =====
-- pkg/status/syncer.go, `Publish` and `Run`: no run goes on without a snapshot being stored.
use external_dns_openwrt_nex.Prelude.{
  ℕ, zero, suc, ◌+◌, Bool, true, false, Option, some, ◌≡◌, refl, ◌∙◌, subst, arith, inl, inr,
  if◌then◌else◌, ◌≤◌, ◌<◌, ◌*◌, some-inj,
}
use external_dns_openwrt_nex.Status.Queue.{
  Writer, waiting, woken, writing, Queue, post, receive, load, finish, Move, posts, receives, loads,
  finishes, Moves, done, after, Reachable, moves, posted, received, loaded, finished,
}
use external_dns_openwrt_nex.Status.Queue.Owed.{queue_of, IsOwed, Reachable-IsOwed, IsSettled}

module _ {A : Type 0} where
  -- How many moves are left at most.
  abbrev pub moves_left : Queue A → ℕ
  moves_left q =
      4 * q.posting
      + (if q.kick then 3 else 0)
      + elim q.writer [ waiting ↦ 0 | woken ↦ 2 | writing r ↦ 1 ]

  abbrev Falls : Option (Queue A) → Queue A → Type 0
  Falls next q =
      (q' : Queue A) → next ≡ some q' → (moves_left q' < moves_left q) × (q'.latest ≡ q.latest)

  falls_by :
      (p q q' : Queue A)
      → some p ≡ some q'
      → (moves_left p < moves_left q) × (p.latest ≡ q.latest)
      → (moves_left q' < moves_left q) × (q'.latest ≡ q.latest)
  falls_by p q q' e h =
      subst (λ x. (moves_left x < moves_left q) × (x.latest ≡ q.latest)) (some-inj e) h

  post-Falls :
      (latest written : A) (kick : Bool) (posting : ℕ) (w : Writer A)
      → Falls
          (posted posting (queue_of latest written kick posting w))
          (queue_of latest written kick posting w)
  post-Falls latest written kick zero w q' e = cc
  post-Falls latest written true (suc n) w q' e =
      falls_by _ (queue_of latest written true (suc n) w) q' e (omega arith, refl)
  post-Falls latest written false (suc n) w q' e =
      falls_by _ (queue_of latest written false (suc n) w) q' e (omega arith, refl)

  receive-Falls :
      (latest written : A) (kick : Bool) (posting : ℕ) (w : Writer A)
      → Falls
          (received w (queue_of latest written kick posting w))
          (queue_of latest written kick posting w)
  receive-Falls latest written true posting waiting q' e =
      falls_by _ (queue_of latest written true posting waiting) q' e (omega arith, refl)
  receive-Falls latest written false posting waiting q' e = cc
  receive-Falls latest written kick posting woken q' e = cc
  receive-Falls latest written kick posting (writing r) q' e = cc

  load-Falls :
      (latest written : A) (kick : Bool) (posting : ℕ) (w : Writer A)
      → Falls
          (loaded w (queue_of latest written kick posting w))
          (queue_of latest written kick posting w)
  load-Falls latest written kick posting waiting q' e = cc
  load-Falls latest written kick posting woken q' e =
      falls_by _ (queue_of latest written kick posting woken) q' e (omega arith, refl)
  load-Falls latest written kick posting (writing r) q' e = cc

  finish-Falls :
      (latest written : A) (kick : Bool) (posting : ℕ) (w : Writer A)
      → Falls
          (finished w (queue_of latest written kick posting w))
          (queue_of latest written kick posting w)
  finish-Falls latest written kick posting waiting q' e = cc
  finish-Falls latest written kick posting woken q' e = cc
  finish-Falls latest written kick posting (writing r) q' e =
      falls_by _ (queue_of latest written kick posting (writing r)) q' e (omega arith, refl)

  Move-falls :
      (q q' : Queue A) → Move q q' → (moves_left q' < moves_left q) × (q'.latest ≡ q.latest)
  unfolding post receive load finish
  Move-falls q q' (posts e) = post-Falls q.latest q.written q.kick q.posting q.writer q' e
  Move-falls q q' (receives e) = receive-Falls q.latest q.written q.kick q.posting q.writer q' e
  Move-falls q q' (loads e) = load-Falls q.latest q.written q.kick q.posting q.writer q' e
  Move-falls q q' (finishes e) = finish-Falls q.latest q.written q.kick q.posting q.writer q' e

  abbrev pub move_count : {q r : Queue A} → Moves q r → ℕ
  move_count done = 0
  move_count (after h m) = suc (move_count h)

  Moves-fall :
      {q r : Queue A} (h : Moves q r)
      → (move_count h + moves_left r ≤ moves_left q) × (r.latest ≡ q.latest)
  Moves-fall done = (omega arith, refl)
  Moves-fall (after {p} {r} h m) =
      let (before, same) = Moves-fall h in
      let (less, kept) = Move-falls p r m in (omega (arith, before, less), kept ∙ same)

  Moves-Reachable : (nil : A) {q r : Queue A} → Reachable nil q → Moves q r → Reachable nil r
  Moves-Reachable nil h done = h
  Moves-Reachable nil h (after k m) = moves (Moves-Reachable nil h k) m

  -- Where nothing can move, the newest snapshot is written.
  stuck-IsSettled :
      (latest written : A) (kick : Bool) (posting : ℕ) (w : Writer A)
      → IsOwed (queue_of latest written kick posting w)
      → ((q' : Queue A) → ¬ Move (queue_of latest written kick posting w) q')
      → IsSettled (queue_of latest written kick posting w)
  unfolding post receive load finish
  stuck-IsSettled latest written kick (suc n) w h stuck = absurd (stuck _ (posts refl))
  stuck-IsSettled latest written kick zero woken h stuck = absurd (stuck _ (loads refl))
  stuck-IsSettled latest written kick zero (writing r) h stuck = absurd (stuck _ (finishes refl))
  stuck-IsSettled latest written true zero waiting h stuck = absurd (stuck _ (receives refl))
  stuck-IsSettled latest written false zero waiting (inl current) stuck = record {
    idle = refl;
    quiet = refl;
    posted_all = refl;
    current = current;
  }
  stuck-IsSettled latest written false zero waiting (inr never) stuck = cc

  -- Every run of the publishers that have stored a snapshot and of the writer ends within
  -- `moves_left` moves, from whatever they have reached together, and when none of them can move any
  -- more, the snapshot written last is the newest that was stored.
  pub Moves-settle :
      (nil : A) (q r : Queue A)
      → Reachable nil q
      → (h : Moves q r)
      → (move_count h ≤ moves_left q)
        × (((r' : Queue A) → ¬ Move r r') → (r.written ≡ q.latest) × IsSettled r)
  Moves-settle nil q r reached h =
      let (bound, same) = Moves-fall h in
      (
        omega (arith, bound),
        λ stuck.
            let settled =
              stuck-IsSettled r.latest r.written r.kick r.posting r.writer
                (Reachable-IsOwed nil r (Moves-Reachable nil reached h)) stuck in
            (settled.current ∙ same, settled),
      )
