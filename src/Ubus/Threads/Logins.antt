-- ===== src/Ubus/Threads/Logins.antt =====
-- pkg/ubus/ubus.go: when goroutines that share a client log in.
use external_dns_openwrt_nex.Prelude.{
  ℕ, Bool, false, List, [], ◌∷◌, refl, inl, inr, eqb, Bool-cases,
}
use external_dns_openwrt_nex.Ubus.Threads.{Pc, idle, calling, thread_step, System, step, run}
use external_dns_openwrt_nex.Ubus.Wire.{Request, Transport}
use external_dns_openwrt_nex.Ubus.Session.{Auth}
use external_dns_openwrt_nex.Ubus.Threads.Log.{logged, AreNeeded}
use external_dns_openwrt_nex.Ubus.Threads.Renewal.{
  HasFreshSessions, Client, Fits, Knows, Knows-later,
}
use external_dns_openwrt_nex.Ubus.Threads.Turn.{thread_step-Stepped}

module _ (t : Transport) (auth : Auth) where
  -- Every goroutine knows its session, and none is in `Reset`.
  abbrev Consistent : System (logged t) auth → Type 0
  Consistent s = Fits t s.client × ((i : ℕ) → Knows t s.client.net.log (s.threads i))

  step-Consistent :
      (i : ℕ) (s : System (logged t) auth)
      → HasFreshSessions t
      → Consistent s
      → Consistent (step (logged t) auth i s)
  unfolding step
  step-Consistent i s fresh (f, k) =
      let p = thread_step (logged t) auth (s.threads i) s.client in
      let stepped = thread_step-Stepped t auth (s.threads i) s.client fresh f (k i) in
      (
        stepped.fits,
        λ j. elim (Bool-cases (eqb i j)) [
          | inl same ↦ rw same stepped.knows
          | inr other ↦
              rw other
                (Knows-later t s.client.net.log p.1.net.log (s.threads j) stepped.extends (k j))
        ],
      )

  run-Consistent :
      (schedule : List ℕ) (s : System (logged t) auth)
      → HasFreshSessions t
      → Consistent s
      → Consistent (run (logged t) auth schedule s)
  unfolding run
  run-Consistent [] s fresh h = h
  run-Consistent (i ∷ schedule) s fresh h =
      run-Consistent schedule (step (logged t) auth i s) fresh (step-Consistent i s fresh h)

  -- A client that has made no exchange yet, and goroutines that are about to call it or do nothing.
  pub data Starts : Pc → Type 0 where
    quiet : Starts idle
    calls : (wanted : Bool) (r : Request) → Starts (calling wanted r)

  abbrev pub fresh_client : t.Net → Client t
  fresh_client net = record { session = []; staged = false; net = record { net = net; log = [] } }

  Starts-Knows : (pc : Pc) → Starts pc → Knows t [] pc
  Starts-Knows _ quiet = tt
  Starts-Knows _ (calls wanted r) = tt

  -- However the calls of goroutines that share a new client interleave: a login is made only if no
  -- login has succeeded yet, or a call was refused in the session that the newest successful login
  -- has opened. So calls that find no session share one login, and a session is replaced only
  -- after a refusal in it. No goroutine resets the client, and the router hands out no session with
  -- the name of the one that logins are made in.
  pub run-AreNeeded :
      (schedule : List ℕ) (threads : ℕ → Pc) (net : t.Net)
      → HasFreshSessions t
      → ((i : ℕ) → Starts (threads i))
      → AreNeeded
          (run
            (logged t)
            auth
            schedule
            (record { client = fresh_client net; threads = threads })).client.net.log
  run-AreNeeded schedule threads net fresh start =
      let s : System (logged t) auth = record { client = fresh_client net; threads = threads } in
      let f : Fits t (fresh_client net) = record { needed = tt; held = inl (refl, inl refl) } in
      (run-Consistent schedule s fresh (f, λ i. Starts-Knows (threads i) (start i))).0.needed
