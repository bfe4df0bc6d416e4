-- ===== src/Ubus/Threads/Staged.antt =====
-- pkg/ubus/ubus.go: what becomes of staged changes where goroutines share a client.
use external_dns_openwrt_nex.Prelude.{
  eqb, List, eqb_iff, ℕ, Bool, true, false, [], ◌∷◌, subst, ◌∙◌, ◌≡◌, refl, sym, arith, inl, inr,
  ◌≢◌, Bool-cases,
}
use external_dns_openwrt_nex.Strings.{Str, ◌==◌}
use external_dns_openwrt_nex.Strings.Laws.{eq_iff}
use external_dns_openwrt_nex.Exec.{Result, ok, err}
use external_dns_openwrt_nex.Ubus.Errors.{Error, is_access_denied}
use external_dns_openwrt_nex.Ubus.Wire.{Request, Data, Transport}
use external_dns_openwrt_nex.Ubus.Session.{
  Auth, ClientState, send, is_staged, forget, login, settle, track,
}
use external_dns_openwrt_nex.Ubus.Session.Keeps.{stages, applies}
use external_dns_openwrt_nex.Ubus.Threads.{
  Pc, after_send, idle, calling, sending, checking, forgetting, renewing, resending, settling,
  resetting, returned, thread_step, System, step, run,
}

-- A goroutine that has no part in giving up what the session has staged: it is not about to reset the
-- client, its call is no uci apply, and it is not past the test for staged changes in this session.
abbrev pub IsHarmless : Str → Pc → Type 0
IsHarmless session idle = Unit
IsHarmless session (calling wanted r) = applies r ≡ false
IsHarmless session (sending wanted r x) = applies r ≡ false
IsHarmless session (checking wanted r x e) = applies r ≡ false
IsHarmless session (forgetting wanted r x) = (applies r ≡ false) × (x ≢ session)
IsHarmless session (renewing wanted r) = applies r ≡ false
IsHarmless session (resending wanted r x) = applies r ≡ false
IsHarmless session (settling r x outcome) = applies r ≡ false
IsHarmless session resetting = ⊥
IsHarmless session (returned outcome) = Unit

module _ (t : Transport) (auth : Auth) where
  -- The session is the same, and still has staged changes.
  abbrev pub Keeps : ClientState t → ClientState t → Type 0
  Keeps c c' = (c'.session ≡ c.session) × (c'.staged ≡ true)

  -- The client keeps its session and what it has staged, and the goroutine stays without a part.
  abbrev KeepsOn : ClientState t → Pc × ClientState t → Type 0
  KeepsOn c (pc, c') = Keeps c c' × IsHarmless c.session pc

  login-kept : (c : ClientState t) → c.session ≢ [] → login t auth c ≡ (ok c.session, c)
  unfolding login
  login-kept c n = ground arith

  IsHarmless-after_send :
      (wanted : Bool) (r : Request) (x y : Str) (d : Result Error Data)
      → applies r ≡ false
      → IsHarmless y (after_send t auth wanted r x d)
  IsHarmless-after_send wanted r x y (ok d) h = h
  IsHarmless-after_send wanted r x y (err e) h = elim (Bool-cases (is_access_denied e)) [
    | inl denied ↦ rw denied h
    | inr other ↦ rw other h
  ]

  checking-KeepsOn :
      (wanted : Bool) (r : Request) (x : Str) (e : Error) (c : ClientState t)
      → c.staged ≡ true
      → applies r ≡ false
      → KeepsOn c (thread_step t auth (checking wanted r x e) c)
  unfolding thread_step is_staged
  checking-KeepsOn wanted r x e c h a = elim (Bool-cases (c.session == x)) [
    | inl same ↦ rw (same, h) ((refl, refl), tt)
    | inr other ↦
        let apart : x ≢ c.session = λ q. cc (other, (eq_iff c.session x).1 (sym q)) in
        rw other ((refl, h), (a, apart))
  ]

  settle-Keeps :
      (r : Request) (x : Str) (outcome : Result Error Data) (c : ClientState t)
      → c.staged ≡ true
      → applies r ≡ false
      → Keeps c (settle t auth r (x, outcome) c).1
  unfolding settle track
  settle-Keeps r x (ok d) c h a = ground (arith, eq_iff c.session x)
  settle-Keeps r x (err e) c h a = (refl, h)

  thread_step-KeepsOn :
      (pc : Pc) (c : ClientState t)
      → c.staged ≡ true
      → c.session ≢ []
      → IsHarmless c.session pc
      → KeepsOn c (thread_step t auth pc c)
  unfolding thread_step send forget
  thread_step-KeepsOn idle c h n a = ((refl, h), tt)
  thread_step-KeepsOn (calling wanted r) c h n a = rw (login-kept c n) ((refl, h), a)
  thread_step-KeepsOn (sending wanted r x) c h n a =
      let d = (send t x wanted r c).0 in ((refl, h), IsHarmless-after_send wanted r x c.session d a)
  thread_step-KeepsOn (checking wanted r x e) c h n a = checking-KeepsOn wanted r x e c h a
  thread_step-KeepsOn (forgetting wanted r x) c h n (a, apart) =
      elim (Bool-cases (c.session == x)) [
        | inl same ↦ absurd (apart (sym ((eq_iff c.session x).0 same)))
        | inr other ↦ rw other ((refl, h), a)
      ]
  thread_step-KeepsOn (renewing wanted r) c h n a = rw (login-kept c n) ((refl, h), a)
  thread_step-KeepsOn (resending wanted r x) c h n a = ((refl, h), a)
  thread_step-KeepsOn (settling r x outcome) c h n a = (settle-Keeps r x outcome c h a, tt)
  thread_step-KeepsOn resetting c h n a = absurd a
  thread_step-KeepsOn (returned d) c h n a = ((refl, h), tt)

  step-IsHarmless :
      (i : ℕ) (s : System t auth)
      → s.client.staged ≡ true
      → s.client.session ≢ []
      → ((j : ℕ) → IsHarmless s.client.session (s.threads j))
      → (j : ℕ) → IsHarmless s.client.session ((step t auth i s).threads j)
  unfolding step
  step-IsHarmless i s h n all j =
      let (_, stays) = thread_step-KeepsOn (s.threads i) s.client h n (all i) in
      elim (Bool-cases (eqb i j)) [ inl here ↦ rw here stays | inr other ↦ rw other (all j) ]

  -- Whatever the order of the steps, a session that holds staged changes stays the client's and stays
  -- marked as staged, where at the start no goroutine is about to reset the client, none has a uci
  -- apply as its call, and none is past its test for staged changes in this session. In particular no
  -- refusal of the session in the meantime makes a goroutine forget it.
  pub run-Keeps :
      (schedule : List ℕ) (s : System t auth)
      → s.client.staged ≡ true
      → s.client.session ≢ []
      → ((j : ℕ) → IsHarmless s.client.session (s.threads j))
      → Keeps s.client (run t auth schedule s).client
  unfolding run
  run-Keeps [] s h n all = (refl, h)
  run-Keeps (i ∷ schedule) s h n all =
      let s' = step t auth i s in
      let (same, staged) : Keeps s.client s'.client =
        unfold step in (thread_step-KeepsOn (s.threads i) s.client h n (all i)).0 in
      let (same', staged') =
        run-Keeps schedule s' staged (λ e. n (sym same ∙ e))
          (λ j.
            subst (λ x. IsHarmless x (s'.threads j)) (sym same) (step-IsHarmless i s h n all j)) in
      (same' ∙ same, staged')

  -- The test for staged changes and the forgetting are two steps: where a goroutine was refused in the
  -- client's session and is about to test, and another is about to note what its call has staged in
  -- that session, there is an order of their steps in which the second call returns its success,
  -- and the session with its changes is then dropped as if nothing were staged.
  pub staged_dropped :
      (i j : ℕ) (s : System t auth) (wanted : Bool) (r r' : Request) (x : Str) (e : Error)
      (d : Data)
      → i ≢ j
      → s.threads i ≡ checking wanted r x e
      → s.threads j ≡ settling r' x (ok d)
      → stages r' ≡ true
      → s.client.session ≡ x
      → s.client.staged ≡ false
      → let s' = run t auth (i ∷ j ∷ i ∷ []) s in
        (s'.threads j ≡ returned (ok d)) × (s'.client.session ≡ []) × (s'.client.staged ≡ false)
  unfolding run step thread_step is_staged forget settle track
  staged_dropped i j s wanted r r' x e d apart ti tj st cs cf = ground (
    arith,
    eqb_iff i j,
    eqb_iff j i,
    eqb_iff i i,
    eqb_iff j j,
    eq_iff s.client.session x,
    eq_iff x x,
  )
