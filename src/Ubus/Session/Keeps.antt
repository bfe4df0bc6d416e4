-- ===== src/Ubus/Session/Keeps.antt =====
-- pkg/ubus/ubus.go: what a call does to the session, and to what the session has staged.
use external_dns_openwrt_nex.Prelude.{
  ap, ◌∙◌, inl, inr, false, if◌then◌else◌, arith, [], ◌||◌, ◌&&◌, ◌≢◌, ◌⊎◌, true, ◌≡◌,
}
use external_dns_openwrt_nex.Exec.{Result-cases, Result, err, ok}
use external_dns_openwrt_nex.Ubus.Session.{
  settle, attempt, Bool, Request, Transport, ClientState, Auth, call, login, send, track, forget,
  is_staged,
}
use external_dns_openwrt_nex.Strings.{Str, codes, ◌==◌}
use external_dns_openwrt_nex.Ubus.Errors.{Error}
use external_dns_openwrt_nex.Ubus.Wire.{Data}
use external_dns_openwrt_nex.Strings.Laws.{eq_iff}

-- The uci methods that stage a change.
abbrev pub stages : Request → Bool
stages r =
    r.object == codes "uci"
    && (r.method == codes "add" || r.method == codes "set" || r.method == codes "delete")

abbrev pub applies : Request → Bool
applies r = r.object == codes "uci" && r.method == codes "apply"

module _ (t : Transport) (auth : Auth) where
  -- The session that holds staged changes is there.
  abbrev pub IsWell : ClientState t → Type 0
  IsWell s = (s.staged ≡ false) ⊎ (s.session ≢ [])

  -- A session that holds staged changes is never replaced, whatever the router answers.
  pub call-keeps_session :
      (wanted : Bool) (r : Request) (s : ClientState t)
      → s.staged ≡ true
      → s.session ≢ []
      → (call t auth wanted r s).1.session ≡ s.session
  unfolding call attempt settle login send track is_staged forget
  call-keeps_session wanted r s h k = ground (arith, eq_iff s.session s.session)

  -- Staged changes are always those of an open session.
  pub call-IsWell :
      (wanted : Bool) (r : Request) (s : ClientState t)
      → IsWell s
      → IsWell (call t auth wanted r s).1
  unfolding call attempt settle login send track is_staged forget
  call-IsWell wanted r s h = ground (arith, eq_iff s.session s.session)

  login-staged : (s : ClientState t) → (login t auth s).1.staged ≡ s.staged
  unfolding login send
  login-staged s = ground arith

  login-session :
      (s : ClientState t) (x : Str)
      → (login t auth s).0 ≡ ok x
      → ((login t auth s).1.session ≡ x) × (x ≢ [])
  unfolding login send
  login-session s x e = ground arith

  -- An attempt that returns, an error or not, did so in the session that is there now.
  attempt-session :
      (wanted : Bool) (r : Request) (x : Str) (s : ClientState t) (y : Str) (o : Result Error Data)
      → s.session ≡ x
      → (attempt t auth wanted r x s).0 ≡ ok (y, o)
      → (attempt t auth wanted r x s).1.session ≡ y
  unfolding attempt send is_staged forget
  attempt-session wanted r x s y o h e =
      ground (arith, login-session (forget t x (send t x wanted r s).1) y)

  attempt-staged :
      (wanted : Bool) (r : Request) (x : Str) (s : ClientState t) (y : Str) (o : Result Error Data)
      → s.session ≡ x
      → (attempt t auth wanted r x s).0 ≡ ok (y, o)
      → (attempt t auth wanted r x s).1.staged ≡ s.staged
  unfolding attempt send is_staged forget
  attempt-staged wanted r x s y o h e =
      ground (arith, eq_iff s.session x, login-staged (forget t x (send t x wanted r s).1))

  settle-staged :
      (r : Request) (x : Str) (o : Result Error Data) (s : ClientState t) (d : Data)
      → s.session ≡ x
      → (settle t auth r (x, o) s).0 ≡ ok d
      → (settle t auth r (x, o) s).1.staged
        ≡ (if stages r then true else if applies r then false else s.staged)
  unfolding settle track
  settle-staged r x (err e) s d h k = cc
  settle-staged r x (ok d') s d h k = ground (arith, eq_iff s.session x)

  -- After a call that succeeded: a uci add, set or delete has staged something, a uci apply has left
  -- nothing staged, and any other call leaves what was staged as it was.
  pub call-staged :
      (wanted : Bool) (r : Request) (s : ClientState t) (d : Data)
      → (call t auth wanted r s).0 ≡ ok d
      → (call t auth wanted r s).1.staged
        ≡ (if stages r then true else if applies r then false else s.staged)
  unfolding call
  call-staged wanted r s d e = elim (Result-cases (login t auth s).0) [
    | inr (x, l) ↦ cc (rw l at e)
    | inl (x, l) ↦
        let s1 = (login t auth s).1 in
        let here : s1.session ≡ x = (login-session s x l).0 in
        elim (Result-cases (attempt t auth wanted r x s1).0) [
          | inr (f, a) ↦ cc (rw (l, a) at e)
          | inl ((y, o), a) ↦
              let s2 = (attempt t auth wanted r x s1).1 in
              rw (l, a)
                (settle-staged r y o s2 d (attempt-session wanted r x s1 y o here a)
                    (rw (l, a) at e)
                  ∙ ap (λ (b : Bool). if stages r then true else if applies r then false else b)
                      (attempt-staged wanted r x s1 y o here a ∙ login-staged s))
        ]
  ]

  -- A call that failed has staged nothing: what is staged after it was staged before, in the same
  -- session.
  pub call-failed :
      (wanted : Bool) (r : Request) (s : ClientState t) (e : Error)
      → (call t auth wanted r s).0 ≡ err e
      → (call t auth wanted r s).1.staged ≡ true
      → s.staged ≡ true
  unfolding call attempt settle login send track is_staged forget
  call-failed wanted r s e h k = ground arith
