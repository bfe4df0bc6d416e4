-- ===== src/Ubus/Threads/Turn.antt =====
-- pkg/ubus/ubus.go: a step of a goroutine keeps the client's session the newest.
use external_dns_openwrt_nex.Prelude.{
  Bool, true, false, ◌≡◌, refl, sym, ap, ◌∙◌, subst, arith, inl, inr, Bool-cases,
}
use external_dns_openwrt_nex.Ubus.Threads.{
  after_login, Pc, idle, calling, sending, checking, forgetting, renewing, resending, settling,
  resetting, returned, thread_step,
}
use external_dns_openwrt_nex.Strings.{Str, ◌==◌}
use external_dns_openwrt_nex.Strings.Laws.{eq_iff, eq_refl}
use external_dns_openwrt_nex.Exec.{Result, ok, err, Result-cases}
use external_dns_openwrt_nex.Ubus.Errors.{Error, is_access_denied}
use external_dns_openwrt_nex.Ubus.Wire.{Request, Data, Transport}
use external_dns_openwrt_nex.Ubus.Session.{
  Auth, send, is_staged, forget, login, settle, track, login_session,
}
use external_dns_openwrt_nex.Ubus.Threads.Log.{
  logged, newest, refused_in, IsFree, AreNeeded, read_reply-denied, refused_in-later,
}
use external_dns_openwrt_nex.Ubus.Threads.Renewal.{
  HasFreshSessions, Client, Fits, Knows, Extends, send-Fits, Renewed, login-Renewed,
}

module _ (t : Transport) (auth : Auth) where
  -- A step of a goroutine that knows its session, on a client that fits.
  pub record Stepped (c : Client t) (p : Pc × Client t) : Type 0 where
    pub fits : Fits t p.1
    pub extends : Extends t c.net.log p.1.net.log
    pub knows : Knows t p.1.net.log p.0

  login-Stepped :
      (next : Str → Pc) (c : Client t) (r : Result Error Str × Client t)
      → ((x : Str) → (x == login_session) ≡ false → Knows t r.1.net.log (next x))
      → Renewed t c r
      → Stepped c (after_login (logged t) auth next r.0, r.1)
  login-Stepped next c (ok x, c') know n = record {
    fits = n.fits;
    extends = n.extends;
    knows = know x (n.apart x refl);
  }
  login-Stepped next c (err e, c') know n = record {
    fits = n.fits;
    extends = n.extends;
    knows = tt;
  }

  sent :
      (wanted : Bool) (r : Request) (x : Str) (c : Client t)
      → Extends t c.net.log (send (logged t) x wanted r c).1.net.log
  unfolding send
  sent wanted r x c y k = refused_in-later y _ c.net.log k

  refused_by_send :
      (wanted : Bool) (r : Request) (x : Str) (c : Client t) (e : Error)
      → (send (logged t) x wanted r c).0 ≡ err e
      → is_access_denied e ≡ true
      → refused_in x (send (logged t) x wanted r c).1.net.log ≡ true
  unfolding send
  refused_by_send wanted r x c e h k =
      ground (arith, read_reply-denied wanted (t.exchange x r c.net.net).0 e h k, eq_refl x)

  sending-Stepped :
      (wanted : Bool) (r : Request) (x : Str) (c : Client t)
      → (x == login_session) ≡ false
      → Fits t c
      → Stepped c (thread_step (logged t) auth (sending wanted r x) c)
  unfolding thread_step
  sending-Stepped wanted r x c apart f = elim (Result-cases (send (logged t) x wanted r c).0) [
    | inl (d, h) ↦ rw h (record {
      fits = send-Fits t wanted r x c apart f;
      extends = sent wanted r x c;
      knows = tt;
    })
    | inr (e, h) ↦ elim (Bool-cases (is_access_denied e)) [
      | inl denied ↦
          rw (h, denied)
            (record {
              fits = send-Fits t wanted r x c apart f;
              extends = sent wanted r x c;
              knows = refused_by_send wanted r x c e h denied;
            })
      | inr other ↦
          rw (h, other)
            (record {
              fits = send-Fits t wanted r x c apart f;
              extends = sent wanted r x c;
              knows = tt;
            })
    ]
  ]

  Fits-alike : (c c' : Client t) → c'.session ≡ c.session → c'.net ≡ c.net → Fits t c → Fits t c'
  Fits-alike c c' e n f = record {
    needed = subst (λ m. AreNeeded m.log) (sym n) f.needed;
    held = elim f.held [
      | inl (empty, free) ↦ inl (e ∙ empty, subst (λ m. IsFree m.log) (sym n) free)
      | inr (some_session, same, mine) ↦
          inr (λ h. some_session (sym e ∙ h), e ∙ same ∙ ap (λ m. newest m.log) (sym n), rw e mine)
    ];
  }

  forget-Fits :
      (x : Str) (c : Client t)
      → refused_in x c.net.log ≡ true
      → Fits t c
      → Fits t (forget (logged t) x c)
  unfolding forget
  forget-Fits x c k f = elim (Bool-cases (c.session == x)) [
    | inr other ↦ rw other f
    | inl same ↦ rw same (record {
      needed = f.needed;
      held = elim f.held [
        | inl (empty, free) ↦ inl (refl, free)
        | inr (some_session, e, mine) ↦
            let name : x ≡ newest c.net.log = sym ((eq_iff c.session x).0 same) ∙ e in
            inl (refl, inr (subst (λ n. refused_in n c.net.log ≡ true) name k))
      ];
    })
  ]

  forget_net : (x : Str) (c : Client t) → (forget (logged t) x c).net ≡ c.net
  unfolding forget
  forget_net x c = ground arith

  settle_same :
      (r : Request) (x : Str) (d : Result Error Data) (c : Client t)
      → ((settle (logged t) auth r (x, d) c).1.session ≡ c.session)
        × ((settle (logged t) auth r (x, d) c).1.net ≡ c.net)
  unfolding settle track
  settle_same r x (err e) c = (refl, refl)
  settle_same r x (ok d) c = ground arith

  pub thread_step-Stepped :
      (pc : Pc) (c : Client t)
      → HasFreshSessions t
      → Fits t c
      → Knows t c.net.log pc
      → Stepped c (thread_step (logged t) auth pc c)
  unfolding thread_step
  thread_step-Stepped idle c fresh f k = record { fits = f; extends = λ x h. h; knows = tt }
  thread_step-Stepped (calling wanted r) c fresh f k =
      login-Stepped (sending wanted r) c (login (logged t) auth c) (λ x h. h)
        (login-Renewed t auth c fresh f)
  thread_step-Stepped (sending wanted r x) c fresh f k = sending-Stepped wanted r x c k f
  thread_step-Stepped (checking wanted r x e) c fresh f k =
      elim (Bool-cases (is_staged (logged t) x c)) [
        | inl staged ↦ rw staged (record { fits = f; extends = λ y h. h; knows = tt })
        | inr free ↦ rw free (record { fits = f; extends = λ y h. h; knows = k })
      ]
  thread_step-Stepped (forgetting wanted r x) c fresh f k = record {
    fits = forget-Fits x c k f;
    extends = λ y h. rw (forget_net x c) h;
    knows = tt;
  }
  thread_step-Stepped (renewing wanted r) c fresh f k =
      login-Stepped (resending wanted r) c (login (logged t) auth c) (λ x h. h)
        (login-Renewed t auth c fresh f)
  thread_step-Stepped (resending wanted r x) c fresh f k = record {
    fits = send-Fits t wanted r x c k f;
    extends = sent wanted r x c;
    knows = tt;
  }
  thread_step-Stepped (settling r x d) c fresh f k =
      let (same, net) = settle_same r x d c in
      record {
        fits = Fits-alike c (settle (logged t) auth r (x, d) c).1 same net f;
        extends = λ y h. rw net h;
        knows = tt;
      }
  thread_step-Stepped resetting c fresh f k = absurd k
  thread_step-Stepped (returned d) c fresh f k = record { fits = f; extends = λ x h. h; knows = tt }
