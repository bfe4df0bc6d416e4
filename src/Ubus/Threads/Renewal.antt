-- ===== src/Ubus/Threads/Renewal.antt =====
-- pkg/ubus/ubus.go: what a login does for goroutines that share a client.
use external_dns_openwrt_nex.Prelude.{
  Bool, true, false, List, [], ◌∷◌, ◌≡◌, refl, sym, ap, ◌∙◌, subst, arith, inl, inr, ◌⊎◌, ◌≢◌,
  is_empty, Bool-cases,
}
use external_dns_openwrt_nex.Ubus.Session.{
  login_request, Auth, ClientState, send, login, login_session,
}
use external_dns_openwrt_nex.Strings.{Str, ◌==◌}
use external_dns_openwrt_nex.Exec.{Result, ok, err, Result-cases}
use external_dns_openwrt_nex.Ubus.Errors.{Error}
use external_dns_openwrt_nex.Ubus.Wire.{Request, Data, Transport, HttpReply, read_reply}
use external_dns_openwrt_nex.Ubus.Threads.{
  Pc, idle, calling, sending, checking, forgetting, renewing, resending, settling, resetting,
  returned,
}
use external_dns_openwrt_nex.Ubus.Threads.Log.{
  Exchange, logged, opened, newest, refused_in, IsFree, AreNeeded, refused_in-later, IsFree-later,
}

pub empty_session : (x : Str) → is_empty x ≡ true → x ≡ []
empty_session [] h = refl
empty_session (a ∷ x) h = cc

module _ (t : Transport) (auth : Auth) (c : ClientState t) where
  -- The exchange of a login.
  abbrev pub asked : HttpReply × t.Net
  asked = t.exchange login_session (login_request t auth) c.net

  -- Without a session, a login makes the exchange, and stores the session that it opens.
  pub data LoggedIn : Result Error Str × ClientState t → Type 0 where
    opens :
        (d : Data)
        → read_reply true asked.0 ≡ ok d
        → is_empty d.session ≡ false
        → LoggedIn (ok d.session, record c { session = d.session; net = asked.1 })
    fails :
        (e : Error)
        → ((old : Str) → opened asked.0 old ≡ old)
        → LoggedIn (err e, record c { net = asked.1 })

  pub login-LoggedIn : is_empty c.session ≡ true → LoggedIn (login t auth c)
  unfolding login send
  login-LoggedIn none_there = elim (Result-cases (read_reply true asked.0)) [
    | inr (e, h) ↦ rw (none_there, h) (fails _ (λ old. ground arith))
    | inl (d, h) ↦ elim (Bool-cases (is_empty d.session)) [
      | inl nothing ↦ rw (none_there, h, nothing) (fails _ (λ old. ground arith))
      | inr given ↦ rw (none_there, h, given) (opens d h given)
    ]
  ]

  pub login_held : is_empty c.session ≡ false → login t auth c ≡ (ok c.session, c)
  unfolding login
  login_held some_there = rw some_there refl

module _ (t : Transport) where
  -- The router hands out no session with the name of the one that logins are made in.
  abbrev pub HasFreshSessions : Type 0
  HasFreshSessions =
      (r : Request) (n : t.Net) (d : Data)
      → read_reply true (t.exchange login_session r n).0 ≡ ok d
      → (d.session == login_session) ≡ false

  abbrev pub Client : Type 0
  Client = ClientState (logged t)

  -- The client's session is the newest, or there is none and a login is needed.
  pub record Fits (c : Client) : Type 0 where
    pub needed : AreNeeded c.net.log
    pub held :
        ((c.session ≡ []) × IsFree c.net.log)
        ⊎ ((c.session ≢ [])
            × (c.session ≡ newest c.net.log)
            × ((c.session == login_session) ≡ false))

  -- What a goroutine knows of the session that it works in.
  abbrev pub Knows : List Exchange → Pc → Type 0
  Knows log (sending wanted r x) = (x == login_session) ≡ false
  Knows log (resending wanted r x) = (x == login_session) ≡ false
  Knows log (checking wanted r x e) = refused_in x log ≡ true
  Knows log (forgetting wanted r x) = refused_in x log ≡ true
  Knows log resetting = ⊥
  Knows log _ = Unit {0}

  -- What was refused stays refused.
  abbrev pub Extends : List Exchange → List Exchange → Type 0
  Extends log log' = (x : Str) → refused_in x log ≡ true → refused_in x log' ≡ true

  pub Knows-later :
      (log log' : List Exchange) (pc : Pc) → Extends log log' → Knows log pc → Knows log' pc
  Knows-later log log' (sending wanted r x) e k = k
  Knows-later log log' (resending wanted r x) e k = k
  Knows-later log log' (checking wanted r x f) e k = e x k
  Knows-later log log' (forgetting wanted r x) e k = e x k
  Knows-later log log' idle e k = tt
  Knows-later log log' (calling wanted r) e k = tt
  Knows-later log log' (renewing wanted r) e k = tt
  Knows-later log log' (settling r x d) e k = tt
  Knows-later log log' (returned d) e k = tt
  Knows-later log log' resetting e k = k

  pub send-Fits :
      (wanted : Bool) (r : Request) (x : Str) (c : Client)
      → (x == login_session) ≡ false
      → Fits c
      → Fits (send (logged t) x wanted r c).1
  unfolding send
  send-Fits wanted r x c apart f = record {
    needed = (inl apart, f.needed);
    held = elim f.held [
      | inl (e, free) ↦ inl (e, IsFree-later _ c.net.log apart free)
      | inr (some_session, e, mine) ↦ inr (some_session, rw apart e, mine)
    ];
  }

  -- A login keeps what fits; what was refused stays refused; and no session that it gives is the one
  -- that logins are made in.
  pub record Renewed (c : Client) (p : Result Error Str × Client) : Type 0 where
    pub fits : Fits p.1
    pub extends : Extends c.net.log p.1.net.log
    pub apart : (x : Str) → p.0 ≡ ok x → (x == login_session) ≡ false

  pub login_entry : (auth : Auth) → Client → Exchange
  login_entry auth c = record { session = login_session; reply = (asked (logged t) auth c).0 }

  pub newest_login :
      (reply : HttpReply) (log : List Exchange)
      → newest (record { session = login_session; reply = reply } ∷ log) ≡ opened reply (newest log)
  unfolding ◌==◌
  newest_login reply log = refl

  pub IsFree-login :
      (reply : HttpReply) (log : List Exchange)
      → ((old : Str) → opened reply old ≡ old)
      → IsFree log
      → IsFree (record { session = login_session; reply = reply } ∷ log)
  IsFree-login reply log same (inl e) = inl (newest_login reply log ∙ same (newest log) ∙ e)
  IsFree-login reply log same (inr e) =
      let x : Exchange = record { session = login_session; reply = reply } in
      inr (
        subst (λ n. refused_in n (x ∷ log) ≡ true)
          (sym (newest_login reply log ∙ same (newest log)))
          (refused_in-later (newest log) x log e))

  pub LoggedIn-Renewed :
      (auth : Auth) (c : Client) (p : Result Error Str × Client)
      → HasFreshSessions
      → Fits c
      → c.session ≡ []
      → IsFree c.net.log
      → LoggedIn (logged t) auth c p
      → Renewed c p
  LoggedIn-Renewed auth c _ fresh f empty free (opens d h given) =
      let apart : (d.session == login_session) ≡ false =
        fresh (login_request (logged t) auth) c.net.net d h in
      let reply = (asked (logged t) auth c).0 in
      record {
        fits = record {
          needed = (inr free, f.needed);
          held = inr (
            λ e. cc (ap (λ x. is_empty x) e, given),
            sym (newest_login reply c.net.log ∙ ground (arith, h, given)),
            apart,
          );
        };
        extends = λ x k. refused_in-later x _ c.net.log k;
        apart = λ x e.
            let same : d.session ≡ x = cc e in subst (λ y. (y == login_session) ≡ false) same apart;
      }
  LoggedIn-Renewed auth c _ fresh f empty free (fails e same) = record {
    fits = record {
      needed = (inr free, f.needed);
      held = inl (empty, IsFree-login _ c.net.log same free);
    };
    extends = λ x k. refused_in-later x _ c.net.log k;
    apart = λ x e. cc e;
  }

  pub login-Renewed :
      (auth : Auth) (c : Client) → HasFreshSessions → Fits c → Renewed c (login (logged t) auth c)
  login-Renewed auth c fresh f = elim f.held [
    | inl (empty, free) ↦
        LoggedIn-Renewed auth c (login (logged t) auth c) fresh f empty free
          (login-LoggedIn (logged t) auth c (ap is_empty empty))
    | inr (some_session, e, mine) ↦
        let there : is_empty c.session ≡ false = elim (Bool-cases (is_empty c.session)) [
          | inr no_more ↦ no_more
          | inl gone ↦ absurd (some_session (empty_session c.session gone))
        ] in
        rw (login_held (logged t) auth c there) (record {
          fits = f;
          extends = λ x k. k;
          apart = λ x h.
              let same : c.session ≡ x = cc h in
              subst (λ y. (y == login_session) ≡ false) same mine;
        })
  ]
