-- ===== src/Ubus/Threads/Log.antt =====
-- pkg/ubus/ubus.go: what a log of the exchanges with the router tells of its sessions.
use external_dns_openwrt_nex.Prelude.{
  Bool, true, false, ◌&&◌, List, [], ◌∷◌, ◌≡◌, sym, ◌∙◌, subst, arith, inl, inr, ◌⊎◌, if◌then◌else◌,
  any, is_empty,
}
use external_dns_openwrt_nex.Ubus.Session.{login_session}
use external_dns_openwrt_nex.Strings.{Str, ◌==◌}
use external_dns_openwrt_nex.Exec.{ok, err}
use external_dns_openwrt_nex.Ubus.Errors.{Error, is_access_denied}
use external_dns_openwrt_nex.Ubus.Wire.{Transport, HttpReply, read_reply}

-- One exchange, as a router's log has it.
pub record Exchange : Type 0 where
  pub session : Str
  pub reply : HttpReply

pub record Logged (N : Type 0) : Type 0 where
  pub net : N
  pub log : List Exchange

-- The same network, with a log of the exchanges, the newest first.
abbrev pub logged : Transport → Transport
logged t = record {
  Net = Logged t.Net;
  exchange = λ session r l.
      let (reply, n) = t.exchange session r l.net in
      (reply, record { net = n; log = record { session = session; reply = reply } ∷ l.log });
}

-- The session that a reply to a login opens, or the one that was there.
abbrev pub opened : HttpReply → Str → Str
opened reply old = elim (read_reply true reply) [
  | ok d ↦ if is_empty d.session then old else d.session
  | err e ↦ old
]

-- The session that the newest successful login has opened; empty if there was none.
abbrev pub newest : List Exchange → Str
newest [] = []
newest (x ∷ log) = if x.session == login_session then opened x.reply (newest log) else newest log

abbrev pub denies : HttpReply → Bool
denies reply = elim (read_reply true reply) [ ok d ↦ false | err e ↦ is_access_denied e ]

-- A call in the session was refused.
abbrev pub refused_in : Str → List Exchange → Bool
refused_in session = any (λ x. x.session == session && denies x.reply)

-- No session was opened yet, or a call was refused in the newest.
abbrev pub IsFree : List Exchange → Type 0
IsFree log = (newest log ≡ []) ⊎ (refused_in (newest log) log ≡ true)

-- Each login was made where no session was there to use.
abbrev pub AreNeeded : List Exchange → Type 0
AreNeeded [] = Unit {0}
AreNeeded (x ∷ log) = (((x.session == login_session) ≡ false) ⊎ IsFree log) × AreNeeded log

pub read_reply-denied :
    (wanted : Bool) (reply : HttpReply) (e : Error)
    → read_reply wanted reply ≡ err e
    → is_access_denied e ≡ true
    → denies reply ≡ true
unfolding read_reply
read_reply-denied wanted (HttpReply.no_reply x) e h k = ground arith
read_reply-denied wanted (HttpReply.answered code (err x)) e h k = ground arith
read_reply-denied false (HttpReply.answered code (ok b)) e h k = ground arith
read_reply-denied true (HttpReply.answered code (ok b)) e h k = ground arith

pub refused_in-later :
    (session : Str) (x : Exchange) (log : List Exchange)
    → refused_in session log ≡ true
    → refused_in session (x ∷ log) ≡ true
refused_in-later session x log h = ground arith

pub newest-later :
    (x : Exchange) (log : List Exchange)
    → (x.session == login_session) ≡ false
    → newest (x ∷ log) ≡ newest log
newest-later x log h = rw h

-- An exchange in an open session changes neither which session is the newest, nor that it was refused.
pub IsFree-later :
    (x : Exchange) (log : List Exchange)
    → (x.session == login_session) ≡ false
    → IsFree log
    → IsFree (x ∷ log)
IsFree-later x log h (inl e) = inl (newest-later x log h ∙ e)
IsFree-later x log h (inr e) = inr (
    subst (λ n. refused_in n (x ∷ log) ≡ true) (sym (newest-later x log h))
      (refused_in-later (newest log) x log e))
