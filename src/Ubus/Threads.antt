-- ===== src/Ubus/Threads.antt =====
-- pkg/ubus/ubus.go: calls of one client by many goroutines. A step of a goroutine is what it does up to
-- where another can come between: a method under the mutex, or one exchange with the router.
pub mod Staged
pub mod Log
pub mod Renewal
pub mod Turn
pub mod Logins
pub mod Examples
use external_dns_openwrt_nex.Ubus.Session.{
  staged_error, Auth, ClientState, send, reset, is_staged, forget, login, settle,
}
use external_dns_openwrt_nex.Prelude.{
  ℕ, zero, suc, ◌+◌, Bool, true, false, not, ◌&&◌, ◌||◌, List, [], ◌∷◌, ◌++◌, map, Option, none,
  some, ◌≡◌, refl, sym, ap, ◌∙◌, subst, arith, inl, inr, ◌⊎◌, ◌↔◌, ◌≢◌, ltb, leb, eqb,
  if◌then◌else◌, length, any, keep, is_empty, All, Bool-cases, Option-cases, ◌≤◌, ◌<◌,
}
use external_dns_openwrt_nex.Strings.{Str, codes}
use external_dns_openwrt_nex.Exec.{Result, ok, err}
use external_dns_openwrt_nex.Ubus.Errors.{Error, wrap, is_access_denied}
use external_dns_openwrt_nex.Ubus.Wire.{Request, Data, no_data, Transport}

-- Where a goroutine stands in `Call` or `Reset`. The Boolean: the caller passed a result to decode
-- into.
pub data Pc : Type 0 where
  idle : Pc
  calling : Bool → Request → Pc  -- before the login
  sending : Bool → Request → Str → Pc  -- before the first attempt, in its session
  checking : Bool → Request → Str → Error → Pc  -- refused, before `isStaged`
  forgetting : Bool → Request → Str → Pc  -- before `forget`
  renewing : Bool → Request → Pc  -- before the second login
  resending : Bool → Request → Str → Pc  -- before the second attempt
  settling : Request → Str → Result Error Data → Pc  -- before `track`
  resetting : Pc  -- before `Reset`
  returned : Result Error Data → Pc

module _ (t : Transport) (auth : Auth) where
  -- What follows a login.
  abbrev pub after_login : (Str → Pc) → Result Error Str → Pc
  after_login next (ok session) = next session
  after_login next (err e) = returned (err e)

  -- What follows the first attempt.
  abbrev pub after_send : Bool → Request → Str → Result Error Data → Pc
  after_send wanted r session (ok d) = settling r session (ok d)
  after_send wanted r session (err e) =
      if is_access_denied e then checking wanted r session e else settling r session (err e)

  unfoldable pub thread_step : Pc → ClientState t → Pc × ClientState t
  thread_step idle s = (idle, s)
  thread_step (calling wanted r) s =
      let (session, s') = login t auth s in (after_login (sending wanted r) session, s')
  thread_step (sending wanted r session) s =
      let (d, s') = send t session wanted r s in (after_send wanted r session d, s')
  thread_step (checking wanted r session e) s = (
    if is_staged t session s
        then returned (err (staged_error r e))
        else forgetting wanted r session,
    s,
  )
  thread_step (forgetting wanted r session) s = (renewing wanted r, forget t session s)
  thread_step (renewing wanted r) s =
      let (session, s') = login t auth s in (after_login (resending wanted r) session, s')
  thread_step (resending wanted r session) s =
      let (d, s') = send t session wanted r s in (settling r session d, s')
  thread_step (settling r session outcome) s =
      let (d, s') = settle t auth r (session, outcome) s in (returned d, s')
  thread_step resetting s = (returned (ok no_data), reset t s)
  thread_step (returned d) s = (returned d, s)

  -- The goroutines, by number, and the client that they share.
  pub record System : Type 0 where
    pub client : ClientState t
    pub threads : ℕ → Pc

  abbrev pub update : (ℕ → Pc) → ℕ → Pc → ℕ → Pc
  update threads i pc j = if eqb i j then pc else threads j

  unfoldable pub step : ℕ → System → System
  step i s =
      let (pc, c) = thread_step (s.threads i) s.client in
      record { client = c; threads = update s.threads i pc }

  -- The goroutines take their steps in the given order.
  unfoldable pub run : List ℕ → System → System
  run [] s = s
  run (i ∷ schedule) s = run schedule (step i s)
