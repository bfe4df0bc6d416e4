-- ===== src/Ubus/Session.antt =====
-- pkg/ubus/ubus.go: sessions. `ClientState` has the fields of `client` that change, and the network
-- behind them. A method that takes the mutex is one step.
pub mod Keeps
use external_dns_openwrt_nex.Prelude.{
  ℕ, zero, suc, ◌+◌, Bool, true, false, not, ◌&&◌, ◌||◌, List, [], ◌∷◌, ◌++◌, map, Option, none,
  some, ◌≡◌, refl, sym, ap, ◌∙◌, subst, arith, inl, inr, ◌⊎◌, ◌↔◌, ◌≢◌, ltb, leb, eqb,
  if◌then◌else◌, length, any, keep, is_empty, All, Bool-cases, Option-cases, ◌≤◌, ◌<◌,
}
use external_dns_openwrt_nex.Strings.{Str, codes, ◌==◌}
use external_dns_openwrt_nex.Exec.{
  Result, ok, err, Exec, pure, fail, ◌>>=◌, ◌>>◌, failing, continue,
}
use external_dns_openwrt_nex.Ubus.Errors.{Error, plain, wrap, is_access_denied}
use external_dns_openwrt_nex.Ubus.Wire.{Request, text, Data, Transport, Client, read_reply}

-- `fmt.Sprintf("ubus call %s %s", object, method)`.
pub call_context : Request → Str
call_context r = codes "ubus call " ++ r.object ++ b' ' ∷ r.method

abbrev pub staged_error : Request → Error → Error
staged_error r = wrap (call_context r ++ codes ": session refused with uci changes staged")

abbrev pub login_session : Str
login_session = codes "00000000000000000000000000000000"

pub record Auth : Type 0 where
  pub username : Str
  pub password : Str

module _ (t : Transport) where
  pub record ClientState : Type 0 where
    pub session : Str
    pub staged : Bool
    pub net : t.Net

  abbrev pub Ubus : Type 0 → Type 0
  Ubus = Exec ClientState Error

  -- The lower-case `call`.
  unfoldable pub send : Str → Bool → Request → Ubus Data
  send session wanted r s =
      let (reply, net') = t.exchange session r s.net in
      (read_reply wanted reply, record s { net = net' })

  unfoldable pub reset : ClientState → ClientState
  reset s = record s { session = []; staged = false }

  unfoldable pub is_staged : Str → ClientState → Bool
  is_staged session s = s.session == session && s.staged

  unfoldable pub forget : Str → ClientState → ClientState
  forget session s = if s.session == session then record s { session = []; staged = false } else s

  unfoldable pub track : Str → Str → ClientState → ClientState
  track session method s =
      if s.session == session
      then (if method == codes "add" || method == codes "set" || method == codes "delete"
          then record s { staged = true }
          else if method == codes "apply"
          then record s { staged = false }
          else s)
      else s

module _ (t : Transport) (auth : Auth) where
  unfoldable pub login_request : Request
  login_request = record {
    object = codes "session";
    method = codes "login";
    args = (codes "username", text auth.username) ∷ (codes "password", text auth.password) ∷ [];
  }

  abbrev login_error : Error → Error
  login_error = wrap (codes "ubus login")

  store_session : Str → Ubus t Str
  store_session session s =
      if is_empty session
      then (err (plain (codes "ubus login: no session in the response")), s)
      else (ok session, record s { session = session })

  unfoldable pub login : Ubus t Str
  unfolding store_session
  login s =
      if is_empty s.session
      then (do
        d ← failing login_error (send t login_session true login_request)
        store_session d.session)
          s
      else (ok s.session, s)

  abbrev call_error : Request → Error → Error
  call_error r = wrap (call_context r)

  -- The second attempt of `Call`, in a fresh session. The result carries the session it ran in.
  again : Bool → Request → Str → Ubus t (Str × Result Error Data)
  again wanted r old s =
      (do
        session ← login
        λ s'. let (d, s'') = send t session wanted r s' in (ok (session, d), s''))
        (forget t old s)

  -- What `Call` does with the answer to its first attempt.
  unfoldable pub attempt : Bool → Request → Str → Ubus t (Str × Result Error Data)
  unfolding again
  attempt wanted r session s =
      let (d, s') = send t session wanted r s in
      elim d [
        | ok a ↦ (ok (session, ok a), s')
        | err e ↦
            if is_access_denied e
            then (if is_staged t session s'
                then (err (staged_error r e), s')
                else again wanted r session s')
            else (ok (session, err e), s')
      ]

  -- The end of `Call`: the error with its context, or the note of what was staged.
  unfoldable pub settle : Request → Str × Result Error Data → Ubus t Data
  settle r (session, err e) s = (err (call_error r e), s)
  settle r (session, ok d) s =
      (ok d, if r.object == codes "uci" then track t session r.method s else s)

  unfoldable pub call : Bool → Request → Ubus t Data
  call wanted r = do session ← login; outcome ← attempt wanted r session; settle r outcome

  abbrev pub ubus_client : Client (ClientState t)
  ubus_client = record { call = call; reset = reset t }
