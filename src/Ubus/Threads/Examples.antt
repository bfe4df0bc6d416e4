-- ===== src/Ubus/Threads/Examples.antt =====
-- Tests of goroutines that share a client, and the theorems about them at concrete inputs.
use external_dns_openwrt_nex.Ubus.Threads.Logins.{fresh_client, run-AreNeeded, quiet, calls, Starts}
use external_dns_openwrt_nex.Prelude.{
  ℕ, ◌+◌, true, false, List, [], ◌∷◌, map, none, some, ◌≡◌, refl, subst, arith, inl, inr, ltb, eqb,
  if◌then◌else◌, Bool-cases,
}
use external_dns_openwrt_nex.Ubus.Threads.Log.{Exchange, logged, AreNeeded}
use external_dns_openwrt_nex.Ubus.Session.{
  track, forget, login_session, is_staged, send, login, settle,
}
use external_dns_openwrt_nex.Ubus.Threads.{
  settling, idle, thread_step, calling, checking, step, Pc, System, run,
}
use external_dns_openwrt_nex.Ubus.Threads.Staged.{run-Keeps, IsHarmless, staged_dropped, Keeps}
use external_dns_openwrt_nex.Ubus.Errors.{rpc, is_access_denied, pos, code_access_denied}
use external_dns_openwrt_nex.Ubus.Threads.Renewal.{HasFreshSessions}
use external_dns_openwrt_nex.Exec.{ok}
use external_dns_openwrt_nex.Ubus.Wire.{
  object, read_reply, number, no_data, answered, Request, Transport,
}
use external_dns_openwrt_nex.Strings.{codes, ◌==◌}
use external_dns_openwrt_nex.Ubus.Examples.{answering, root, add_call, fresh}

abbrev get_call : Request
get_call = record { object = codes "uci"; method = codes "get"; args = [] }

-- A goroutine that was refused in a session, beside one whose call has staged something in it.
abbrev race : System answering root
race = record {
  client = record fresh { session = codes "s1" };
  threads = λ i.
      if eqb i 0
      then checking true get_call (codes "s1") (rpc code_access_denied [])
      else settling add_call (codes "s1") (ok no_data);
}

abbrev after_add : System answering root
after_add = record race { client = record race.client { staged = true } }

race-IsHarmless : (j : ℕ) → IsHarmless (codes "s1") (after_add.threads j)
unfolding ◌==◌
race-IsHarmless j = elim (Bool-cases (eqb j 0)) [
  | inl first ↦ rw first refl
  | inr other ↦ rw other refl
]

run-Keeps_example :
    Keeps answering root after_add.client (run answering root (0 ∷ 1 ∷ 0 ∷ []) after_add).client
run-Keeps_example =
    run-Keeps answering root (0 ∷ 1 ∷ 0 ∷ []) after_add refl (λ e. cc) race-IsHarmless

staged_dropped_example : (run answering root (0 ∷ 1 ∷ 0 ∷ []) race).client.session ≡ []
unfolding ◌==◌
staged_dropped_example =
    (staged_dropped answering root 0 1 race true get_call add_call (codes "s1")
      (rpc code_access_denied []) no_data (λ e. absurd (omega arith)) refl refl refl refl refl).1

-- A router that refuses the first call after a login, and hands out a session of its own each time.
abbrev expiring : Transport
expiring = record {
  Net = ℕ;
  exchange = λ session r n.
      if session == login_session
      then (
        answered 200 (
            ok (record {
              size = 100;
              response = some (record {
                result =
                    number (pos 0)
                    ∷ object (record { session = b's' ∷ n ∷ []; section = []; values = [] })
                    ∷ [];
                error = none;
              });
            })),
        n + 1,
      )
      else if eqb n 1
      then (
        answered 200 (
            ok (record {
              size = 100;
              response = some (record {
                result = [];
                error = some (code_access_denied, codes "Access denied");
              });
            })),
        n + 1,
      )
      else (
        answered 200 (
            ok (record {
              size = 100;
              response = some (record { result = number (pos 0) ∷ []; error = none });
            })),
        n + 1,
      );
}

expiring-HasFreshSessions : HasFreshSessions expiring
unfolding read_reply ◌==◌
expiring-HasFreshSessions r n d e =
    let same : b's' ∷ n ∷ [] ≡ d.session = cc e in
    subst (λ x. (x == login_session) ≡ false) same refl

-- Two goroutines read; the first is refused and logs in again, the second goes on in the new session.
abbrev two_readers : ℕ → Pc
two_readers i = if ltb i 2 then calling true get_call else idle

two_readers-Starts : (i : ℕ) → Starts expiring root (two_readers i)
two_readers-Starts i = elim (Bool-cases (ltb i 2)) [
  | inl reader ↦ rw reader (calls true get_call)
  | inr other ↦ rw other quiet
]

abbrev turns : List ℕ
turns = 0 ∷ 1 ∷ 0 ∷ 0 ∷ 0 ∷ 0 ∷ 1 ∷ 0 ∷ 1 ∷ 0 ∷ []

run-AreNeeded_example :
    AreNeeded
      (run
        (logged expiring)
        root
        turns
        (record { client = fresh_client expiring root 0; threads = two_readers })).client.net.log
run-AreNeeded_example =
    run-AreNeeded expiring root turns two_readers 0 expiring-HasFreshSessions two_readers-Starts

-- Two logins were made in this run.
two_logins :
    map
      (λ (x : Exchange). x.session == login_session)
      (run
        (logged expiring)
        root
        turns
        (record { client = fresh_client expiring root 0; threads = two_readers })).client.net.log
    ≡ false ∷ false ∷ true ∷ false ∷ true ∷ []
unfolding run step thread_step login send settle forget is_staged read_reply is_access_denied track
    ◌==◌
two_logins = refl
