-- ===== src/Ubus/Examples.antt =====
-- Tests of pkg/ubus, and its theorems at concrete inputs.
use external_dns_openwrt_nex.Ubus.Errors.{
  negsuc, status_text, Error, is_access_denied, pos, code_access_denied,
}
use external_dns_openwrt_nex.Strings.Decimal.{itoa}
use external_dns_openwrt_nex.Prelude.{true, false, [], ◌∷◌, none, some, ◌≡◌, refl}
use external_dns_openwrt_nex.Ubus.Session.{
  is_staged, send, login, settle, Auth, ClientState, attempt, call,
}
use external_dns_openwrt_nex.Exec.{err, ok}
use external_dns_openwrt_nex.Ubus.Wire.{
  object, read_reply, number, no_data, answered, Request, Transport,
}
use external_dns_openwrt_nex.Ubus.Session.Keeps.{call-staged}
use external_dns_openwrt_nex.Strings.{codes, ◌==◌}

-- A router that knows the session "s1" once it has handed it out.
abbrev pub answering : Transport
answering = record {
  Net = Unit {0};
  exchange = λ session r net. (
    answered 200 (
        ok (record {
          size = 100;
          response = some (record {
            result =
                number (pos 0)
                ∷ object (record { session = codes "s1"; section = []; values = [] })
                ∷ [];
            error = none;
          });
        })),
    net,
  );
}

abbrev refusing : Transport
refusing = record {
  Net = Unit {0};
  exchange = λ session r net. (
    answered 200 (
        ok (record {
          size = 100;
          response =
              some
                (record { result = []; error = some (code_access_denied, codes "Access denied") });
        })),
    net,
  );
}

abbrev pub root : Auth
root = record { username = codes "root"; password = codes "secret" }

abbrev pub add_call : Request
add_call = record { object = codes "uci"; method = codes "add"; args = [] }

abbrev pub fresh : ClientState answering
fresh = record { session = []; staged = false; net = tt }

abbrev half_done : ClientState refusing
half_done = record { session = codes "s1"; staged = true; net = tt }

call_succeeds : (call answering root false add_call fresh).0 ≡ ok no_data
unfolding call attempt settle login send read_reply is_access_denied
call_succeeds = refl

call-staged_example : (call answering root false add_call fresh).1.staged ≡ true
unfolding ◌==◌
call-staged_example = call-staged answering root false add_call fresh no_data call_succeeds

call_refused :
    (e : Error) × ((call refusing root false add_call half_done).0 ≡ err e)
    × ((call refusing root false add_call half_done).1.staged ≡ true)
unfolding call attempt settle login send read_reply is_access_denied is_staged ◌==◌
call_refused = (_, refl, refl)

itoa_test : itoa 65535 ≡ b'6' ∷ b'5' ∷ b'5' ∷ b'3' ∷ b'5' ∷ []
unfolding itoa
itoa_test = refl

-- A name for a known status, and the number of an unknown one.
status_texts :
    (status_text (pos 5) ≡ codes "UBUS_STATUS_NO_DATA")
    × (status_text (pos 13) ≡ codes "UBUS_STATUS_SYSTEM_ERROR")
    × (status_text (pos 14) ≡ codes "ubus status 14")
    × (status_text (negsuc 0) ≡ codes "ubus status -1")
unfolding status_text itoa
status_texts = (refl, refl, refl, refl)
