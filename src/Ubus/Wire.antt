-- ===== src/Ubus/Wire.antt =====
-- pkg/ubus/ubus.go: one exchange with the router, `call`, and the interface `Client`.
use external_dns_openwrt_nex.Prelude.{
  ℕ, Bool, true, false, not, List, [], ◌∷◌, ◌++◌, Option, none, some, ltb, leb, if◌then◌else◌, ◌*◌,
  ◌^◌,
}
use external_dns_openwrt_nex.Strings.{Str, codes}
use external_dns_openwrt_nex.Strings.Decimal.{itoa}
use external_dns_openwrt_nex.GoMap.{GoMap}
use external_dns_openwrt_nex.Exec.{Result, ok, err, Exec}
use external_dns_openwrt_nex.Ubus.Errors.{ℤ, pos, eqb_ℤ, Error, status, rpc, plain}

-- The value of an argument: a text, a flag, or the options of a section.
pub data Arg : Type 0 where
  text : Str → Arg
  flag : Bool → Arg
  options : GoMap Str Str → Arg

pub record Request : Type 0 where
  pub object : Str
  pub method : Str
  pub args : GoMap Str Arg

-- The value of a UCI option: a text, or a list.
pub data OptionValue : Type 0 where
  single : Str → OptionValue
  list : List Str → OptionValue

-- The data of a result, in which the callers look for one field each. A field that the router did
-- not send is empty.
pub record Data : Type 0 where
  pub session : Str
  pub section : Str
  pub values : GoMap Str (GoMap Str OptionValue)

abbrev pub no_data : Data
no_data = record { session = []; section = []; values = [] }

-- A `json.RawMessage`, by what it decodes into.
pub data RawMessage : Type 0 where
  number : ℤ → RawMessage
  object : Data → RawMessage
  null other : RawMessage

-- `response`
pub record Response : Type 0 where
  pub result : List RawMessage
  pub error : Option (ℤ × Str)

-- A read body: how long it is, and what it decodes into, if it decodes.
pub record Body : Type 0 where
  pub size : ℕ
  pub response : Option Response

-- What `httpClient.Do` and the reading of the body come to.
pub data HttpReply : Type 0 where
  no_reply : Error → HttpReply
  answered : ℕ → Result Error Body → HttpReply

abbrev pub max_response_size : ℕ
max_response_size = 4 * 2 ^ 20

unmarshal_status : RawMessage → Result Error ℤ
unmarshal_status (number n) = ok n
unmarshal_status null = ok (pos 0)
unmarshal_status _ = err (plain (codes "decode status"))

-- `wanted`: the caller passed a result to decode into.
unmarshal_result : Bool → List RawMessage → Result Error Data
unmarshal_result false _ = ok no_data
unmarshal_result true [] = ok no_data
unmarshal_result true (object d ∷ _) = ok d
unmarshal_result true (null ∷ _) = ok no_data
unmarshal_result true (_ ∷ _) = err (plain (codes "decode result"))

read_result : Bool → List RawMessage → Result Error Data
unfolding unmarshal_status unmarshal_result
read_result wanted [] = err (plain (codes "response holds neither a result nor an error"))
read_result wanted (first ∷ rest) = elim (unmarshal_status first) [
  | err e ↦ err e
  | ok s ↦ if not (eqb_ℤ s (pos 0)) then err (status s) else unmarshal_result wanted rest
]

read_response : Bool → Response → Result Error Data
unfolding read_result
read_response wanted r = elim r.error [
  | some (code, message) ↦ err (rpc code message)
  | none ↦ read_result wanted r.result
]

-- What `call` makes of a reply.
unfoldable pub read_reply : Bool → HttpReply → Result Error Data
unfolding read_response
read_reply wanted (no_reply e) = err e
read_reply wanted (answered code body) =
    if leb 400 code then err (plain (codes "http status code: " ++ itoa code)) else elim body [
      | err e ↦ err e
      | ok b ↦
          if ltb max_response_size b.size
          then err (plain (codes "response larger than 4194304 bytes"))
          else elim b.response [
            | none ↦ err (plain (codes "decode response"))
            | some r ↦ read_response wanted r
          ]
    ]

-- The network and the router behind it: a request in a session, and the reply.
pub record Transport : Type 1 where
  pub Net : Type 0
  pub exchange : Str → Request → Net → HttpReply × Net

-- The interface `Client`, over the state that its calls change.
pub record Client (S : Type 0) : Type 0 where
  pub call : Bool → Request → Exec S Error Data
  pub reset : S → S
