-- ===== src/Webhook/Http.antt =====
-- pkg/webhook/webhook.go: requests, answers, and what is asked of a request's headers and body.
use external_dns_openwrt_nex.Prelude.{
  ℕ, not, List, [], ◌++◌, Option, none, some, if◌then◌else◌, is_empty,
}
use external_dns_openwrt_nex.Strings.{Str, codes, ◌==◌}
use external_dns_openwrt_nex.Exec.{Result}
use external_dns_openwrt_nex.Provider.Endpoints.{Pointers, Changes}

abbrev pub header_content_type : Str
header_content_type = codes "Content-Type"

abbrev pub header_accept : Str
header_accept = codes "Accept"

abbrev pub content_type_plaintext : Str
content_type_plaintext = codes "text/plain"

abbrev pub media_type : Str
media_type = codes "application/external.dns.webhook+json;version=1"

-- 32 << 20
abbrev pub default_max_body_bytes : ℕ
default_max_body_bytes = 33554432

-- `too_large`: the decoder read past the cap and got a MaxBytesError.
pub data DecodeError : Type 0 where
  too_large malformed : DecodeError

-- encoding/json, reading a body through a reader that stops at a number of bytes.
pub record Json (B : Type 0) : Type 0 where
  pub decode_changes : ℕ → B → Result DecodeError Changes
  pub decode_endpoints : ℕ → B → Result DecodeError Pointers

-- `header` is `Header.Get`, empty for a header that is not there.
pub record HttpRequest (B : Type 0) : Type 0 where
  pub header : Str → Str
  pub body : B

pub record DomainFilter : Type 0 where
  pub include : List Str
  pub exclude : List Str

pub data Payload : Type 0 where
  empty_body : Payload
  message : Str → Payload
  json_filter : DomainFilter → Payload
  json_endpoints : Pointers → Payload

-- What a handler writes: the status, the Content-Type header and the body.
pub record Response : Type 0 where
  pub status : ℕ
  pub content_type : Str
  pub payload : Payload

abbrev pub rejection : ℕ → Str → Response
rejection status text = record {
  status = status;
  content_type = content_type_plaintext;
  payload = message text;
}

abbrev pub json_answer : Payload → Response
json_answer payload = record { status = 200; content_type = media_type; payload = payload }

-- `http.StatusNoContent`, without a header or a body.
abbrev pub no_content : Response
no_content = record { status = 204; content_type = []; payload = empty_body }

-- The answer of `requireMediaType` when it is not content.
unfoldable pub require_media_type : {B : Type 0} → HttpRequest B → Str → Option Response
require_media_type req header =
    let value = req.header header in
    if is_empty value
    then some (rejection 406 (codes "client must provide a " ++ header ++ codes " header"))
    else if not (value == media_type)
    then some (rejection 415 (codes "client must provide a valid versioned media type"))
    else none

abbrev pub decode_rejection : DecodeError → Response
decode_rejection too_large = rejection 413 (codes "request body too large")
decode_rejection malformed = rejection 400 (codes "error decoding request body")
