-- ===== src/Ubus/Errors.antt =====
-- pkg/ubus/ubus.go: the errors of a call, and what `errors.Is` and `errors.As` find in them.
use external_dns_openwrt_nex.Prelude.{
  ℕ, zero, suc, Bool, false, List, [], ◌∷◌, ◌++◌, Option, none, some, eqb,
}
use external_dns_openwrt_nex.Strings.{Str, codes}
use external_dns_openwrt_nex.Strings.Decimal.{itoa}

-- `negsuc n` is -(n + 1).
pub data ℤ : Type 0 where
  pos : ℕ → ℤ
  negsuc : ℕ → ℤ

abbrev pub eqb_ℤ : ℤ → ℤ → Bool
eqb_ℤ (pos a) (pos b) = eqb a b
eqb_ℤ (negsuc a) (negsuc b) = eqb a b
eqb_ℤ _ _ = false

-- `status`: a `Status`; `rpc`: an `rpcError`; `plain`: an error of another package, or of
-- `errors.New` or `fmt.Errorf` with no error in it; `wrap`: a `fmt.Errorf` with `%w`.
pub data Error : Type 0 where
  status : ℤ → Error
  rpc : ℤ → Str → Error
  plain : Str → Error
  wrap : Str → Error → Error

abbrev pub err_no_data : ℤ
err_no_data = pos 5

-- -32002
abbrev pub code_access_denied : ℤ
code_access_denied = negsuc 32001

-- `errors.Is(err, code)` for a `Status`.
unfoldable pub is_status : ℤ → Error → Bool
is_status code (status s) = eqb_ℤ s code
is_status code (rpc c m) = false
is_status code (plain m) = false
is_status code (wrap m e) = is_status code e

-- `errors.As(err, &rerr) && rerr.Code == codeAccessDenied`.
unfoldable pub is_access_denied : Error → Bool
is_access_denied (status s) = false
is_access_denied (rpc c m) = eqb_ℤ c code_access_denied
is_access_denied (plain m) = false
is_access_denied (wrap m e) = is_access_denied e

abbrev status_names : List Str
status_names =
    codes "UBUS_STATUS_OK"
    ∷ codes "UBUS_STATUS_INVALID_COMMAND"
    ∷ codes "UBUS_STATUS_INVALID_ARGUMENT"
    ∷ codes "UBUS_STATUS_METHOD_NOT_FOUND"
    ∷ codes "UBUS_STATUS_NOT_FOUND"
    ∷ codes "UBUS_STATUS_NO_DATA"
    ∷ codes "UBUS_STATUS_PERMISSION_DENIED"
    ∷ codes "UBUS_STATUS_TIMEOUT"
    ∷ codes "UBUS_STATUS_NOT_SUPPORTED"
    ∷ codes "UBUS_STATUS_UNKNOWN_ERROR"
    ∷ codes "UBUS_STATUS_CONNECTION_FAILED"
    ∷ codes "UBUS_STATUS_NO_MEMORY"
    ∷ codes "UBUS_STATUS_PARSE_ERROR"
    ∷ codes "UBUS_STATUS_SYSTEM_ERROR"
    ∷ []

-- `%d` of an `int`.
unfoldable pub int_text : ℤ → Str
int_text (pos n) = itoa n
int_text (negsuc n) = b'-' ∷ itoa (suc n)

name_at : List Str → ℕ → Option Str
name_at [] i = none
name_at (name ∷ names) zero = some name
name_at (name ∷ names) (suc i) = name_at names i

abbrev name_of_status : ℤ → Option Str
name_of_status (pos n) = name_at status_names n
name_of_status (negsuc n) = none

unfoldable pub status_text : ℤ → Str
unfolding name_at int_text
status_text s = elim (name_of_status s) [
  | some name ↦ name
  | none ↦ codes "ubus status " ++ int_text s
]

-- `err.Error()`.
unfoldable pub error_text : Error → Str
unfolding status_text int_text
error_text (status s) = status_text s
error_text (rpc code message) = codes "json-rpc error " ++ int_text code ++ codes ": " ++ message
error_text (plain message) = message
error_text (wrap context e) = context ++ codes ": " ++ error_text e
