-- ===== src/Result.antt =====
-- Error values and panics. The errors of the program are the constructors of `GoError`: those of
-- errors.go (`rpc`), parse.go (`decode`), net/errors.go (`simple`, `wrapped`), schema/validator.go
-- (`invalid`) and schema/builder.go (`build`, `non_string_map`), an error that wraps another (`context`), and the
-- errors of other packages (`foreign`). A function that returns `(T, error)` or that may panic
-- returns a `Result T`.
use jsoff.Base.{ℕ, ℤ, pos, negsuc, String, List, Option, none, some, ◌≡◌, refl}
use jsoff.Value.{Any, nil}

-- types.go, `RPCError`
pub record RpcError : Type 0 where
  pub code : ℤ
  pub message : String
  pub data' : Any

-- A response of another HTTP server; its body is passed on.
pub record HttpResponse : Type 0 where
  pub status_code : ℕ
  pub header : List (String × List String)
  pub body : String

pub data GoError : Type 0 where
  rpc : RpcError → GoError
  decode : String → GoError
  invalid : (paths : List String) → (hint : String) → GoError
  build : (info : String) → (paths : List String) → GoError
  simple : (code : ℕ) → (body : String) → GoError
  wrapped : HttpResponse → GoError
  context : String → GoError → GoError
  non_string_map : (paths : List String) → GoError
  foreign : String → GoError

-- What a panic carries: an error, or any other value.
pub data Raised : Type 0 where
  an_error : GoError → Raised
  a_value : Any → Raised

pub data Result {ℓ} (A : Type ℓ) : Type ℓ where
  ok : A → Result A
  err : GoError → Result A
  panic : Raised → Result A

infixl 5 ◌>>=◌
abbrev pub ◌>>=◌ {κ ι} :
    {Value : Type κ} {Next : Type ι} → Result Value → (Value → Result Next) → Result Next
panic raised >>= next = panic raised
err failure >>= next = err failure
ok value >>= next = next value

abbrev pub rpc_error : ℤ → String → RpcError
rpc_error code message = record { code = code; message = message; data' = nil }

-- errors.go
abbrev pub err_server_error : RpcError
err_server_error = rpc_error (pos 100) "server error"

abbrev pub err_method_not_found : RpcError
err_method_not_found = rpc_error (negsuc 32600) "method not found"

abbrev pub err_empty_method : RpcError
err_empty_method = rpc_error (negsuc 32600) "empty method"

abbrev pub err_parse_message : RpcError
err_parse_message = rpc_error (negsuc 32699) "parse error"

abbrev pub err_invalid_request : RpcError
err_invalid_request = rpc_error (negsuc 32599) "invalid request"

abbrev pub err_internal_error : RpcError
err_internal_error = rpc_error (negsuc 32602) "internal error"

abbrev pub err_message_type : RpcError
err_message_type = rpc_error (pos 105) "wrong message type"

abbrev pub err_timeout : RpcError
err_timeout = rpc_error (pos 200) "request timeout"

abbrev pub err_invalid_schema : RpcError
err_invalid_schema = rpc_error (negsuc 32632) "invalid schema"

abbrev pub params_error : String → RpcError
params_error message = rpc_error (negsuc 32601) message

-- errors.As with a target of type *RPCError: the first one along the chain of wrapped errors.
unfoldable pub as_rpc : GoError → Option RpcError
as_rpc (rpc e) = some e
as_rpc (context _ e) = as_rpc e
as_rpc _ = none

-- errors.As with a target of type *WrappedResponse
unfoldable pub as_wrapped : GoError → Option HttpResponse
as_wrapped (wrapped r) = some r
as_wrapped (context _ e) = as_wrapped e
as_wrapped _ = none

-- errors.As with a target of type *SimpleResponse
unfoldable pub as_simple : GoError → Option (ℕ × String)
as_simple (simple code body) = some (code, body)
as_simple (context _ e) = as_simple e
as_simple _ = none

-- What is said of the value that is returned, if one is.
abbrev pub OnOk : {A : Type 0} → (A → Type 0) → Result A → Type 0
OnOk P (ok a) = P a
OnOk P (err e) = Unit
OnOk P (panic r) = Unit

pub >>=-OnOk :
    {A B : Type 0} (P : A → Type 0) (Q : B → Type 0) (r : Result A) (f : A → Result B)
    → OnOk P r
    → ((a : A) → P a → OnOk Q (f a))
    → OnOk Q (r >>= f)
>>=-OnOk P Q (ok a) f h k = k a h
>>=-OnOk P Q (err e) f h k = tt
>>=-OnOk P Q (panic r) f h k = tt

-- The value that was bound.
pub >>=-ok :
    {A B : Type 0} (r : Result A) (f : A → Result B) (b : B)
    → (r >>= f) ≡ ok b
    → (a : A) × (r ≡ ok a) × (f a ≡ ok b)
>>=-ok (ok a) f b h = (a, refl, h)
>>=-ok (err e) f b h = cc
>>=-ok (panic p) f b h = cc
