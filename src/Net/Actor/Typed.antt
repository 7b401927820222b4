-- ===== src/Net/Actor/Typed.antt =====
-- net/typewrap.go and the methods of net/request.go that register typed functions. What Go's reflection and
-- mapstructure do with the types and values of Go is the parameter `Reflection`, over a type `V` of values; a
-- typed function acts on the world and returns its first result, or the error that is its second.
pub mod Laws
pub mod Refused
mod Tests
use Prim.Native.String
use jsoff.Base.{
  ℕ, suc, ◌+◌, String, Bool, true, false, ◌&&◌, ◌==◌, ltb, length, drop, itoa, Option, none, some,
  List, [], ◌∷◌, ◌++◌, ◌⊎◌, inl, inr, if◌then◌else◌,
}
use jsoff.Value.{Any}
use jsoff.Result.{GoError, Result, ok, err, panic, an_error, foreign, rpc, params_error, ◌>>=◌}
use jsoff.Schema.{Schema}
use jsoff.Net.Actor.{RpcRequest, Reply, RequestCallback, Actor, on_request, or_panic}

pub data GoType : Type 0 where
  struct : String → GoType
  ptr : GoType → GoType
  interface : String → GoType
  other_type : String → GoType

-- `typeIsStruct`
unfoldable pub type_is_struct : GoType → Bool
type_is_struct (struct name) = true
type_is_struct (ptr t) = type_is_struct t
type_is_struct (interface name) = false
type_is_struct (other_type name) = false

unfoldable pub type_string : GoType → String
type_string (struct name) = name
type_string (ptr t) = String.◌++◌ "*" (type_string t)
type_string (interface name) = name
type_string (other_type name) = name

abbrev pub is_ptr : GoType → Bool
is_ptr (ptr t) = true
is_ptr _ = false

abbrev pub is_interface : GoType → Bool
is_interface (interface name) = true
is_interface _ = false

-- What a value is decoded into: an empty map, or the zero value of a type.
pub data Target : Type 0 where
  empty_map : Target
  zero : GoType → Target

-- `decode` returns the text of an error, or a value.
pub record Reflection (V : Type 0) : Type 0 where
  pub implements_context : GoType → Bool
  pub implements_error : GoType → Bool
  pub request_value : RpcRequest → V
  pub context_value : RpcRequest → V
  pub decode : Target → Any → String ⊎ V
  pub encode : Target → V → Result Reply

-- A value that is given for a typed function: one with the types of its arguments and results, or another.
pub data TypedFunc (W V : Type 0) : Type 0 where
  func : (ins outs : List GoType) → (List V → W → Result V × W) → TypedFunc W V
  no_func : TypedFunc W V

-- ReqSpec, ContextSpec
pub data FirstArgSpec : Type 0 where
  req_spec : FirstArgSpec
  context_spec : FirstArgSpec

abbrev pub spec_string : FirstArgSpec → String
spec_string req_spec = "*jsoffnet.RPCRequest"
spec_string context_spec = "context.Context"

abbrev pub first_arg_num : Option FirstArgSpec → ℕ
first_arg_num none = 0
first_arg_num (some spec) = 1

abbrev pub position_text : ℕ → String → String
position_text i text = String.◌++◌ "params " (String.◌++◌ (itoa i) (String.◌++◌ " " text))

module _ {V : Type 0} (lib : Reflection V) where
  unfoldable pub check_spec : FirstArgSpec → GoType → Bool
  check_spec req_spec t = is_ptr t && (type_string t == "*jsoffnet.RPCRequest")
  check_spec context_spec t = is_interface t && lib.implements_context t

  abbrev pub spec_value : FirstArgSpec → RpcRequest → V
  spec_value req_spec req = lib.request_value req
  spec_value context_spec req = lib.context_value req

  -- The arguments that do not come from the params.
  abbrev pub first_args : Option FirstArgSpec → RpcRequest → List V
  first_args none req = []
  first_args (some spec) req = spec_value spec req ∷ []

  -- `interfaceToValue`
  abbrev pub interface_to_value : Any → GoType → String ⊎ V
  interface_to_value a t = lib.decode (zero t) a

  -- `valueToInterface`
  abbrev pub value_to_interface : GoType → V → Result Reply
  value_to_interface t v = lib.encode (if type_is_struct t then empty_map else zero t) v

  abbrev pub check_first : Option FirstArgSpec → List GoType → Result {0} Unit
  check_first none ins = ok tt
  check_first (some spec) [] = err (foreign "func must have 1 more arguments")
  check_first (some spec) (t ∷ ts) =
      if check_spec spec t
      then ok tt
      else err (foreign (String.◌++◌ "the first arg must be " (spec_string spec)))

  -- The type of the first result.
  abbrev pub check_outs : List GoType → Result GoType
  check_outs (t ∷ e ∷ []) =
      if lib.implements_error e
      then ok t
      else err (foreign "second output does not implement error")
  check_outs _ = err (foreign "func return number must be 2")

  -- The loop over the arguments, of which the number of the next one is given.
  unfoldable pub convert_params : ℕ → List GoType → List Any → Result (List V)
  convert_params i [] params = ok []
  convert_params i (t ∷ ts) [] = panic (an_error (foreign "index out of range"))
  convert_params i (t ∷ ts) (p ∷ ps) = elim (interface_to_value p t) [
    | inl text ↦ err (rpc (params_error (position_text (suc i) text)))
    | inr v ↦ do vs ← convert_params (suc i) ts ps; ok (v ∷ vs)
  ]

  abbrev pub typed_result : GoType → Result V → Result Reply
  typed_result t (ok v) = value_to_interface t v
  typed_result t (err e) = err e
  typed_result t (panic r) = panic r

  module _ {W : Type 0} where
    abbrev pub apply_func :
        (List V → W → Result V × W) → GoType → List V → Result (List V) → W → Result Reply × W
    apply_func call t first (ok vs) w =
        let (res, w') = call (first ++ vs) w in (typed_result t res, w')
    apply_func call t first (err e) w = (err e, w)
    apply_func call t first (panic r) w = (panic r, w)

    -- The callback that `wrapTyped` returns.
    unfoldable pub typed_handler :
        List GoType → GoType → (List V → W → Result V × W) → Option FirstArgSpec → RequestCallback W
    typed_handler ins out call spec req params w =
        if ltb (length params + first_arg_num spec) (length ins)
        then (err (rpc (params_error "no enough params size")), w)
        else apply_func call out (first_args spec req)
            (convert_params (first_arg_num spec) (drop (first_arg_num spec) ins) params) w

    -- `wrapTyped`
    unfoldable pub wrap_typed : TypedFunc W V → Option FirstArgSpec → Result (RequestCallback W)
    wrap_typed no_func spec = err (foreign "tfunc is not func type")
    wrap_typed (func ins outs call) spec = do
      _ ← check_first spec ins
      out ← check_outs outs
      ok (typed_handler ins out call spec)

    unfoldable pub on_typed_with :
        Option FirstArgSpec → Actor W → String → TypedFunc W V → Option Schema → Result (Actor W)
    on_typed_with spec a method tfunc schema = do
      handler ← wrap_typed tfunc spec
      on_request a method handler schema

    -- `OnTyped` panics with an error, `OnTypedRequest` and `OnTypedContext` return it.
    unfoldable pub on_typed : Actor W → String → TypedFunc W V → Option Schema → Result (Actor W)
    on_typed a method tfunc schema = or_panic (on_typed_with none a method tfunc schema)

    unfoldable pub on_typed_request :
        Actor W → String → TypedFunc W V → Option Schema → Result (Actor W)
    on_typed_request = on_typed_with (some req_spec)

    unfoldable pub on_typed_context :
        Actor W → String → TypedFunc W V → Option Schema → Result (Actor W)
    on_typed_context = on_typed_with (some context_spec)
