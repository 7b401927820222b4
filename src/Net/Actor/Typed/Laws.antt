-- ===== src/Net/Actor/Typed/Laws.antt =====
-- What the callback of a typed function does.
use jsoff.Base.{
  ℕ, suc, ◌+◌, String, length, drop, Option, none, some, List, [], ◌∷◌, ◌++◌, ◌⊎◌, inl, inr, ◌≡◌,
  ◌≤◌, ◌<◌, refl, sym, arith,
}
use jsoff.Value.{Any}
use jsoff.Result.{Result, ok, err, rpc, params_error}
use jsoff.Net.Actor.{RpcRequest, Reply, RequestCallback}
use jsoff.Net.Actor.Typed.{
  GoType, Reflection, func, FirstArgSpec, first_arg_num, position_text, first_args,
  interface_to_value, convert_params, typed_result, apply_func, typed_handler, wrap_typed,
}

module _ {V : Type 0} (lib : Reflection V) where
  -- Each type has its param, whose conversion is the value; params that are left over do not matter.
  pub data Converts : List GoType → List Any → List V → Type 0 where
    all_converted : (params : List Any) → Converts [] params []
    converts :
        (t : GoType) (ts : List GoType) (p : Any) (ps : List Any) (v : V) (vs : List V)
        → interface_to_value lib p t ≡ inr v
        → Converts ts ps vs
        → Converts (t ∷ ts) (p ∷ ps) (v ∷ vs)

  -- The param at a position, counted with the first argument, is refused with a text.
  pub data Refuses : ℕ → List GoType → List Any → ℕ → String → Type 0 where
    refuses_here :
        (i : ℕ) (t : GoType) (ts : List GoType) (p : Any) (ps : List Any) (text : String)
        → interface_to_value lib p t ≡ inl text
        → Refuses i (t ∷ ts) (p ∷ ps) (suc i) text
    refuses_later :
        (i : ℕ) (t : GoType) (ts : List GoType) (p : Any) (ps : List Any) (v : V) (j : ℕ)
        (text : String)
        → interface_to_value lib p t ≡ inr v
        → Refuses (suc i) ts ps j text
        → Refuses i (t ∷ ts) (p ∷ ps) j text

  abbrev Converted : ℕ → List GoType → List Any → Result (List V) → Type 0
  Converted i ts ps r =
      ((vs : List V) × (r ≡ ok vs) × Converts ts ps vs)
      ⊎ ((j : ℕ) × (text : String) × (r ≡ err (rpc (params_error (position_text j text))))
          × Refuses i ts ps j text)

  convert_next :
      (i : ℕ) (t : GoType) (ts : List GoType) (p : Any) (ps : List Any) (c : String ⊎ V)
      → interface_to_value lib p t ≡ c
      → Converted (suc i) ts ps (convert_params lib (suc i) ts ps)
      → Converted i (t ∷ ts) (p ∷ ps) (convert_params lib i (t ∷ ts) (p ∷ ps))
  unfolding convert_params
  convert_next i t ts p ps (inl text) e rest =
      inr (suc i, text, rw (convert_params, e) refl, refuses_here i t ts p ps text e)
  convert_next i t ts p ps (inr v) e (inl (vs, same, all)) =
      inl (v ∷ vs, rw (convert_params, e, same) refl, converts t ts p ps v vs e all)
  convert_next i t ts p ps (inr v) e (inr (j, text, same, one)) =
      inr (j, text, rw (convert_params, e, same) refl, refuses_later i t ts p ps v j text e one)

  convert_params-Converted :
      (i : ℕ) (ts : List GoType) (ps : List Any)
      → length ts ≤ length ps
      → Converted i ts ps (convert_params lib i ts ps)
  unfolding convert_params
  convert_params-Converted i [] ps h = inl ([], refl, all_converted ps)
  convert_params-Converted i (t ∷ ts) [] h = absurd (omega (arith, h))
  convert_params-Converted i (t ∷ ts) (p ∷ ps) h =
      convert_next i t ts p ps (interface_to_value lib p t) refl
        (convert_params-Converted (suc i) ts ps (omega (arith, h)))

  few_left :
      (spec : Option FirstArgSpec) (ins : List GoType) (n : ℕ)
      → length ins ≤ n + first_arg_num spec
      → length (drop (first_arg_num spec) ins) ≤ n
  few_left none ins n h = omega (arith, h)
  few_left (some spec) [] n h = omega arith
  few_left (some spec) (t ∷ ts) n h = omega (arith, h)

  module _ {W : Type 0} (call : List V → W → Result V × W) where
    -- The conversion of all params, and one call.
    abbrev pub CallsOnce :
        List GoType
        → GoType
        → Option FirstArgSpec
        → RpcRequest
        → List Any
        → W
        → Result Reply × W
        → Type 0
    CallsOnce ins out spec req params w o =
        (vs : List V) × Converts (drop (first_arg_num spec) ins) params vs
        × (o ≡ (
          typed_result lib out (call (first_args lib spec req ++ vs) w).0,
          (call (first_args lib spec req ++ vs) w).1,
        ))

    abbrev pub RefusesOne :
        List GoType → Option FirstArgSpec → List Any → W → Result Reply × W → Type 0
    RefusesOne ins spec params w o =
        (j : ℕ) × (text : String) × Refuses (first_arg_num spec) (drop (first_arg_num spec) ins)
          params j text
        × (o ≡ (err (rpc (params_error (position_text j text))), w))

    typed_handler-few :
        (ins : List GoType) (out : GoType) (spec : Option FirstArgSpec) (req : RpcRequest)
        (params : List Any) (w : W)
        → length params + first_arg_num spec < length ins
        → typed_handler lib ins out call spec req params w
          ≡ (err (rpc (params_error "no enough params size")), w)
    unfolding typed_handler
    typed_handler-few ins out spec req params w h = ground arith

    typed_handler-enough :
        (ins : List GoType) (out : GoType) (spec : Option FirstArgSpec) (req : RpcRequest)
        (params : List Any) (w : W)
        → length ins ≤ length params + first_arg_num spec
        → typed_handler lib ins out call spec req params w
          ≡ apply_func lib call out
              (first_args lib spec req)
              (convert_params lib (first_arg_num spec) (drop (first_arg_num spec) ins) params)
              w
    unfolding typed_handler
    typed_handler-enough ins out spec req params w h = ground arith

    applied :
        (ins : List GoType) (out : GoType) (spec : Option FirstArgSpec) (req : RpcRequest)
        (params : List Any) (w : W) (r : Result (List V))
        → Converted (first_arg_num spec) (drop (first_arg_num spec) ins) params r
        → CallsOnce ins out spec req params w
            (apply_func lib call out (first_args lib spec req) r w)
          ⊎ RefusesOne ins spec params w (apply_func lib call out (first_args lib spec req) r w)
    applied ins out spec req params w r (inl (vs, same, all)) = inl (vs, all, rw same refl)
    applied ins out spec req params w r (inr (j, text, same, one)) =
        inr (j, text, one, rw same refl)

    wrapped_handler :
        (ins : List GoType) (out e : GoType) (spec : Option FirstArgSpec) (h : RequestCallback W)
        → wrap_typed lib (func ins (out ∷ e ∷ []) call) spec ≡ ok h
        → typed_handler lib ins out call spec ≡ h
    unfolding wrap_typed
    wrapped_handler ins out e spec h wrapped = ground arith

    -- The callback of a typed function refuses too few params; with enough of them it either calls the function
    -- once, with the first argument and the converted params, of which those that are left over are ignored, or
    -- refuses the first param that cannot be converted, by its position. A refusal does not call the function.
    pub wrap_typed-lem :
        (ins : List GoType) (out e : GoType) (spec : Option FirstArgSpec) (h : RequestCallback W)
        → wrap_typed lib (func ins (out ∷ e ∷ []) call) spec ≡ ok h
        → (req : RpcRequest) (params : List Any) (w : W)
        → (length params + first_arg_num spec < length ins
            → h req params w ≡ (err (rpc (params_error "no enough params size")), w))
          × (length ins ≤ length params + first_arg_num spec
              → CallsOnce ins out spec req params w (h req params w)
                ⊎ RefusesOne ins spec params w (h req params w))
    wrap_typed-lem ins out e spec h wrapped req params w =
        rw (sym (wrapped_handler ins out e spec h wrapped)) (
          typed_handler-few ins out spec req params w,
          λ enough. rw (typed_handler-enough ins out spec req params w enough) (
              applied ins out spec req params w _ (
                convert_params-Converted (first_arg_num spec) (drop (first_arg_num spec) ins) params
                  (few_left spec ins (length params) enough))),
        )
