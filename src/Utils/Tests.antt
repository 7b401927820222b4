-- ===== src/Utils/Tests.antt =====
-- Arguments: a word, a number, a list, and one that is no JSON text.
use jsoff.Base.{
  ℕ, ℤ, Bool-cases, inl, inr, ap, sym, String, ◌==◌, Option, none, List, [], ◌∷◌, ◌++◌, ◌≡◌, ◌⊎◌,
  refl, pos, if◌then◌else◌, arith,
}
use jsoff.Value.{nil, Any, str, list, to_items}
use jsoff.Value.Number.{parse_int64}
use jsoff.Result.{GoError, Result, ok, err, foreign}
use jsoff.Utils.{Guess, int64, value, guess_json, guess_json_array, guess_by_first}
use jsoff.Utils.Params.{
  Field, exported_field, unexported, pointer_to_struct, fill_fields, decode_params, exported, Fills,
  decode_params-Fills,
}
use jsoff.Utils.Laws.{Pointwise, IsMarked, NoPanic, guess_json_array_lem}

abbrev read : String → Result Any
read text = if text == "[]" then ok (list (to_items [])) else err (foreign "unexpected EOF")

abbrev no_file : String → Result Any
no_file path = err (foreign "no such file")

abbrev no_float : String → Option ℕ
no_float text = none

read-NoPanic : NoPanic read
read-NoPanic text r h = ground arith

no_file-NoPanic : NoPanic no_file
no_file-NoPanic text r h = cc

abbrev arguments : List String
arguments = "hello" ∷ "7" ∷ "[]" ∷ "true" ∷ "{" ∷ []

guesses_three :
    guess_json_array read no_file no_float ("hello" ∷ "7" ∷ "[]" ∷ [])
    ≡ ok (value (str "hello") ∷ int64 (pos 7) ∷ value (list (to_items [])) ∷ [])
unfolding guess_json_array guess_json guess_by_first parse_int64
guesses_three = refl

opens_no_file : guess_json read no_file no_float "@x" ≡ err (foreign "no such file")
unfolding guess_json guess_by_first parse_int64
opens_no_file = refl

guess_json_array_lem_example :
    ((vs : List Guess) × (guess_json_array read no_file no_float arguments ≡ ok vs)
      × Pointwise read no_file no_float arguments vs)
    ⊎ ((before after : List String) × (input : String) × (e : GoError) × (vs : List Guess)
        × (arguments ≡ before ++ input ∷ after)
        × Pointwise read no_file no_float before vs
        × (guess_json read no_file no_float input ≡ err e)
        × IsMarked input
        × (guess_json_array read no_file no_float arguments ≡ err e))
guess_json_array_lem_example =
    guess_json_array_lem read no_file no_float read-NoPanic no_file-NoPanic arguments

-- A struct with an embedded struct: the promoted field Name is a part of the field Base, which the params set
-- first, and so is the field that is not exported.
record Base : Type 0 where
  name : String
  cache : ℤ

abbrev set_base : String → Any → Base → Result Base
set_base field (str s) b =
    if field == "Base"
    then ok (record b { name = "" })
    else if field == "Name"
    then ok (record b { name = s })
    else err (foreign "mapstruct.Decode")
set_base field _ b = err (foreign "mapstruct.Decode")

set_base-cache :
    (field : String) (p : Any) (b d : Base) → set_base field p b ≡ ok d → d.cache ≡ b.cache
set_base-cache field (str s) b d e = elim (Bool-cases (field == "Base")) [
  | inl h ↦ ap (λ r. cache_of b r) (sym (rw h at e))
  | inr h ↦ elim (Bool-cases (field == "Name")) [
    | inl h' ↦ ap (λ r. cache_of b r) (sym (rw (h, h') at e))
    | inr h' ↦ cc (rw (h, h') at e)
  ]
]
  where
    cache_of : Base → Result Base → ℤ
    cache_of b (ok d) = d.cache
    cache_of b _ = b.cache
set_base-cache field _ b d e = cc

abbrev visible : List Field
visible = exported_field "Base" ∷ exported_field "Name" ∷ unexported "cache" ∷ []

abbrev before : Base
before = record { name = "old"; cache = pos 5 }

fills_promoted :
    decode_params set_base (str "b" ∷ str "new" ∷ nil ∷ []) (pointer_to_struct visible before)
    ≡ (ok tt, pointer_to_struct visible (record before { name = "new" }))
unfolding decode_params fill_fields
fills_promoted = refl

decode_params-Fills_example :
    (r : Result {0} Unit) × (t : Base) × (decode_params set_base
        (str "b" ∷ nil ∷ [])
        (pointer_to_struct visible before)
      ≡ (r, pointer_to_struct visible t))
    × Fills set_base (exported visible) (str "b" ∷ nil ∷ []) before r t
    × (t.cache ≡ before.cache)
decode_params-Fills_example =
    decode_params-Fills set_base (λ b. b.cache) set_base-cache visible (str "b" ∷ nil ∷ []) before
