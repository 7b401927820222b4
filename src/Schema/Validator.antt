-- ===== src/Schema/Validator.antt =====
-- schema/validator.go: the validator's stack of path segments and the errors that copy it. A method
-- that may panic takes the validator and returns its result with the new validator, or `panic`.
pub mod Laws
use jsoff.Base.{
  String, Option, none, some, List, [], ◌∷◌, ◌++◌, ◌==◌, last?, drop_last, if◌then◌else◌,
}
use jsoff.Value.{Any}

-- The fields `hint` and `errorPath` of the source are never read or written.
pub record SchemaValidator : Type 0 where
  pub paths : List String
  pub hint : String
  pub error_path : String

pub record ErrorPos : Type 0 where
  pub paths : List String
  pub hint : String

pub data Outcome (A : Type 0) : Type 0 where
  done : A → SchemaValidator → Outcome A
  panic : Outcome A

abbrev pub Run : Type 0 → Type 0
Run A = SchemaValidator → Outcome A

abbrev pub pure : {A : Type 0} → A → Run A
pure a v = done a v

infixl 5 ◌>>=◌ ◌>>◌
abbrev pub ◌>>=◌ : {A B : Type 0} → Run A → (A → Run B) → Run B
◌>>=◌ m f v = elim (m v) [ done a v' ↦ f a v' | panic ↦ panic ]

abbrev pub ◌>>◌ : {B : Type 0} → Run (Unit {0}) → Run B → Run B
m >> k = m >>= λ _. k

-- A nil *ErrorPos is `none`.
abbrev pub Verdict : Type 0
Verdict = Option ErrorPos

abbrev pub new_schema_validator : SchemaValidator
new_schema_validator = record { paths = []; hint = ""; error_path = "" }

unfoldable pub new_error_pos : String → Run Verdict
new_error_pos hint v = done (some (record { paths = v.paths; hint = hint })) v

unfoldable pub push_path : String → Run (Unit {0})
push_path path v =
    if path == "" then done tt v else done tt (record v { paths = v.paths ++ path ∷ [] })

-- With an empty stack the source panics while it formats the panic's text.
unfoldable pub pop_path : String → Run (Unit {0})
pop_path path v = if path == "" then done tt v else elim (last? v.paths) [
  | none ↦ panic
  | some top ↦ if top == path then done tt (record v { paths = drop_last v.paths }) else panic
]

-- The method `Scan` of the validator; its argument is the method `Scan` of a schema.
unfoldable pub validator_scan : (Any → Run Verdict) → String → Any → Run Verdict
validator_scan scan path data' = do
  push_path path
  verdict ← scan data'
  pop_path path
  pure verdict

-- The early return of a loop: the first error ends it.
abbrev pub or_next : Verdict → Run Verdict → Run Verdict
or_next none next = next
or_next (some e) next = pure (some e)
