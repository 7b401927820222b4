-- ===== src/Schema/Validator/Laws.antt =====
-- What the stack operations of the validator amount to, for a scan that gives the stack back.
use jsoff.Base.{
  String, ◌≡◌, List, [], ◌∷◌, ◌++◌, ◌==◌, eq_refl, arith, last?-concat, drop_last-concat,
  if◌then◌else◌,
}
use jsoff.Value.{Any}
use jsoff.Schema.Validator.{
  SchemaValidator, done, Run, Verdict, push_path, pop_path, validator_scan, ◌>>=◌,
}

-- The stack below a segment: an empty segment is not pushed.
abbrev pub below : List String → String → List String
below at path = if path == "" then at else at ++ path ∷ []

-- A scan that answers by the stack alone and leaves the validator as it was.
abbrev pub Reads : Run Verdict → (List String → Verdict) → Type 0
Reads run answer = (v : SchemaValidator) → run v ≡ done (answer v.paths) v

module _ (path : String) (v : SchemaValidator) where
  push_path_lem : push_path path v ≡ done tt (record v { paths = below v.paths path })
  unfolding push_path
  push_path_lem = ground arith

  pop_path_lem : pop_path path (record v { paths = below v.paths path }) ≡ done tt v
  unfolding pop_path
  pop_path_lem =
      ground (arith, last?-concat v.paths path, eq_refl path, drop_last-concat v.paths path)

-- Pushing a segment, scanning and popping it again is scanning with the segment on the stack.
pub validator_scan-Reads :
    (scan : Any → Run Verdict) (path : String) (data' : Any) (answer : List String → Verdict)
    → Reads (scan data') answer
    → Reads (validator_scan scan path data') (λ at. answer (below at path))
unfolding validator_scan
validator_scan-Reads scan path data' answer h v =
    rw (push_path_lem path v, ◌>>=◌)
      (rw (h (record v { paths = below v.paths path }), ◌>>=◌) (rw (pop_path_lem path v, ◌>>=◌)))
