-- ===== src/Net/Auth/Valid.antt =====
-- Which configurations are valid.
use jsoff.Base.{
  String, false, ◌==◌, eq_iff, Option, none, some, List, [], ◌∷◌, ◌≡◌, ◌≢◌, ◌↔◌, inl, inr, refl,
  sym, ◌∙◌, Bool-cases, All,
}
use jsoff.Result.{GoError}
use jsoff.Net.Auth.{
  BasicAuthConfig, BearerAuthConfig, JwtAuthConfig, AuthConfig, validate_bearer, validate_basic,
  validate_jwt, validate_values, first_error,
}

abbrev pub HasToken : BearerAuthConfig → Type 0
HasToken cfg = cfg.token ≢ ""

abbrev pub HasPair : BasicAuthConfig → Type 0
HasPair cfg = (cfg.username ≢ "") × (cfg.password ≢ "")

abbrev pub HasSecret : Option JwtAuthConfig → Type 0
HasSecret none = Unit
HasSecret (some cfg) = cfg.secret ≢ ""

nonempty : (s : String) → (s == "") ≡ false → s ≢ ""
nonempty s e same = cc (sym e ∙ (eq_iff s "").1 same)

validate_bearer-HasToken :
    (cfgs : List BearerAuthConfig) → (validate_bearer cfgs ≡ none) ↔ All HasToken cfgs
unfolding validate_bearer
validate_bearer-HasToken [] = (λ _. tt, λ _. refl)
validate_bearer-HasToken (cfg ∷ cfgs) = elim (Bool-cases (cfg.token == "")) [
  | inl e ↦ rw e (λ h. absurd (cc h), λ (h, _). absurd (h ((eq_iff cfg.token "").0 e)))
  | inr e ↦ rw e (
      let rest = validate_bearer-HasToken cfgs in
      (λ h. (nonempty cfg.token e, rest.0 h), λ (_, h). rest.1 h))
]

validate_basic-HasPair :
    (cfgs : List BasicAuthConfig) → (validate_basic cfgs ≡ none) ↔ All HasPair cfgs
unfolding validate_basic
validate_basic-HasPair [] = (λ _. tt, λ _. refl)
validate_basic-HasPair (cfg ∷ cfgs) = elim (Bool-cases (cfg.username == "")) [
  | inl e ↦ rw e (λ h. absurd (cc h), λ ((h, _), _). absurd (h ((eq_iff cfg.username "").0 e)))
  | inr e ↦ elim (Bool-cases (cfg.password == "")) [
    | inl e' ↦
        rw (e, e') (λ h. absurd (cc h), λ ((_, h), _). absurd (h ((eq_iff cfg.password "").0 e')))
    | inr e' ↦
        rw (e, e')
          (let rest = validate_basic-HasPair cfgs in
            (
              λ h. ((nonempty cfg.username e, nonempty cfg.password e'), rest.0 h),
              λ (_, h). rest.1 h,
            ))
  ]
]

validate_jwt-HasSecret : (jwt : Option JwtAuthConfig) → (validate_jwt jwt ≡ none) ↔ HasSecret jwt
validate_jwt-HasSecret none = (λ _. tt, λ _. refl)
validate_jwt-HasSecret (some cfg) = elim (Bool-cases (cfg.secret == "")) [
  | inl e ↦ rw e (λ h. absurd (cc h), λ h. absurd (h ((eq_iff cfg.secret "").0 e)))
  | inr e ↦ rw e (λ _. nonempty cfg.secret e, λ _. refl)
]

first_error-none : (a b : Option GoError) → (first_error a b ≡ none) ↔ ((a ≡ none) × (b ≡ none))
first_error-none none b = (λ h. (refl, h), λ (_, h). h)
first_error-none (some e) b = (λ h. absurd (cc h), λ (h, _). absurd (cc h))

-- ValidateValues returns no error exactly for a configuration in which every bearer token, every name
-- and password, and the secret of tokens if there is one, are not empty.
pub validate_values_iff :
    (cfg : AuthConfig)
    → (validate_values (some cfg) ≡ none)
      ↔ (All HasToken cfg.bearer × All HasPair cfg.basic × HasSecret cfg.jwt)
unfolding validate_values
validate_values_iff cfg =
    let tokens = validate_bearer-HasToken cfg.bearer in
    let pairs = validate_basic-HasPair cfg.basic in
    let given = validate_jwt-HasSecret cfg.jwt in
    let rest = first_error-none (validate_basic cfg.basic) (validate_jwt cfg.jwt) in
    let whole =
      first_error-none (validate_bearer cfg.bearer)
        (first_error (validate_basic cfg.basic) (validate_jwt cfg.jwt)) in
    (
      λ h. (
        tokens.0 (whole.0 h).0,
        pairs.0 (rest.0 (whole.0 h).1).0,
        given.0 (rest.0 (whole.0 h).1).1,
      ),
      λ (t, p, g). whole.1 (tokens.1 t, rest.1 (pairs.1 p, given.1 g)),
    )
