-- ===== src/Net/Auth/Panics.antt =====
-- When the check of a request panics.
use jsoff.Base.{
  ℤ, String, ◌==◌, eq_iff, Option, none, some, ◌≡◌, ◌≢◌, ◌↔◌, inl, inr, refl, sym, ap, ap₂, ◌∙◌,
  Bool-cases,
}
use jsoff.Result.{Result, ok, err, panic}
use jsoff.Net.Auth.{
  AuthInfo, JwtAuthConfig, JwtClaims, AuthConfig, Libraries, split_space, after_jwt, try_jwt,
  jwt_auth, try_auth, check_claims,
}
use jsoff.Net.Auth.Granted.{secret}

empty-no_bearer : (header : String) → header ≡ "" → split_space header ≢ ("Bearer", none)
unfolding split_space
empty-no_bearer header e h = cc (rw e at h)

abbrev pub Panics : {A : Type 0} → Result A → Type 0
Panics (ok a) = ⊥
Panics (err e) = ⊥
Panics (panic r) = Unit

module _ {C : Type 0} (lib : Libraries C) (now : ℤ) where
  check_claims-Panics :
      (secret header : String) (token : Option String) (o : Option JwtClaims × C)
      → Panics (check_claims lib now secret header token o) ↔ ((token ≡ none) × (o.0 ≡ none))
  check_claims-Panics secret header token (some claims, c) = (λ h. absurd h, λ (_, e). cc)
  check_claims-Panics secret header none (none, c) = (λ _. (refl, refl), λ _. tt)
  check_claims-Panics secret header (some token) (none, c) = (λ h. absurd h, λ (e, _). cc)

  after-Panics :
      (cfg : AuthConfig) (header : String) (r : Result (Option AuthInfo × C))
      → Panics (after_jwt lib cfg header r) ↔ Panics r
  after-Panics cfg header (ok (some info, c)) = (λ h. h, λ h. h)
  after-Panics cfg header (ok (none, c)) = (λ h. h, λ h. h)
  after-Panics cfg header (err e) = (λ h. h, λ h. h)
  after-Panics cfg header (panic r) = (λ h. h, λ h. h)

  abbrev BareBearer : String → C → Type 0
  BareBearer header cache =
      (split_space header ≡ ("Bearer", none)) × ((lib.get header cache).0 ≡ none)

  jwt_auth-Panics :
      (cfg : JwtAuthConfig) (header : String) (cache : C)
      → Panics (jwt_auth lib now cfg header cache) ↔ BareBearer header cache
  unfolding jwt_auth
  jwt_auth-Panics cfg header cache = elim (Bool-cases (header == "")) [
    | inl e ↦
        rw e (λ h. absurd h, λ (split, _). empty-no_bearer header ((eq_iff header "").0 e) split)
    | inr e ↦ rw e (elim (Bool-cases ((split_space header).0 == "Bearer")) [
      | inl b ↦ rw b (
          let found =
            check_claims-Panics cfg.secret header (split_space header).1 (lib.get header cache) in
          (
            λ h. (ap₂ (λ a t. (a, t)) ((eq_iff _ "Bearer").0 b) (found.0 h).0, (found.0 h).1),
            λ (split, missing). found.1 (ap (λ o. o.1) split, missing),
          ))
      | inr b ↦ rw b (
        λ h. absurd h,
        λ (split, _). absurd (cc (sym b ∙ (eq_iff _ "Bearer").1 (ap (λ o. o.0) split))),
      )
    ])
  ]

  try_jwt-Panics :
      (jwt : Option JwtAuthConfig) (header : String) (cache : C)
      → Panics (try_jwt lib now jwt header cache) ↔ ((secret jwt ≢ "") × BareBearer header cache)
  try_jwt-Panics none header cache = (λ h. absurd h, λ (given, _). given refl)
  try_jwt-Panics (some cfg) header cache = elim (Bool-cases (cfg.secret == "")) [
    | inl e ↦ rw e (λ h. absurd h, λ (given, _). given ((eq_iff cfg.secret "").0 e))
    | inr e ↦ rw e (
        let bare = jwt_auth-Panics cfg header cache in
        (λ h. (λ same. cc (sym e ∙ (eq_iff cfg.secret "").1 same), bare.0 h), λ (_, h). bare.1 h))
  ]

  -- The check panics exactly if there is a secret, the header is "Bearer" with no space behind it, and the
  -- cache has no claims for that.
  pub try_auth-Panics :
      (cfg : AuthConfig) (header : String) (cache : C)
      → Panics (try_auth lib now (some cfg) header cache) ↔ (
          (secret cfg.jwt ≢ "")
          × (split_space header ≡ ("Bearer", none))
          × ((lib.get header cache).0 ≡ none))
  unfolding try_auth
  try_auth-Panics cfg header cache =
      let whole = after-Panics cfg header (try_jwt lib now cfg.jwt header cache) in
      let token = try_jwt-Panics cfg.jwt header cache in
      (
        λ h. let (given, (split, missing)) = token.0 (whole.0 h) in (given, split, missing),
        λ (given, split, missing). whole.1 (token.1 (given, (split, missing))),
      )
