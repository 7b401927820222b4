-- ===== src/Net/Auth/Refused.antt =====
-- Who is refused.
use jsoff.Base.{
  ℤ, ltb_ℤ, String, true, ◌==◌, ◌&&◌, eq_iff, Option, none, some, List, [], ◌∷◌, ◌≡◌, ◌≢◌, inl, inr,
  refl, Bool-cases, arith,
}
use Prim.Native.String
use text.Mathlib.TextPositions.{eq_refl}
use jsoff.Result.{Result, ok, err, panic, OnOk}
use jsoff.Base.{◌⊎◌, sym, ap, ◌∙◌}
use jsoff.Net.Auth.{
  AuthInfo, BasicAuthConfig, BearerAuthConfig, JwtAuthConfig, JwtClaims, AuthConfig, Libraries,
  Tried, granted, denied, split_space, try_basic, try_bearer, basic_of, or_else, tried, after_jwt,
  try_jwt, jwt_auth, try_auth, check_claims, serve_http, response,
}
use jsoff.Net.Auth.Granted.{InBasic, InBearer, BasicMatches, secret}

InBasic-finds :
    (u p : String) (cfgs : List BasicAuthConfig) (info : AuthInfo)
    → InBasic u p cfgs info
    → try_basic u p cfgs ≢ none
unfolding try_basic
InBasic-finds u p [] info h e = h
InBasic-finds u p (cfg ∷ cfgs) info (inl (h, h', _)) e = cc (rw (h, h', eq_refl u, eq_refl p) at e)
InBasic-finds u p (cfg ∷ cfgs) info (inr h) e =
    elim (Bool-cases ((cfg.username == u) && (cfg.password == p))) [
      | inl b ↦ cc (rw b at e)
      | inr b ↦ InBasic-finds u p cfgs info h (rw b at e)
    ]

InBearer-finds :
    (header : String) (cfgs : List BearerAuthConfig) (info : AuthInfo)
    → InBearer header cfgs info
    → try_bearer header cfgs ≢ none
unfolding try_bearer
InBearer-finds header [] info h e = h
InBearer-finds header (cfg ∷ cfgs) info (inl (h, _)) e = cc (rw ((eq_iff header _).1 h) at e)
InBearer-finds header (cfg ∷ cfgs) info (inr h) e =
    elim (Bool-cases (header == String.◌++◌ "Bearer " cfg.token)) [
      | inl b ↦ cc (rw b at e)
      | inr b ↦ InBearer-finds header cfgs info h (rw b at e)
    ]

empty-not_split :
    (header token : String) → header ≡ "" → split_space header ≢ ("Bearer", some token)
unfolding split_space
empty-not_split header token e h = cc (rw e at h)

module _ {C : Type 0} (lib : Libraries C) (now : ℤ) (header : String) (cache : C) where
  -- The claims that the cache has for a bearer token, or those that the parser gives now if it has none.
  abbrev pub HasClaims : String → JwtClaims → Type 0
  HasClaims secret claims =
      (((split_space header).0 ≡ "Bearer") × ((lib.get header cache).0 ≡ some claims))
      ⊎ ((token : String) × (split_space header ≡ ("Bearer", some token))
          × ((lib.get header cache).0 ≡ none)
          × (lib.parse_with_claims now secret token ≡ some claims))

  -- The claims of the token, if there are any, have expired.
  abbrev pub TokenExpired : String → Type 0
  TokenExpired secret =
      (claims : JwtClaims)
      → secret ≢ ""
      → HasClaims secret claims
      → ltb_ℤ claims.expires_at now ≡ true

  -- No pair and no token of the configuration is that of the request, and its token has expired.
  abbrev pub NoneFits : AuthConfig → Type 0
  NoneFits cfg =
      ((info : AuthInfo) → ¬ (BasicMatches lib (lib.basic_auth header) cfg.basic info))
      × ((info : AuthInfo) → ¬ (InBearer header cfg.bearer info))
      × TokenExpired (secret cfg.jwt)

  basic-none :
      (b : Option (String × String)) (cfgs : List BasicAuthConfig) (info : AuthInfo)
      → basic_of lib b cfgs ≡ none
      → ¬ (BasicMatches lib b cfgs info)
  basic-none none cfgs info e h = h
  basic-none (some (u, p)) cfgs info e h = InBasic-finds u p cfgs info h e

  lists-none :
      (cfg : AuthConfig) (first second : Option AuthInfo)
      → basic_of lib (lib.basic_auth header) cfg.basic ≡ first
      → try_bearer header cfg.bearer ≡ second
      → TokenExpired (secret cfg.jwt)
      → tried lib (or_else lib first second) ≡ denied
      → NoneFits cfg
  lists-none cfg none none e e' expired h = (
    λ info. basic-none (lib.basic_auth header) cfg.basic info e,
    λ info k. InBearer-finds header cfg.bearer info k e',
    expired,
  )
  lists-none cfg (some a) second e e' expired h = cc
  lists-none cfg none (some a) e e' expired h = cc

  parsed-expired :
      (cfg : JwtAuthConfig) (token : String) (claims : JwtClaims) (o : Option JwtClaims × C)
      → o.0 ≡ none
      → lib.parse_with_claims now cfg.secret token ≡ some claims
      → OnOk
          (λ o. o.0 ≡ none → ltb_ℤ claims.expires_at now ≡ true)
          (check_claims lib now cfg.secret header (some token) o)
  parsed-expired cfg token claims (some c, cache) e parsed = cc
  parsed-expired cfg token claims (none, cache) e parsed =
      rw parsed (elim (Bool-cases (ltb_ℤ claims.expires_at now)) [
        | inl late ↦ rw late (λ _. refl)
        | inr early ↦ rw early (λ h. cc)
      ])

  cached-expired :
      (cfg : JwtAuthConfig) (claims : JwtClaims) (token : Option String) (o : Option JwtClaims × C)
      → o.0 ≡ some claims
      → OnOk
          (λ o. o.0 ≡ none → ltb_ℤ claims.expires_at now ≡ true)
          (check_claims lib now cfg.secret header token o)
  cached-expired cfg claims token (none, cache) e = cc
  cached-expired cfg claims token (some c, cache) e =
      let same : c ≡ claims = ground arith in
      elim (Bool-cases (ltb_ℤ c.expires_at now)) [
        | inl late ↦ rw late (λ _. ap (λ k. ltb_ℤ k.expires_at now) (sym same) ∙ late)
        | inr early ↦ rw early (λ h. cc)
      ]

  -- What is said of claims, if one check is said to find nothing.
  abbrev Late : JwtClaims → Result (Option AuthInfo × C) → Type 0
  Late claims r = OnOk (λ o. o.0 ≡ none → ltb_ℤ claims.expires_at now ≡ true) r

  no_scheme : header ≡ "" → (split_space header).0 ≢ "Bearer"
  unfolding split_space
  no_scheme e h = cc (rw e at h)

  jwt_auth-Late :
      (cfg : JwtAuthConfig) (claims : JwtClaims)
      → HasClaims cfg.secret claims
      → Late claims (jwt_auth lib now cfg header cache)
  unfolding jwt_auth
  jwt_auth-Late cfg claims (inl (scheme, found)) = elim (Bool-cases (header == "")) [
    | inl e ↦ absurd (no_scheme ((eq_iff header "").0 e) scheme)
    | inr e ↦
        rw (e, scheme, eq_refl "Bearer")
          (cached-expired cfg claims (split_space header).1 (lib.get header cache) found)
  ]
  jwt_auth-Late cfg claims (inr (token, split, missing, parsed)) =
      elim (Bool-cases (header == "")) [
        | inl e ↦ absurd (empty-not_split header token ((eq_iff header "").0 e) split)
        | inr e ↦
            rw (e, split, eq_refl "Bearer")
              (parsed-expired cfg token claims (lib.get header cache) missing parsed)
      ]

  try_jwt-Late :
      (jwt : Option JwtAuthConfig) (claims : JwtClaims)
      → secret jwt ≢ ""
      → HasClaims (secret jwt) claims
      → Late claims (try_jwt lib now jwt header cache)
  try_jwt-Late none claims given has = absurd (given refl)
  try_jwt-Late (some cfg) claims given has = elim (Bool-cases (cfg.secret == "")) [
    | inl e ↦ absurd (given ((eq_iff cfg.secret "").0 e))
    | inr e ↦ rw e (jwt_auth-Late cfg claims has)
  ]

  -- A request is answered by the status 401 only if it has no name and password and no bearer token of
  -- the configuration, and the claims that the cache or else the parser has for its token have expired.
  pub try_auth-NoneFits :
      (cfg : AuthConfig)
      → OnOk
          (λ o. serve_http o.0 ≡ response 401 "auth failed!\n" → NoneFits cfg)
          (try_auth lib now (some cfg) header cache)
  unfolding try_auth serve_http
  try_auth-NoneFits cfg = after (try_jwt lib now cfg.jwt header cache) (try_jwt-Late cfg.jwt)
    where
      is_denied : (t : Tried) → serve_http t ≡ response 401 "auth failed!\n" → t ≡ denied
      is_denied denied e = refl
      is_denied (granted info) e = cc

      after :
          (r : Result (Option AuthInfo × C))
          → ((claims : JwtClaims)
              → secret cfg.jwt ≢ ""
              → HasClaims (secret cfg.jwt) claims
              → Late claims r)
          → OnOk
              (λ o. serve_http o.0 ≡ response 401 "auth failed!\n" → NoneFits cfg)
              (after_jwt lib cfg header r)
      after (ok (some info, c)) late = λ e. cc
      after (ok (none, c)) late = λ e.
          lists-none cfg _ _ refl refl (λ claims given has. late claims given has refl)
            (is_denied _ e)
      after (err e) late = tt
      after (panic r) late = tt
