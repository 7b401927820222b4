-- ===== src/Net/Auth/Granted.antt =====
-- Who is let through.
use jsoff.Base.{
  ℤ, String, ◌==◌, eq_iff, Option, none, some, List, [], ◌∷◌, ◌≡◌, ◌⊎◌, inl, inr, refl, sym,
  Bool-cases,
}
use Prim.Native.String
use jsoff.Result.{Result, ok, err, panic, OnOk}
use jsoff.Net.Auth.{
  AuthInfo, BasicAuthConfig, BearerAuthConfig, JwtAuthConfig, AuthConfig, Libraries, Tried, granted,
  denied, try_basic, try_bearer, bearer_username, basic_of, or_else, tried, try_lists, after_jwt,
  try_jwt, try_auth,
}
use jsoff.Net.Auth.Trusted.{CacheLaws, IsTrusted, Vouched, jwt_auth-IsSound}

-- A configuration of the list has the name and password, and the settings of the AuthInfo.
abbrev pub InBasic : String → String → List BasicAuthConfig → AuthInfo → Type 0
InBasic username password [] info = ⊥
InBasic username password (cfg ∷ cfgs) info =
    ((cfg.username ≡ username)
      × (cfg.password ≡ password)
      × (info ≡ record { username = username; settings = cfg.settings }))
    ⊎ InBasic username password cfgs info

-- The header is "Bearer" and the token of a configuration of the list.
abbrev pub InBearer : String → List BearerAuthConfig → AuthInfo → Type 0
InBearer header [] info = ⊥
InBearer header (cfg ∷ cfgs) info =
    ((header ≡ String.◌++◌ "Bearer " cfg.token)
      × (info ≡ record { username = bearer_username cfg; settings = cfg.settings }))
    ⊎ InBearer header cfgs info

try_basic-InBasic :
    (u p : String) (cfgs : List BasicAuthConfig) (info : AuthInfo)
    → try_basic u p cfgs ≡ some info
    → InBasic u p cfgs info
unfolding try_basic
try_basic-InBasic u p [] info h = cc
try_basic-InBasic u p (cfg ∷ cfgs) info h = elim (Bool-cases (cfg.username == u)) [
  | inl e ↦ elim (Bool-cases (cfg.password == p)) [
    | inl e' ↦ inl ((eq_iff _ u).0 e, (eq_iff _ p).0 e', sym (cc (rw (e, e') at h)))
    | inr e' ↦ inr (try_basic-InBasic u p cfgs info (rw (e, e') at h))
  ]
  | inr e ↦ inr (try_basic-InBasic u p cfgs info (rw e at h))
]

try_bearer-InBearer :
    (header : String) (cfgs : List BearerAuthConfig) (info : AuthInfo)
    → try_bearer header cfgs ≡ some info
    → InBearer header cfgs info
unfolding try_bearer
try_bearer-InBearer header [] info h = cc
try_bearer-InBearer header (cfg ∷ cfgs) info h =
    elim (Bool-cases (header == String.◌++◌ "Bearer " cfg.token)) [
      | inl e ↦ inl ((eq_iff header _).0 e, sym (cc (rw e at h)))
      | inr e ↦ inr (try_bearer-InBearer header cfgs info (rw e at h))
    ]

-- The secret of a configuration; it is empty if there is none.
abbrev pub secret : Option JwtAuthConfig → String
secret none = ""
secret (some cfg) = cfg.secret

module _ {C : Type 0} (lib : Libraries C) where
  abbrev pub BasicMatches : Option (String × String) → List BasicAuthConfig → AuthInfo → Type 0
  BasicMatches none cfgs info = ⊥
  BasicMatches (some (username, password)) cfgs info = InBasic username password cfgs info

  -- A token that the secret signs and that is not expired, a pair of the list, or a token of the list.
  abbrev pub Entitled : ℤ → AuthConfig → String → AuthInfo → Type 0
  Entitled now cfg header info =
      Vouched lib now (secret cfg.jwt) header (some info)
      ⊎ (BasicMatches (lib.basic_auth header) cfg.basic info ⊎ InBearer header cfg.bearer info)

  abbrev pub Passed : ℤ → AuthConfig → String → Tried → Type 0
  Passed now cfg header (granted (some info)) = Entitled now cfg header info
  Passed now cfg header (granted none) = ⊥
  Passed now cfg header denied = Unit

  basic_of-BasicMatches :
      (b : Option (String × String)) (cfgs : List BasicAuthConfig) (info : AuthInfo)
      → basic_of lib b cfgs ≡ some info
      → BasicMatches b cfgs info
  basic_of-BasicMatches none cfgs info h = cc
  basic_of-BasicMatches (some (u, p)) cfgs info h = try_basic-InBasic u p cfgs info h

  either-Passed :
      (now : ℤ) (cfg : AuthConfig) (header : String) (first second : Option AuthInfo)
      → ((info : AuthInfo)
          → first ≡ some info
          → BasicMatches (lib.basic_auth header) cfg.basic info)
      → ((info : AuthInfo) → second ≡ some info → InBearer header cfg.bearer info)
      → Passed now cfg header (tried lib (or_else lib first second))
  either-Passed now cfg header (some info) second h k = inr (inl (h info refl))
  either-Passed now cfg header none (some info) h k = inr (inr (k info refl))
  either-Passed now cfg header none none h k = tt

  lists-Passed :
      (now : ℤ) (cfg : AuthConfig) (header : String)
      → Passed now cfg header (tried lib (try_lists lib cfg header))
  lists-Passed now cfg header =
      either-Passed now cfg header _ _ (basic_of-BasicMatches (lib.basic_auth header) cfg.basic)
        (try_bearer-InBearer header cfg.bearer)

module _ {C : Type 0} (lib : Libraries C) (laws : CacheLaws lib) where
  try_jwt-Vouched :
      (now : ℤ) (jwt : Option JwtAuthConfig) (header : String) (cache : C)
      → IsTrusted lib (secret jwt) cache
      → OnOk
          (λ o. IsTrusted lib (secret jwt) o.1 × Vouched lib now (secret jwt) header o.0)
          (try_jwt lib now jwt header cache)
  try_jwt-Vouched now none header cache trust = (trust, tt)
  try_jwt-Vouched now (some cfg) header cache trust = elim (Bool-cases (cfg.secret == "")) [
    | inl e ↦ rw e (trust, tt)
    | inr e ↦ rw e (jwt_auth-IsSound lib laws now cfg.secret header cfg cache refl trust)
  ]

  -- If the cache holds claims of signed tokens only, then so it does after a request, and a request
  -- that is let through has a token that was signed with the secret and is not expired, or a name and
  -- password of the configuration, or a bearer token of it, and carries the name and settings of that.
  pub try_auth-Passed :
      (now : ℤ) (cfg : AuthConfig) (header : String) (cache : C)
      → IsTrusted lib (secret cfg.jwt) cache
      → OnOk
          (λ o. IsTrusted lib (secret cfg.jwt) o.1 × Passed lib now cfg header o.0)
          (try_auth lib now (some cfg) header cache)
  unfolding try_auth
  try_auth-Passed now cfg header cache trust =
      after (try_jwt lib now cfg.jwt header cache) (try_jwt-Vouched now cfg.jwt header cache trust)
    where
      after :
          (r : Result (Option AuthInfo × C))
          → OnOk
              (λ o.
                IsTrusted lib (secret cfg.jwt) o.1 × Vouched lib now (secret cfg.jwt) header o.0)
              r
          → OnOk
              (λ o. IsTrusted lib (secret cfg.jwt) o.1 × Passed lib now cfg header o.0)
              (after_jwt lib cfg header r)
      after (ok (some info, c)) (t, v) = (t, inl v)
      after (ok (none, c)) (t, v) = (t, lists-Passed lib now cfg header)
      after (err e) h = tt
      after (panic r) h = tt
