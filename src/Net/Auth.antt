-- ===== src/Net/Auth.antt =====
-- net/auth_handler.go: whether a request is let through. Of the HTTP request the code reads the header
-- "Authorization" only, `header`, which is empty if it is missing. The decoding of that header for basic
-- authentication, the parsing of a token, and the cache of claims are libraries' and parameters; `now` is
-- the clock, in seconds. Logging is left out.
pub mod Trusted
pub mod Granted
pub mod Refused
pub mod Panics
pub mod Valid
mod Tests
use jsoff.Base.{
  ℕ, ℤ, ltb_ℤ, String, Bool, true, false, not, ◌&&◌, ◌||◌, ◌==◌, nat_eq, Option, none, some, List,
  [], ◌∷◌, if◌then◌else◌,
}
use Prim.Native.Char.{code}
use Prim.Native.String
use jsoff.Value.{Any, str}
use jsoff.Result.{GoError, Result, ok, err, panic, a_value, foreign}

abbrev pub Settings : Type 0
Settings = List (String × Any)

pub record AuthInfo : Type 0 where
  pub username : String
  pub settings : Settings

pub record BasicAuthConfig : Type 0 where
  pub username : String
  pub password : String
  pub settings : Settings

pub record BearerAuthConfig : Type 0 where
  pub token : String
  pub username : String
  pub settings : Settings

pub record JwtAuthConfig : Type 0 where
  pub secret : String

pub record AuthConfig : Type 0 where
  pub basic : List BasicAuthConfig
  pub bearer : List BearerAuthConfig
  pub jwt : Option JwtAuthConfig

pub record JwtClaims : Type 0 where
  pub username : String
  pub settings : Settings
  pub expires_at : ℤ

-- The libraries: `BasicAuth` of net/http, `jwt.ParseWithClaims` with the clock, the secret and the token,
-- and the methods of the cache.
pub record Libraries (C : Type 0) : Type 0 where
  pub basic_auth : (header : String) → Option (String × String)
  pub parse_with_claims : (now : ℤ) → (secret : String) → (token : String) → Option JwtClaims
  pub get : String → C → Option JwtClaims × C
  pub add : String → JwtClaims → C → C
  pub remove : String → C → C

-- What `TryAuth` returns: a pass with an AuthInfo that may be nil, or a refusal.
pub data Tried : Type 0 where
  granted : Option AuthInfo → Tried
  denied : Tried

-- `strings.SplitN` at the first space, in two.
unfoldable pub split_space : String → String × Option String
split_space String.[] = ("", none)
split_space (String.◌∷◌ c s) =
    let rest = split_space s in
    if nat_eq (code c) 32 then ("", some s) else (String.◌∷◌ c rest.0, rest.1)

abbrev pub index_out_of_range : {A : Type 0} → Result A
index_out_of_range = panic (a_value (str "runtime error: index out of range"))

abbrev pub claimed : JwtClaims → AuthInfo
claimed claims = record { username = claims.username; settings = claims.settings }

-- The loops over the configurations.
unfoldable pub try_basic : String → String → List BasicAuthConfig → Option AuthInfo
try_basic username password [] = none
try_basic username password (cfg ∷ cfgs) =
    if (cfg.username == username) && (cfg.password == password)
    then some (record { username = username; settings = cfg.settings })
    else try_basic username password cfgs

abbrev pub bearer_username : BearerAuthConfig → String
bearer_username cfg = if cfg.username == "" then cfg.token else cfg.username

unfoldable pub try_bearer : String → List BearerAuthConfig → Option AuthInfo
try_bearer header [] = none
try_bearer header (cfg ∷ cfgs) =
    if header == String.◌++◌ "Bearer " cfg.token
    then some (record { username = bearer_username cfg; settings = cfg.settings })
    else try_bearer header cfgs

module _ {C : Type 0} (lib : Libraries C) where
  -- The check of the expiry, for claims that were found in the cache.
  abbrev pub check_cached : ℤ → String → JwtClaims → C → Option AuthInfo × C
  check_cached now header claims cache =
      if ltb_ℤ claims.expires_at now
      then (none, lib.remove header cache)
      else (some (claimed claims), cache)

  -- The same for claims that were parsed.
  abbrev pub check_parsed : ℤ → String → Option JwtClaims → C → Option AuthInfo × C
  check_parsed now header none cache = (none, cache)
  check_parsed now header (some claims) cache =
      if ltb_ℤ claims.expires_at now
      then (none, cache)
      else (some (claimed claims), lib.add header claims cache)

  abbrev pub check_claims :
      ℤ → String → String → Option String → Option JwtClaims × C → Result (Option AuthInfo × C)
  check_claims now secret header token (some claims, cache) =
      ok (check_cached now header claims cache)
  check_claims now secret header none (none, cache) = index_out_of_range
  check_claims now secret header (some token) (none, cache) =
      ok (check_parsed now header (lib.parse_with_claims now secret token) cache)

  unfoldable pub jwt_auth : ℤ → JwtAuthConfig → String → C → Result (Option AuthInfo × C)
  jwt_auth now cfg header cache =
      if header == ""
      then ok (none, cache)
      else if (split_space header).0 == "Bearer"
      then check_claims now cfg.secret header (split_space header).1 (lib.get header cache)
      else ok (none, cache)

  abbrev pub basic_of : Option (String × String) → List BasicAuthConfig → Option AuthInfo
  basic_of none cfgs = none
  basic_of (some (username, password)) cfgs = try_basic username password cfgs

  abbrev pub or_else : Option AuthInfo → Option AuthInfo → Option AuthInfo
  or_else (some a) b = some a
  or_else none b = b

  abbrev pub tried : Option AuthInfo → Tried
  tried none = denied
  tried (some a) = granted (some a)

  -- The part of `TryAuth` after the token.
  abbrev pub try_lists : AuthConfig → String → Option AuthInfo
  try_lists cfg header =
      or_else (basic_of (lib.basic_auth header) cfg.basic) (try_bearer header cfg.bearer)

  abbrev pub after_jwt : AuthConfig → String → Result (Option AuthInfo × C) → Result (Tried × C)
  after_jwt cfg header (ok (some a, cache)) = ok (granted (some a), cache)
  after_jwt cfg header (ok (none, cache)) = ok (tried (try_lists cfg header), cache)
  after_jwt cfg header (err e) = err e
  after_jwt cfg header (panic r) = panic r

  -- A token is looked at if there is a secret that is not empty.
  abbrev pub try_jwt : ℤ → Option JwtAuthConfig → String → C → Result (Option AuthInfo × C)
  try_jwt now none header cache = ok (none, cache)
  try_jwt now (some cfg) header cache =
      if cfg.secret == "" then ok (none, cache) else jwt_auth now cfg header cache

  unfoldable pub try_auth : ℤ → Option AuthConfig → String → C → Result (Tried × C)
  try_auth now none header cache = ok (granted none, cache)
  try_auth now (some cfg) header cache = after_jwt cfg header (try_jwt now cfg.jwt header cache)

-- `ServeHTTP`: the next handler, with the AuthInfo in its context if there is one, or a response.
pub data Served : Type 0 where
  next : Option AuthInfo → Served
  response : (code : ℕ) → (body : String) → Served

unfoldable pub serve_http : Tried → Served
serve_http (granted info) = next info
serve_http denied = response 401 "auth failed!\n"

unfoldable pub validate_bearer : List BearerAuthConfig → Option GoError
validate_bearer [] = none
validate_bearer (cfg ∷ cfgs) =
    if cfg.token == "" then some (foreign "bearer token is empty") else validate_bearer cfgs

unfoldable pub validate_basic : List BasicAuthConfig → Option GoError
validate_basic [] = none
validate_basic (cfg ∷ cfgs) =
    if (cfg.username == "") || (cfg.password == "")
    then some (foreign "basic username or password are empty")
    else validate_basic cfgs

abbrev pub validate_jwt : Option JwtAuthConfig → Option GoError
validate_jwt none = none
validate_jwt (some cfg) = if cfg.secret == "" then some (foreign "jwt has no secret") else none

abbrev pub first_error : Option GoError → Option GoError → Option GoError
first_error (some e) later = some e
first_error none later = later

-- `ValidateValues`
unfoldable pub validate_values : Option AuthConfig → Option GoError
validate_values none = none
validate_values (some cfg) =
    first_error (validate_bearer cfg.bearer)
      (first_error (validate_basic cfg.basic) (validate_jwt cfg.jwt))
