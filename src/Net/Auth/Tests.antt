-- ===== src/Net/Auth/Tests.antt =====
-- Runs of the check of requests, and its theorems at concrete inputs. The cache is a list of entries.
use jsoff.Base.{
  ℤ, pos, String, ◌==◌, eq_iff, Option, none, some, List, [], ◌∷◌, ◌≡◌, ◌≢◌, ◌⊎◌, ◌↔◌, inl, inr,
  refl, sym, ◌∙◌, lookup, store, delete, lookup-store, lookup-delete, if◌then◌else◌, Bool-cases,
  All,
}
use jsoff.Result.{ok, OnOk}
use jsoff.Net.Auth.{
  AuthConfig, JwtClaims, Libraries, granted, denied, split_space, try_auth, jwt_auth, try_basic,
  try_bearer, serve_http, response, validate_values,
}
use jsoff.Net.Auth.Trusted.{CacheLaws, IsTrusted}
use jsoff.Net.Auth.Granted.{secret, Passed, try_auth-Passed}
use jsoff.Net.Auth.Refused.{NoneFits, try_auth-NoneFits}
use jsoff.Net.Auth.Panics.{Panics, try_auth-Panics}
use jsoff.Net.Auth.Valid.{HasToken, HasPair, HasSecret, validate_values_iff}

abbrev Entries : Type 0
Entries = List (String × JwtClaims)

-- A token is a name; it is good for the secret "s" until second 100.
abbrev parsed : ℤ → String → String → Option JwtClaims
parsed now secret token =
    if secret == "s"
    then some (record { username = token; settings = []; expires_at = pos 100 })
    else none

abbrev pair_of : String → Option (String × String)
pair_of header = if header == "Basic YW5uOnB3" then some ("ann", "pw") else none

abbrev lib : Libraries Entries
lib = record {
  basic_auth = pair_of;
  parse_with_claims = parsed;
  get = λ k m. (lookup k m, m);
  add = store;
  remove = delete;
}

lib-laws : CacheLaws lib
lib-laws = record {
  get-get = λ j k m v h. h;
  get-add = λ j k v w m h. added j k v w m (sym (lookup-store k j v m) ∙ h);
  get-remove = λ j k w m h. removed j k w m (sym (lookup-delete k j m) ∙ h);
}
  where
    added :
        (j k : String) (v w : JwtClaims) (m : Entries)
        → (if k == j then some v else lookup j m) ≡ some w
        → ((j ≡ k) × (w ≡ v)) ⊎ (lookup j m ≡ some w)
    added j k v w m h = elim (Bool-cases (k == j)) [
      | inl e ↦ inl (sym ((eq_iff k j).0 e), sym (cc (rw e at h)))
      | inr e ↦ inr (rw e at h)
    ]

    removed :
        (j k : String) (w : JwtClaims) (m : Entries)
        → (if k == j then none else lookup j m) ≡ some w
        → (j ≢ k) × (lookup j m ≡ some w)
    removed j k w m h = elim (Bool-cases (k == j)) [
      | inl e ↦ cc (rw e at h)
      | inr e ↦ (λ same. cc (sym e ∙ (eq_iff k j).1 (sym same)), rw e at h)
    ]

abbrev config : AuthConfig
config = record {
  basic = record { username = "ann"; password = "pw"; settings = [] } ∷ [];
  bearer = record { token = "tok"; username = ""; settings = [] } ∷ [];
  jwt = some (record { secret = "s" });
}

abbrev lists_only : AuthConfig
lists_only = record config { jwt = none }

-- A name that unfolds the check.
auth : Unit {0}
unfolding try_auth jwt_auth split_space try_basic try_bearer lookup store delete serve_http
    validate_values
auth = tt

splits : split_space "Bearer a b" ≡ ("Bearer", some "a b")
unfolding auth
splits = refl

abbrev bob_claims : JwtClaims
bob_claims = record { username = "bob"; settings = []; expires_at = pos 100 }

passes_token :
    try_auth lib (pos 7) (some config) "Bearer bob" []
    ≡ ok (
      granted (some (record { username = "bob"; settings = [] })),
      ("Bearer bob", bob_claims) ∷ [],
    )
unfolding auth
passes_token = refl

-- Claims that expired in the cache are removed from it.
removes_expired :
    try_auth lib (pos 101) (some config) "Bearer bob" (("Bearer bob", bob_claims) ∷ [])
    ≡ ok (denied, [])
unfolding auth
removes_expired = refl

passes_pair :
    try_auth lib (pos 7) (some config) "Basic YW5uOnB3" []
    ≡ ok (granted (some (record { username = "ann"; settings = [] })), [])
unfolding auth
passes_pair = refl

passes_bearer :
    try_auth lib (pos 7) (some lists_only) "Bearer tok" []
    ≡ ok (granted (some (record { username = "tok"; settings = [] })), [])
unfolding auth
passes_bearer = refl

bare_bearer : Panics (try_auth lib (pos 7) (some config) "Bearer" [])
unfolding auth
bare_bearer = tt

empty-IsTrusted : IsTrusted lib "s" []
unfolding lookup
empty-IsTrusted k claims h = cc

try_auth-Passed_example :
    OnOk
      (λ o. IsTrusted lib "s" o.1 × Passed lib (pos 7) config "Bearer bob" o.0)
      (try_auth lib (pos 7) (some config) "Bearer bob" [])
try_auth-Passed_example =
    try_auth-Passed lib lib-laws (pos 7) config "Bearer bob" [] empty-IsTrusted

try_auth-NoneFits_example :
    OnOk
      (λ o.
        serve_http o.0 ≡ response 401 "auth failed!\n"
        → NoneFits lib (pos 101) "Bearer bob" (("Bearer bob", bob_claims) ∷ []) config)
      (try_auth lib (pos 101) (some config) "Bearer bob" (("Bearer bob", bob_claims) ∷ []))
try_auth-NoneFits_example =
    try_auth-NoneFits lib (pos 101) "Bearer bob" (("Bearer bob", bob_claims) ∷ []) config

try_auth-Panics_example : Panics (try_auth lib (pos 7) (some config) "Bearer" []) ↔ (
    (secret config.jwt ≢ "")
    × (split_space "Bearer" ≡ ("Bearer", none))
    × ((lib.get "Bearer" []).0 ≡ none))
try_auth-Panics_example = try_auth-Panics lib (pos 7) config "Bearer" []

validate_values_iff_example :
    (validate_values (some config) ≡ none)
    ↔ (All HasToken config.bearer × All HasPair config.basic × HasSecret config.jwt)
validate_values_iff_example = validate_values_iff config
