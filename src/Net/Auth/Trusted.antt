-- ===== src/Net/Auth/Trusted.antt =====
-- The claims in the cache, and those that let a request through, come from a token that the secret signs.
use jsoff.Base.{
  ℤ, ltb_ℤ, String, false, ◌==◌, eq_iff, Option, none, some, ◌≡◌, ◌≢◌, ◌⊎◌, inl, inr, refl, ap,
  Bool-cases,
}
use jsoff.Result.{OnOk}
use jsoff.Net.Auth.{
  AuthInfo, JwtAuthConfig, JwtClaims, Libraries, split_space, check_cached, check_parsed,
  check_claims, jwt_auth, claimed,
}

-- What the code relies on: a cache holds only what was added below a key and not removed since. It may
-- drop an entry at any time.
pub record CacheLaws {C : Type 0} (lib : Libraries C) : Type 0 where
  pub get-get :
      (j k : String) (c : C) (v : JwtClaims)
      → (lib.get j (lib.get k c).1).0 ≡ some v
      → (lib.get j c).0 ≡ some v
  pub get-add :
      (j k : String) (v w : JwtClaims) (c : C)
      → (lib.get j (lib.add k v c)).0 ≡ some w
      → ((j ≡ k) × (w ≡ v)) ⊎ ((lib.get j c).0 ≡ some w)
  pub get-remove :
      (j k : String) (w : JwtClaims) (c : C)
      → (lib.get j (lib.remove k c)).0 ≡ some w
      → (j ≢ k) × ((lib.get j c).0 ≡ some w)

module _ {C : Type 0} (lib : Libraries C) where
  -- The header is "Bearer" and a token for which the parser gives the claims, at some time.
  abbrev pub IsToken : String → String → JwtClaims → Type 0
  IsToken secret header claims =
      (token : String) × (then' : ℤ) × (split_space header ≡ ("Bearer", some token))
      × (lib.parse_with_claims then' secret token ≡ some claims)

  abbrev pub IsTrusted : String → C → Type 0
  IsTrusted secret cache =
      (k : String) (claims : JwtClaims)
      → (lib.get k cache).0 ≡ some claims
      → IsToken secret k claims

  abbrev pub Vouched : ℤ → String → String → Option AuthInfo → Type 0
  Vouched now secret header none = Unit
  Vouched now secret header (some info) =
      (claims : JwtClaims) × IsToken secret header claims
      × (ltb_ℤ claims.expires_at now ≡ false)
      × (info ≡ claimed claims)

module _ {C : Type 0} (lib : Libraries C) (laws : CacheLaws lib) (now : ℤ)
    (secret header : String) where
  abbrev IsSound : Option AuthInfo × C → Type 0
  IsSound o = IsTrusted lib secret o.1 × Vouched lib now secret header o.0

  check_cached-IsSound :
      (claims : JwtClaims) (cache : C)
      → IsTrusted lib secret cache
      → IsToken lib secret header claims
      → IsSound (check_cached lib now header claims cache)
  check_cached-IsSound claims cache trust token = elim (Bool-cases (ltb_ℤ claims.expires_at now)) [
    | inl e ↦ rw e (λ k w h. trust k w (laws.get-remove k header w cache h).1, tt)
    | inr e ↦ rw e (trust, (claims, token, e, refl))
  ]

  check_parsed-IsSound :
      (o : Option JwtClaims) (cache : C)
      → IsTrusted lib secret cache
      → ((claims : JwtClaims) → o ≡ some claims → IsToken lib secret header claims)
      → IsSound (check_parsed lib now header o cache)
  check_parsed-IsSound none cache trust token = (trust, tt)
  check_parsed-IsSound (some claims) cache trust token =
      elim (Bool-cases (ltb_ℤ claims.expires_at now)) [
        | inl e ↦ rw e (trust, tt)
        | inr e ↦ rw e (added, (claims, token claims refl, e, refl))
      ]
    where
      added : IsTrusted lib secret (lib.add header claims cache)
      added k w h = elim (laws.get-add k header claims w cache h) [
        | inl (same, value) ↦ rw (same, value) (token claims refl)
        | inr old ↦ trust k w old
      ]

  check_claims-IsSound :
      (o : Option JwtClaims × C) (token : Option String)
      → ((claims : JwtClaims) → o.0 ≡ some claims → IsToken lib secret header claims)
      → IsTrusted lib secret o.1
      → split_space header ≡ ("Bearer", token)
      → OnOk IsSound (check_claims lib now secret header token o)
  check_claims-IsSound (some claims, cache) token cached trust e =
      check_cached-IsSound claims cache trust (cached claims refl)
  check_claims-IsSound (none, cache) none cached trust e = tt
  check_claims-IsSound (none, cache) (some token) cached trust e =
      check_parsed-IsSound (lib.parse_with_claims now secret token) cache trust
        (λ claims parsed. (token, now, e, parsed))

  pub jwt_auth-IsSound :
      (cfg : JwtAuthConfig) (cache : C)
      → cfg.secret ≡ secret
      → IsTrusted lib secret cache
      → OnOk IsSound (jwt_auth lib now cfg header cache)
  unfolding jwt_auth
  jwt_auth-IsSound cfg cache same trust = elim (Bool-cases (header == "")) [
    | inl e ↦ rw e (trust, tt)
    | inr e ↦ rw e (elim (Bool-cases ((split_space header).0 == "Bearer")) [
      | inl b ↦ rw b (
          rw same (
            check_claims-IsSound (lib.get header cache) (split_space header).1
              (λ claims h. trust header claims h)
              (λ k w h. trust k w (laws.get-get k header cache w h))
              (ap (λ a. (a, (split_space header).1)) ((eq_iff _ "Bearer").0 b))))
      | inr b ↦ rw b (trust, tt)
    ])
  ]
