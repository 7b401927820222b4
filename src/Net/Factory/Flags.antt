-- ===== src/Net/Factory/Flags.antt =====
-- The header that flags give has their values.
use jsoff.Base.{
  String, true, false, ◌==◌, Option, none, some, List, [], ◌∷◌, ◌++◌, ◌≡◌, ◌⊎◌, All, inl, inr, refl,
  ap, sym, ◌∙◌, lookup, store, lookup-store, eq_iff, Bool-cases, is_some, if◌then◌else◌, arith,
}
use mathlib.Core.List.{append-nil, append_assoc}
use jsoff.Result.{ok, err, foreign, ◌>>=◌, >>=-ok}
use jsoff.Message.{Header}
use jsoff.Net.Http1.Client.{values_of}
use jsoff.Net.Factory.{split_colon, add_flag, parse_flags, parse_header_flags}

ok-path : {A : Type 0} (a b : A) → ok a ≡ ok b → a ≡ b
ok-path a b e = ground arith

store-values :
    (c k t : String) (h : Header)
    → values_of (lookup k (store c (values_of (lookup c h) ++ t ∷ []) h))
      ≡ values_of (lookup k h) ++ (if c == k then t ∷ [] else [])
store-values c k t h = elim (Bool-cases (c == k)) [
  | inl same ↦
      rw (lookup-store c k (values_of (lookup c h) ++ t ∷ []) h, same)
        (ap (λ x. values_of (lookup x h) ++ t ∷ []) ((eq_iff c k).0 same))
  | inr differ ↦
      rw (lookup-store c k (values_of (lookup c h) ++ t ∷ []) h, differ)
        (sym (append-nil (values_of (lookup k h))))
]

-- The flag has a colon.
abbrev pub HasColon : String → Type 0
HasColon flag = is_some (split_colon flag).1 ≡ true

module _ (canonical trim : String → String) where
  abbrev pub value_for : String → String × Option String → List String
  value_for k (name, none) = []
  value_for k (name, some v) = if canonical (trim name) == k then trim v ∷ [] else []

  -- The values of the flags whose name is that of the key, in order.
  abbrev pub values_for : String → List String → List String
  values_for k [] = []
  values_for k (flag ∷ flags) = value_for k (split_colon flag) ++ values_for k flags

  added :
      (k : String) (p : String × Option String) (h d : Header)
      → add_flag canonical trim p h ≡ ok d
      → values_of (lookup k d) ≡ values_of (lookup k h) ++ value_for k p
  added k (name, none) h d e = cc
  added k (name, some v) h d e =
      ap (λ x. values_of (lookup k x)) (ok-path _ _ (sym e))
      ∙ store-values (canonical (trim name)) k (trim v) h

  parse_flags-values :
      (k : String) (flags : List String) (h d : Header)
      → parse_flags canonical trim flags h ≡ ok d
      → values_of (lookup k d) ≡ values_of (lookup k h) ++ values_for k flags
  unfolding parse_flags
  parse_flags-values k [] h d e =
      ap (λ x. values_of (lookup k x)) (ok-path _ _ (sym e))
      ∙ sym (append-nil (values_of (lookup k h)))
  parse_flags-values k (flag ∷ flags) h d e =
      let (c, here, later) =
        >>=-ok (add_flag canonical trim (split_colon flag) h) (parse_flags canonical trim flags) d
          e in
      parse_flags-values k flags c d later
      ∙ ap (λ x. x ++ values_for k flags) (added k (split_colon flag) h c here)
      ∙ append_assoc (values_of (lookup k h)) (value_for k (split_colon flag)) (values_for k flags)

  put_flag :
      (p : String × Option String) (h : Header)
      → ((d : Header) × (is_some p.1 ≡ true) × (add_flag canonical trim p h ≡ ok d))
        ⊎ ((is_some p.1 ≡ false)
            × (add_flag canonical trim p h ≡ err (foreign "invalid http header")))
  put_flag (name, none) h = inr (refl, refl)
  put_flag (name, some v) h = inl (_, refl, refl)

  parse_flags-ends :
      (flags : List String) (h : Header)
      → ((d : Header) × All HasColon flags × (parse_flags canonical trim flags h ≡ ok d))
        ⊎ ((¬ All HasColon flags)
            × (parse_flags canonical trim flags h ≡ err (foreign "invalid http header")))
  unfolding parse_flags
  parse_flags-ends [] h = inl (h, tt, refl)
  parse_flags-ends (flag ∷ flags) h = elim (put_flag (split_colon flag) h) [
    | inl (c, has, put) ↦ elim (parse_flags-ends flags c) [
      | inl (d, all, rest) ↦ inl (d, (has, all), rw (put, ◌>>=◌) rest)
      | inr (missing, rest) ↦ inr (λ (_, all). missing all, rw (put, ◌>>=◌) rest)
    ]
    | inr (lacks, refused) ↦ inr (λ (has, _). cc, rw (refused, ◌>>=◌) refl)
  ]

  -- Flags that all have a colon give a header in which the values of a name are those of the flags with this
  -- name, in their order; if one has none, parsing them is an error.
  pub parse_header_flags-values :
      (flags : List String)
      → ((d : Header) × All HasColon flags
          × (parse_header_flags canonical trim flags ≡ ok d)
          × ((k : String) → values_of (lookup k d) ≡ values_for k flags))
        ⊎ ((¬ All HasColon flags)
            × (parse_header_flags canonical trim flags ≡ err (foreign "invalid http header")))
  unfolding lookup
  parse_header_flags-values flags = elim (parse_flags-ends flags []) [
    | inl (d, all, parsed) ↦ inl (d, all, parsed, λ k. parse_flags-values k flags [] d parsed)
    | inr missing ↦ inr missing
  ]
