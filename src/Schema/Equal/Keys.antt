-- ===== src/Schema/Equal/Keys.antt =====
-- Two maps of the same size, of which one has the keys of the other, have the same keys.
use jsoff.Base.{
  suc, ◌≤◌, String, true, false, none, List, [], ◌∷◌, ◌≡◌, refl, lookup, delete, lookup-delete,
  is_some, length, eq_iff, eq_refl, arith,
}
use jsoff.Schema.Equal.Reflexive.{Distinct}

-- The second map has the keys of the first.
abbrev pub Within {ℓ κ} :
    {V : Type ℓ} → {U : Type κ} → List (String × V) → List (String × U) → Type (ℓ ⊔ κ)
Within m n = (k : String) → lookup k n ≡ none → lookup k m ≡ none

module _ {ℓ} {U : Type ℓ} where
  length-delete : (j : String) (n : List (String × U)) → length (delete j n) ≤ length n
  unfolding delete
  length-delete j [] = omega arith
  length-delete j ((i, u) ∷ n) = ground (arith, length-delete j n)

  length-delete_found :
      (j : String) (n : List (String × U))
      → is_some (lookup j n) ≡ true
      → suc (length (delete j n)) ≤ length n
  unfolding lookup delete
  length-delete_found j [] h = cc
  length-delete_found j ((i, u) ∷ n) h = ground (arith, length-delete j n, length-delete_found j n)

module _ {ℓ κ} {V : Type ℓ} {U : Type κ} where
  Within-delete :
      (j : String) (v : V) (m : List (String × V)) (n : List (String × U))
      → is_some (lookup j m) ≡ false
      → Within ((j, v) ∷ m) n
      → Within m (delete j n)
  unfolding lookup
  Within-delete j v m n fresh within k h = ground (arith, eq_iff j k, within k, lookup-delete j k n)

  is_there :
      (j : String) (v : V) (m : List (String × V)) (n : List (String × U))
      → Within ((j, v) ∷ m) n
      → is_some (lookup j n) ≡ true
  unfolding lookup
  is_there j v m n within = ground (arith, eq_refl j, within j)

  pub same_keys :
      (m : List (String × V)) (n : List (String × U))
      → Distinct m
      → length n ≤ length m
      → Within m n
      → Within n m
  unfolding lookup
  same_keys [] [] d short within k h = refl
  same_keys [] (p ∷ n) d short within k h = absurd (omega (arith, short))
  same_keys ((j, v) ∷ m) n (fresh, d) short within k h =
      let rest =
        same_keys m (delete j n) d
          (omega (arith, short, length-delete_found j n (is_there j v m n within)))
          (Within-delete j v m n fresh within) in
      ground (arith, eq_iff j k, lookup-delete j k n, rest k)
