-- ===== src/Base/Lists.antt =====
-- Lists measured by native numbers, and predicates over lists.
use Prim.Native.Nat.{ℕ, zero, suc, ◌+◌}
use native.Mathlib.Omega.{arith}
use mathlib.Core.Path.{◌≡◌, refl, ap, sym, ◌∙◌}
use mathlib.Core.List.{List, [], ◌∷◌, ◌++◌, append_assoc}
use mathlib.Core.Option.{Option, none, some}

module _ {ℓ} {A : Type ℓ} where
  abbrev pub length : List A → ℕ
  length [] = 0
  length (x ∷ xs) = suc (length xs)

  abbrev pub drop : ℕ → List A → List A
  drop zero xs = xs
  drop (suc n) [] = []
  drop (suc n) (x ∷ xs) = drop n xs

  abbrev pub last? : List A → Option A
  last? [] = none
  last? (x ∷ []) = some x
  last? (_ ∷ y ∷ ys) = last? (y ∷ ys)

  abbrev pub drop_last : List A → List A
  drop_last [] = []
  drop_last (x ∷ []) = []
  drop_last (x ∷ y ∷ ys) = x ∷ drop_last (y ∷ ys)

  pub last?-concat : (xs : List A) (a : A) → last? (xs ++ a ∷ []) ≡ some a
  last?-concat [] a = refl
  last?-concat (x ∷ []) a = refl
  last?-concat (x ∷ y ∷ ys) a = last?-concat (y ∷ ys) a

  pub drop_last-concat : (xs : List A) (a : A) → drop_last (xs ++ a ∷ []) ≡ xs
  drop_last-concat [] a = refl
  drop_last-concat (x ∷ []) a = refl
  drop_last-concat (x ∷ y ∷ ys) a = ap (λ zs. x ∷ zs) (drop_last-concat (y ∷ ys) a)

abbrev pub All {ℓ κ} : {A : Type ℓ} → (A → Type κ) → List A → Type κ
All P [] = Unit
All P (x ∷ xs) = P x × All P xs

module _ {ℓ} {A : Type ℓ} where
  pub All-append {κ} : (P : A → Type κ) (xs ys : List A) → All P xs → All P ys → All P (xs ++ ys)
  All-append P [] ys h k = k
  All-append P (x ∷ xs) ys (p, h) k = (p, All-append P xs ys h k)

  -- A list with one element in its middle.
  pub All-middle {κ} :
      (P : A → Type κ) (xs : List A) (y : A) (ys : List A)
      → All P (xs ++ y ∷ ys)
      → P y × All P (xs ++ ys)
  All-middle P [] y ys (p, h) = (p, h)
  All-middle P (x ∷ xs) y ys (p, h) = let (q, rest) = All-middle P xs y ys h in (q, (p, rest))

  abbrev pub sum_by : (A → ℕ) → List A → ℕ
  sum_by f [] = 0
  sum_by f (x ∷ xs) = f x + sum_by f xs

  pub sum_by-append : (f : A → ℕ) (xs ys : List A) → sum_by f (xs ++ ys) ≡ sum_by f xs + sum_by f ys
  sum_by-append f [] ys = omega arith
  sum_by-append f (x ∷ xs) ys = omega (arith, sum_by-append f xs ys)

  pub sum_by-middle :
      (f : A → ℕ) (xs : List A) (y : A) (ys : List A)
      → sum_by f (xs ++ y ∷ ys) ≡ f y + sum_by f (xs ++ ys)
  sum_by-middle f [] y ys = refl
  sum_by-middle f (x ∷ xs) y ys = omega (arith, sum_by-middle f xs y ys)

module _ {ℓ κ} {A : Type ℓ} {B : Type κ} where
  -- The lists of all elements, from the first to the last, and from the last to the first.
  abbrev pub flat : (A → List B) → List A → List B
  flat f [] = []
  flat f (x ∷ xs) = f x ++ flat f xs

  abbrev pub in_order : (A → List B) → List A → List B
  in_order f [] = []
  in_order f (x ∷ xs) = in_order f xs ++ f x

  pub flat-append : (f : A → List B) (xs ys : List A) → flat f (xs ++ ys) ≡ flat f xs ++ flat f ys
  flat-append f [] ys = refl
  flat-append f (x ∷ xs) ys =
      ap (λ r. f x ++ r) (flat-append f xs ys) ∙ sym (append_assoc (f x) (flat f xs) (flat f ys))
