-- ===== src/Value/Number/Order.antt =====
-- Equal floats compare alike.
use jsoff.Base.{
  ℕ, ℤ, pos, negsuc, Bool, true, false, not, ◌&&◌, ltb_ℤ, ◌||◌, ◌≡◌, refl, ap, ap₂, sym, ◌∙◌, arith,
}
use jsoff.Value.Number.{float_lt, float_eq, float_le, is_nan, signed}

between_ℤ : (a b : ℤ) → ltb_ℤ a b ≡ false → ltb_ℤ b a ≡ false → a ≡ b
between_ℤ (pos a) (pos b) h h' = ap pos (ground arith)
between_ℤ (pos a) (negsuc b) h h' = ground arith
between_ℤ (negsuc a) (pos b) h h' = ground arith
between_ℤ (negsuc a) (negsuc b) h h' = ap negsuc (ground arith)

-- Both are numbers, with the same place in the order.
SamePlace : ℕ → ℕ → Type 0
SamePlace a b = (is_nan a ≡ false) × (is_nan b ≡ false) × (signed a ≡ signed b)

all_false :
    (a b c d : Bool)
    → (not a && not b && not c && not d) ≡ true
    → (a ≡ false) × (b ≡ false) × (c ≡ false) × (d ≡ false)
all_false false false false false h = (refl, refl, refl, refl)
all_false a b c d h = ground arith

same_place : (a b : ℕ) → float_eq a b ≡ true → SamePlace a b
unfolding SamePlace float_eq
same_place a b e =
    let (na, nb, le, ge) =
      all_false (is_nan a) (is_nan b) (ltb_ℤ (signed a) (signed b)) (ltb_ℤ (signed b) (signed a))
        e in
    (na, nb, between_ℤ (signed a) (signed b) le ge)

module _ (a b f : ℕ) (e : float_eq a b ≡ true) where
  left : (P : Bool → ℤ → Bool) → P (is_nan a) (signed a) ≡ P (is_nan b) (signed b)
  unfolding SamePlace
  left P = let (na, nb, same) = same_place a b e in ap₂ P (na ∙ sym nb) same

  -- Equal floats are below the same floats, and above the same.
  pub lt-below : float_lt a f ≡ float_lt b f
  unfolding float_lt
  lt-below = left (λ n s. not n && not (is_nan f) && ltb_ℤ s (signed f))

  pub lt-above : float_lt f a ≡ float_lt f b
  unfolding float_lt
  lt-above = left (λ n s. not (is_nan f) && not n && ltb_ℤ (signed f) s)

  pub le-below : float_le a f ≡ float_le b f
  unfolding float_le float_lt float_eq
  le-below = left (λ n s.
      (not n && not (is_nan f) && ltb_ℤ s (signed f))
      || (not n && not (is_nan f) && not (ltb_ℤ s (signed f)) && not (ltb_ℤ (signed f) s)))

  pub le-above : float_le f a ≡ float_le f b
  unfolding float_le float_lt float_eq
  le-above = left (λ n s.
      (not (is_nan f) && not n && ltb_ℤ (signed f) s)
      || (not (is_nan f) && not n && not (ltb_ℤ (signed f) s) && not (ltb_ℤ s (signed f))))
