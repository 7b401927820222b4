-- ===== src/Base/Reach.antt =====
-- Runs of a step relation.

-- The states that steps of a relation lead to.
pub data Reaches {A : Type 0} (R : A → A → Type 0) (a : A) : A → Type 0 where
  start : Reaches R a a
  later : {b c : A} → Reaches R a b → R b c → Reaches R a c

-- What holds at the start and is kept by every step holds of every state that is reached.
pub Reaches-keeps :
    {A : Type 0} (R : A → A → Type 0) (P : A → Type 0)
    → ((b c : A) → R b c → P b → P c)
    → (a b : A) → Reaches R a b
    → P a
    → P b
Reaches-keeps R P keep a _ start h = h
Reaches-keeps R P keep a b (later {b = d} run step) h =
    keep d b step (Reaches-keeps R P keep a d run h)
