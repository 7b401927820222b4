-- ===== src/Net/Streaming/Table.antt =====
-- What the table of pending requests holds after an entry was stored or taken out: which channels
-- its entries have, and how often.
use jsoff.Base.{
  ℕ, ◌+◌, ◌≤◌, true, false, eq_iff, eq_refl, nat_eq, pos, negsuc, Option, none, some, List, [], ◌∷◌,
  ◌≡◌, refl, ap, inl, inr, if◌then◌else◌, Bool-cases, arith,
}
use jsoff.Value.{Any, nil, int, str}
use jsoff.Net.Streaming.{
  PendingRequest, PendingRequests, same_id, loaded, store_pending, load_and_delete,
}

-- A null, an integer or a text: the ids that a decoded message has.
abbrev pub IsId : Any → Type 0
IsId nil = Unit
IsId (int a) = Unit
IsId (str s) = Unit
IsId _ = ⊥

pub same_id_sound : (a b : Any) → same_id a b ≡ true → a ≡ b
unfolding same_id
same_id_sound nil nil h = refl
same_id_sound (int (pos a)) (int (pos b)) h =
    let same : a ≡ b = ground arith in ap (λ n. int (pos n)) same
same_id_sound (int (negsuc a)) (int (negsuc b)) h =
    let same : a ≡ b = ground arith in ap (λ n. int (negsuc n)) same
same_id_sound (str s) (str t) h = ap str ((eq_iff s t).0 h)
same_id_sound _ _ h = cc

pub same_id_refl : (a : Any) → IsId a → same_id a a ≡ true
unfolding same_id
same_id_refl nil h = refl
same_id_refl (int (pos a)) h = ground arith
same_id_refl (int (negsuc a)) h = ground arith
same_id_refl (str s) h = eq_refl s
same_id_refl _ h = absurd h

-- How many of the pending requests have the channel.
abbrev pub one_if : ℕ → ℕ → ℕ
one_if n m = if nat_eq n m then 1 else 0

abbrev pub with_channel : ℕ → List PendingRequest → ℕ
with_channel n [] = 0
with_channel n (p ∷ ps) = one_if n p.result_channel + with_channel n ps

abbrev pub held : PendingRequests → List PendingRequest
held [] = []
held ((k, p) ∷ m) = p ∷ held m

abbrev pub waiting : ℕ → PendingRequests → ℕ
waiting n m = with_channel n (held m)

abbrev pub one_if_some : ℕ → Option PendingRequest → ℕ
one_if_some n none = 0
one_if_some n (some p) = one_if n p.result_channel

-- What is taken out and what is left are what there was.
pub waiting-load_and_delete :
    (n : ℕ) (k : Any) (m : PendingRequests)
    → one_if_some n (load_and_delete k m).0 + waiting n (load_and_delete k m).1 ≡ waiting n m
unfolding load_and_delete
waiting-load_and_delete n k [] = refl
waiting-load_and_delete n k ((j, p) ∷ m) = elim (Bool-cases (same_id j k)) [
  | inl e ↦ rw e refl
  | inr e ↦ rw e (omega (arith, waiting-load_and_delete n k m))
]

-- A stored entry is new or takes the place of one.
pub waiting-store_pending :
    (n : ℕ) (k : Any) (p : PendingRequest) (m : PendingRequests)
    → waiting n (store_pending k p m) ≤ one_if n p.result_channel + waiting n m
unfolding store_pending
waiting-store_pending n k p [] = omega arith
waiting-store_pending n k p ((j, q) ∷ m) = elim (Bool-cases (same_id j k)) [
  | inl e ↦ rw e (omega arith)
  | inr e ↦ rw e (omega (arith, waiting-store_pending n k p m))
]

-- It is new if no entry was loaded for the id.
pub waiting-store_pending_new :
    (n : ℕ) (k : Any) (p : PendingRequest) (m : PendingRequests)
    → loaded k m ≡ false
    → waiting n (store_pending k p m) ≡ one_if n p.result_channel + waiting n m
unfolding store_pending loaded
waiting-store_pending_new n k p [] h = refl
waiting-store_pending_new n k p ((j, q) ∷ m) h = elim (Bool-cases (same_id j k)) [
  | inl e ↦ cc (rw e at h)
  | inr e ↦ rw e (omega (arith, waiting-store_pending_new n k p m (rw e at h)))
]
