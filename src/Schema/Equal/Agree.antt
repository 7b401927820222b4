-- ===== src/Schema/Equal/Agree.antt =====
-- Schemas whose parts accept the same values accept the same values.
use jsoff.Base.{
  ℕ, ℤ, Option, none, some, List, [], ◌∷◌, ◌≡◌, ◌≤◌, inl, inr, refl, ◌↔◌, lookup, length, drop,
  arith,
}
use jsoff.Value.{Any, str, list, object, items, fields}
use jsoff.Schema.{
  Mixin, Schema, string_schema, list_schema, tuple_schema, method_schema, Schemas, no_more, child,
  schemas, Maybe, absent, present,
}
use jsoff.Schema.Conforms.{
  Conforms, ConformsSome, ConformsAll, ConformsEach, ConformsMore, ConformsExtra, ConformsResult,
  MessageBody, TupleLength,
}
use jsoff.Schema.Scan.{list_of}
use jsoff.Schema.Equal.Parts.{both_iff, All-iff}

-- Two schemas accept the same values.
abbrev pub Agree : Schema → Schema → Type 0
Agree s t = (d : Any) → Conforms s d ↔ Conforms t d

abbrev pub AgreeSome : Schemas → Schemas → Type 0
AgreeSome ss ts = (d : Any) → ConformsSome ss d ↔ ConformsSome ts d

abbrev pub AgreeAll : Schemas → Schemas → Type 0
AgreeAll ss ts = (d : Any) → ConformsAll ss d ↔ ConformsAll ts d

abbrev pub AgreeEach : Schemas → Schemas → Type 0
AgreeEach ss ts = (xs : List Any) → ConformsEach ss xs ↔ ConformsEach ts xs

-- Lists of schemas that agree one by one.
abbrev pub AgreeList : Schemas → Schemas → Type 0
AgreeList no_more no_more = Unit
AgreeList (child s ss) (child t ts) = Agree s t × AgreeList ss ts
AgreeList _ _ = ⊥

abbrev pub AgreeMaybe : Maybe → Maybe → Type 0
AgreeMaybe absent absent = Unit
AgreeMaybe (present s) (present t) = Agree s t
AgreeMaybe _ _ = ⊥

pub some_iff : (ss ts : Schemas) → AgreeList ss ts → AgreeSome ss ts
some_iff no_more no_more h d = (λ g. g, λ g. g)
some_iff (child s ss) (child t ts) (h, hs) d =
    let rest = some_iff ss ts hs d in
    (
      λ g. elim g [ inl c ↦ inl ((h d).0 c) | inr c ↦ inr (rest.0 c) ],
      λ g. elim g [ inl c ↦ inl ((h d).1 c) | inr c ↦ inr (rest.1 c) ],
    )
some_iff no_more (child t ts) h d = absurd h
some_iff (child s ss) no_more h d = absurd h

pub all_iff : (ss ts : Schemas) → AgreeList ss ts → AgreeAll ss ts
all_iff no_more no_more h d = (λ g. g, λ g. g)
all_iff (child s ss) (child t ts) (h, hs) d = both_iff (h d) (all_iff ss ts hs d)
all_iff no_more (child t ts) h d = absurd h
all_iff (child s ss) no_more h d = absurd h

pub each_iff : (ss ts : Schemas) → AgreeList ss ts → AgreeEach ss ts
each_iff no_more no_more h xs = (λ g. g, λ g. g)
each_iff (child s ss) (child t ts) (h, hs) [] = (λ g. g, λ g. g)
each_iff (child s ss) (child t ts) (h, hs) (x ∷ xs) = both_iff (h x) (each_iff ss ts hs xs)
each_iff no_more (child t ts) h xs = absurd h
each_iff (child s ss) no_more h xs = absurd h

list-length : (ss ts : Schemas) → AgreeList ss ts → length (schemas ss) ≡ length (schemas ts)
list-length no_more no_more h = refl
list-length (child s ss) (child t ts) (h, hs) = omega (arith, list-length ss ts hs)
list-length no_more (child t ts) h = absurd h
list-length (child s ss) no_more h = absurd h

pub not_iff : (s t : Schema) → Agree s t → (d : Any) → (¬ Conforms s d) ↔ (¬ Conforms t d)
not_iff s t h d = (λ g c. g ((h d).1 c), λ g c. g ((h d).0 c))

more_iff : (o p : Maybe) → AgreeMaybe o p → (xs : List Any) → ConformsMore o xs ↔ ConformsMore p xs
more_iff absent absent h xs = (λ g. g, λ g. g)
more_iff (present s) (present t) h xs = All-iff (Conforms s) (Conforms t) h xs
more_iff absent (present t) h xs = absurd h
more_iff (present s) absent h xs = absurd h

extra_iff :
    (o p : Maybe) → AgreeMaybe o p → (xs : List Any) → ConformsExtra o xs ↔ ConformsExtra p xs
extra_iff absent absent h xs = (λ g. g, λ g. g)
extra_iff (present s) (present t) h xs = All-iff (Conforms s) (Conforms t) h xs
extra_iff absent (present t) h xs = absurd h
extra_iff (present s) absent h xs = absurd h

result_iff : (o p : Maybe) → AgreeMaybe o p → (d : Any) → ConformsResult o d ↔ ConformsResult p d
result_iff absent absent h d = (λ g. g, λ g. g)
result_iff (present s) (present t) h d = h d
result_iff absent (present t) h d = absurd h
result_iff (present s) absent h d = absurd h

TupleLength-iff :
    (o p : Maybe)
    → AgreeMaybe o p
    → (have want : ℕ) → TupleLength o have want ↔ TupleLength p have want
TupleLength-iff absent absent h have want = (λ g. g, λ g. g)
TupleLength-iff (present s) (present t) h have want = (λ g. g, λ g. g)
TupleLength-iff absent (present t) h have want = absurd h
TupleLength-iff (present s) absent h have want = absurd h

body_iff :
    (P Q : List Any → Type 0) (R S : Any → Type 0)
    → ((xs : List Any) → P xs ↔ Q xs)
    → ((d : Any) → R d ↔ S d)
    → (o : Option (List Any)) (r : Option Any) → MessageBody P R o r ↔ MessageBody Q S o r
body_iff P Q R S h h' (some xs) r = h xs
body_iff P Q R S h h' none (some d) = h' d
body_iff P Q R S h h' none none = (λ g. g, λ g. g)

triple_iff : {A B C D E F : Type 0} → A ↔ B → C ↔ D → E ↔ F → (A × C × E) ↔ (B × D × F)
triple_iff (f, f') (g, g') (h, h') = (λ (a, c, e). (f a, g c, h e), λ (b, d, x). (f' b, g' d, h' x))

pub string_iff :
    (m n : Mixin) (l l' k k' : Option ℤ)
    → l ≡ l'
    → k ≡ k'
    → Agree (string_schema m l k) (string_schema n l' k')
string_iff m n l l' k k' e e' (str s) = rw (e, e') (λ g. g, λ g. g)
string_iff m n l l' k k' e e' _ = (λ g. absurd g, λ g. absurd g)

pub list_iff :
    (m n : Mixin) (s t : Schema) (l l' k k' : Option ℤ)
    → l ≡ l'
    → k ≡ k'
    → Agree s t
    → Agree (list_schema m s l k) (list_schema n t l' k')
list_iff m n s t l l' k k' e e' h (list xs) =
    rw (e, e') (both_iff (λ g. g, λ g. g) (All-iff (Conforms s) (Conforms t) h (items xs)))
list_iff m n s t l l' k k' e e' h _ = (λ g. absurd g, λ g. absurd g)

pub tuple_iff :
    (m n : Mixin) (ss ts : Schemas) (o p : Maybe)
    → AgreeList ss ts
    → AgreeMaybe o p
    → Agree (tuple_schema m ss o) (tuple_schema n ts p)
tuple_iff m n ss ts o p h h' (list xs) = rw (list-length ss ts h) (
    triple_iff (TupleLength-iff o p h' (length (items xs)) (length (schemas ts)))
      (each_iff ss ts h (items xs)) (more_iff o p h' (drop (length (schemas ts)) (items xs))))
tuple_iff m n ss ts o p h h' _ = (λ g. absurd g, λ g. absurd g)

pub method_iff :
    (m n : Mixin) (ss ts : Schemas) (r q o p : Maybe)
    → AgreeList ss ts
    → AgreeMaybe r q
    → AgreeMaybe o p
    → Agree (method_schema m ss r o) (method_schema n ts q p)
method_iff m n ss ts r q o p h h' h'' (object obj) =
    body_iff
      (λ given.
        (length (schemas ss) ≤ length given)
        × ConformsEach ss given
        × ConformsExtra o (drop (length (schemas ss)) given))
      (λ given.
        (length (schemas ts) ≤ length given)
        × ConformsEach ts given
        × ConformsExtra p (drop (length (schemas ts)) given))
      (ConformsResult r) (ConformsResult q)
      (λ given. rw (list-length ss ts h) (
        triple_iff (λ g. g, λ g. g) (each_iff ss ts h given)
          (extra_iff o p h'' (drop (length (schemas ts)) given))))
      (result_iff r q h') (list_of (lookup "params" (fields obj))) (lookup "result" (fields obj))
method_iff m n ss ts r q o p h h' h'' _ = (λ g. absurd g, λ g. absurd g)
