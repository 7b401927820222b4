-- ===== src/Utils/Laws.antt =====
-- What the arguments of the command line are taken for.
use Prim.Native.Char.{Char, code}
use jsoff.Base.{
  ℕ, ℤ, String, true, false, eq_iff, ◌==◌, nat_eq, Option, none, some, List, [], ◌∷◌, ◌++◌, ◌≡◌,
  ◌≢◌, ◌⊎◌, inl, inr, refl, ap, Bool-cases, arith,
}
use jsoff.Value.{Any, nil, bool, float64, str, list, object, Items, Fields}
use jsoff.Value.Number.{parse_int64}
use jsoff.Result.{GoError, Raised, Result, ok, err, panic, ◌>>=◌}
use jsoff.Utils.{
  Guess, int64, value, into_any, into_list, into_object, into_string, guess_by_first, guess_number,
  guess_json, guess_json_array,
}

-- A text that starts with '@', '[', '{' or '"'.
abbrev pub IsMarked : String → Type 0
IsMarked String.[] = ⊥
IsMarked (String.◌∷◌ c rest) = (code c ≡ 64) ⊎ (code c ≡ 91) ⊎ (code c ≡ 123) ⊎ (code c ≡ 34)

is_code : (c : Char) (n : ℕ) → nat_eq (code c) n ≡ true → code c ≡ n
is_code c n h = ground arith

abbrev pub NoPanic : (String → Result Any) → Type 0
NoPanic f = (text : String) (r : Raised) → f text ≢ panic r

-- The words that stand for a value.
abbrev pub NoWord : String → Type 0
NoWord input = (input ≢ "") × (input ≢ "true") × (input ≢ "false") × (input ≢ "null")

module _ (read read_file : String → Result Any) (parse_float64 : String → Option ℕ) where
  abbrev pub NoNumber : String → Type 0
  NoNumber input = (parse_int64 input ≡ none) × (parse_float64 input ≡ none)

  -- What a text stands for: a word, a number, an argument by its first character, or itself.
  pub data StandsFor : String → Guess → Type 0 where
    empty : StandsFor "" (value (str ""))
    yes : StandsFor "true" (value (bool true))
    no : StandsFor "false" (value (bool false))
    null : StandsFor "null" (value nil)
    whole : (input : String) (n : ℤ) → parse_int64 input ≡ some n → StandsFor input (int64 n)
    fraction :
        (input : String) (f : ℕ)
        → NoWord input
        → parse_int64 input ≡ none
        → parse_float64 input ≡ some f
        → StandsFor input (value (float64 f))
    in_file :
        (c : Char) (path : String) (v : Any)
        → NoNumber (String.◌∷◌ c path)
        → code c ≡ 64
        → read_file path ≡ ok v
        → StandsFor (String.◌∷◌ c path) (value v)
    a_list :
        (c : Char) (rest : String) (xs : Items)
        → NoNumber (String.◌∷◌ c rest)
        → code c ≡ 91
        → read (String.◌∷◌ c rest) ≡ ok (list xs)
        → StandsFor (String.◌∷◌ c rest) (value (list xs))
    an_object :
        (c : Char) (rest : String) (m : Fields)
        → NoNumber (String.◌∷◌ c rest)
        → code c ≡ 123
        → read (String.◌∷◌ c rest) ≡ ok (object m)
        → StandsFor (String.◌∷◌ c rest) (value (object m))
    quoted :
        (c : Char) (rest s : String)
        → NoNumber (String.◌∷◌ c rest)
        → code c ≡ 34
        → read (String.◌∷◌ c rest) ≡ ok (str s)
        → StandsFor (String.◌∷◌ c rest) (value (str s))
    itself :
        (input : String)
        → NoWord input
        → NoNumber input
        → ¬ (IsMarked input)
        → StandsFor input (value (str input))

  -- Each text stands for the value at its place.
  pub data Pointwise : List String → List Guess → Type 0 where
    no_inputs : Pointwise [] []
    guessed :
        (input : String) (inputs : List String) (v : Guess) (vs : List Guess)
        → StandsFor input v
        → Pointwise inputs vs
        → Pointwise (input ∷ inputs) (v ∷ vs)

  -- What the text stands for, or an error of a text that is marked.
  abbrev Guessed : String → Result Guess → Type 0
  Guessed input (ok v) = StandsFor input v
  Guessed input (err e) = IsMarked input
  Guessed input (panic r) = ⊥

  from_read :
      (input : String) (r : Result Any) (f : Any → Result Guess)
      → IsMarked input
      → ((p : Raised) → r ≢ panic p)
      → ((v : Any) → r ≡ ok v → Guessed input (f v))
      → Guessed input (r >>= f)
  from_read input (err e) f marked safe good = marked
  from_read input (panic p) f marked safe good = safe p refl
  from_read input (ok v) f marked safe good = good v refl

  module _ (c : Char) (rest : String) (none_read : NoNumber (String.◌∷◌ c rest)) where
    list-Guessed :
        (v : Any)
        → code c ≡ 91
        → read (String.◌∷◌ c rest) ≡ ok v
        → Guessed (String.◌∷◌ c rest) (into_list v)
    list-Guessed (list xs) e h = a_list c rest xs none_read e h
    list-Guessed _ e h = inr (inl e)

    object-Guessed :
        (v : Any)
        → code c ≡ 123
        → read (String.◌∷◌ c rest) ≡ ok v
        → Guessed (String.◌∷◌ c rest) (into_object v)
    object-Guessed (object m) e h = an_object c rest m none_read e h
    object-Guessed _ e h = inr (inr (inl e))

    string-Guessed :
        (v : Any)
        → code c ≡ 34
        → read (String.◌∷◌ c rest) ≡ ok v
        → Guessed (String.◌∷◌ c rest) (into_string v)
    string-Guessed (str s) e h = quoted c rest s none_read e h
    string-Guessed _ e h = inr (inr (inr e))

  not_code : (c : Char) (n : ℕ) → nat_eq (code c) n ≡ false → code c ≢ n
  not_code c n h e = ground arith

  module _ (safe : NoPanic read) (safe_file : NoPanic read_file) where
    by_first-Guessed :
        (input : String)
        → NoWord input
        → NoNumber input
        → Guessed input (guess_by_first read read_file parse_float64 input)
    unfolding guess_by_first
    by_first-Guessed String.[] (given, _, _, _) none_read = absurd (given refl)
    by_first-Guessed (String.◌∷◌ c rest) no_word none_read =
        let input = String.◌∷◌ c rest in
        elim (Bool-cases (nat_eq (code c) 64)) [
          | inl e ↦ rw e (
              from_read input (read_file rest) into_any (inl (is_code c 64 e)) (safe_file rest)
                (λ v h. in_file c rest v none_read (is_code c 64 e) h))
          | inr e ↦ rw e (elim (Bool-cases (nat_eq (code c) 91)) [
            | inl e' ↦ rw e' (
                from_read input (read input) into_list (inr (inl (is_code c 91 e'))) (safe input)
                  (λ v h. list-Guessed c rest none_read v (is_code c 91 e') h))
            | inr e' ↦ rw e' (elim (Bool-cases (nat_eq (code c) 123)) [
              | inl e'' ↦ rw e'' (
                  from_read input (read input) into_object (inr (inr (inl (is_code c 123 e''))))
                    (safe input) (λ v h. object-Guessed c rest none_read v (is_code c 123 e'') h))
              | inr e'' ↦ rw e'' (elim (Bool-cases (nat_eq (code c) 34)) [
                | inl e3 ↦ rw e3 (
                    from_read input (read input) into_string (inr (inr (inr (is_code c 34 e3))))
                      (safe input) (λ v h. string-Guessed c rest none_read v (is_code c 34 e3) h))
                | inr e3 ↦ rw e3 (
                    itself input no_word none_read (λ marked. elim marked [
                      | inl h ↦ not_code c 64 e h
                      | inr (inl h) ↦ not_code c 91 e' h
                      | inr (inr (inl h)) ↦ not_code c 123 e'' h
                      | inr (inr (inr h)) ↦ not_code c 34 e3 h
                    ]))
              ])
            ])
          ])
        ]

    number-Guessed :
        (input : String) (n : Option ℤ) (f : Option ℕ)
        → parse_int64 input ≡ n
        → parse_float64 input ≡ f
        → NoWord input
        → Guessed input (guess_number n f (guess_by_first read read_file parse_float64 input))
    number-Guessed input (some n) f e e' no_word = whole input n e
    number-Guessed input none (some f) e e' no_word = fraction input f no_word e e'
    number-Guessed input none none e e' no_word = by_first-Guessed input no_word (e, e')

    other_text : (input text : String) → (input == text) ≡ false → input ≢ text
    other_text input text h e = ground (arith, eq_iff input text)

    guess_json-Guessed :
        (input : String) → Guessed input (guess_json read read_file parse_float64 input)
    unfolding guess_json
    guess_json-Guessed input = elim (Bool-cases (input == "")) [
      | inl e ↦ rw (e, (eq_iff input "").0 e) empty
      | inr e ↦ rw e (elim (Bool-cases (input == "true")) [
        | inl e' ↦ rw (e', (eq_iff input "true").0 e') yes
        | inr e' ↦ rw e' (elim (Bool-cases (input == "false")) [
          | inl e'' ↦ rw (e'', (eq_iff input "false").0 e'') no
          | inr e'' ↦ rw e'' (elim (Bool-cases (input == "null")) [
            | inl e3 ↦ rw (e3, (eq_iff input "null").0 e3) null
            | inr e3 ↦ rw e3 (
                number-Guessed input (parse_int64 input) (parse_float64 input) refl refl (
                  other_text input "" e,
                  other_text input "true" e',
                  other_text input "false" e'',
                  other_text input "null" e3,
                ))
          ])
        ])
      ])
    ]

    abbrev guess : String → Result Guess
    guess = guess_json read read_file parse_float64

    abbrev AllOrFirst : List String → Type 0
    AllOrFirst inputs =
        ((vs : List Guess) × (guess_json_array read read_file parse_float64 inputs ≡ ok vs)
          × Pointwise inputs vs)
        ⊎ ((before after : List String) × (input : String) × (e : GoError) × (vs : List Guess)
            × (inputs ≡ before ++ input ∷ after)
            × Pointwise before vs
            × (guess input ≡ err e)
            × IsMarked input
            × (guess_json_array read read_file parse_float64 inputs ≡ err e))

    next-AllOrFirst :
        (input : String) (inputs : List String) (r : Result Guess)
        → guess input ≡ r
        → Guessed input r
        → AllOrFirst inputs
        → AllOrFirst (input ∷ inputs)
    unfolding guess_json_array
    next-AllOrFirst input inputs (err e) same marked rest =
        inr ([], inputs, input, e, [], refl, no_inputs, same, marked, rw same refl)
    next-AllOrFirst input inputs (panic p) same marked rest = absurd marked
    next-AllOrFirst input inputs (ok v) same marked (inl (vs, all, each)) =
        inl (v ∷ vs, rw (same, all) refl, guessed input inputs v vs marked each)
    next-AllOrFirst input inputs (ok v) same marked
          (inr (before, after, bad, e, vs, split, each, fails, marked', all)) =
        inr (
          input ∷ before,
          after,
          bad,
          e,
          v ∷ vs,
          ap (λ r. input ∷ r) split,
          guessed input before v vs marked each,
          fails,
          marked',
          rw (same, all) refl,
        )

    -- If reading JSON and files does not panic, GuessJsonArray either gives for every text, in order, what it
    -- stands for (a word, an int64, a float, what a file, a list, an object or a quoted string holds, or the text
    -- itself), or fails with the error of the first text that is not taken for a value, which starts with '@',
    -- '[', '{' or '"'.
    pub guess_json_array_lem :
        (inputs : List String)
        → ((vs : List Guess) × (guess_json_array read read_file parse_float64 inputs ≡ ok vs)
            × Pointwise inputs vs)
          ⊎ ((before after : List String) × (input : String) × (e : GoError) × (vs : List Guess)
              × (inputs ≡ before ++ input ∷ after)
              × Pointwise before vs
              × (guess_json read read_file parse_float64 input ≡ err e)
              × IsMarked input
              × (guess_json_array read read_file parse_float64 inputs ≡ err e))
    unfolding guess_json_array
    guess_json_array_lem [] = inl ([], refl, no_inputs)
    guess_json_array_lem (input ∷ inputs) =
        next-AllOrFirst input inputs (guess input) refl (guess_json-Guessed input)
          (guess_json_array_lem inputs)
