-- ===== src/Validators.antt =====
-- validators.go: the names of methods. The regular expressions are runs over the characters' codes.
use jsoff.Base.{ℕ, String, Bool, true, false, not, ◌&&◌, ◌||◌, nat_eq, leb, List, [], ◌∷◌, codes}

abbrev pub between : ℕ → ℕ → ℕ → Bool
between low high n = leb low n && leb n high

-- [0-9a-zA-Z]
abbrev pub is_alphanumeric : ℕ → Bool
is_alphanumeric n = between 48 57 n || (between 65 90 n || between 97 122 n)

-- [0-9a-zA-Z\-\_\:\+\.]
abbrev pub is_method_char : ℕ → Bool
is_method_char n =
    is_alphanumeric n
    || (nat_eq n 45 || (nat_eq n 95 || (nat_eq n 58 || (nat_eq n 43 || nat_eq n 46))))

-- [0-9a-zA-Z\-\_\:\+\.\/\\\&\#]
abbrev pub is_public_char : ℕ → Bool
is_public_char n =
    is_method_char n || (nat_eq n 47 || (nat_eq n 92 || (nat_eq n 38 || nat_eq n 35)))

unfoldable pub every : (ℕ → Bool) → List ℕ → Bool
every test [] = true
every test (n ∷ ns) = let rest = every test ns in test n && rest

unfoldable pub starts_with : List ℕ → List ℕ → Bool
starts_with [] ns = true
starts_with (m ∷ ms) [] = false
starts_with (m ∷ ms) (n ∷ ns) = let rest = starts_with ms ns in nat_eq m n && rest

abbrev pub matches : (ℕ → Bool) → (ℕ → Bool) → List ℕ → Bool
matches first others [] = false
matches first others (n ∷ ns) = first n && every others ns

-- `IsMethod`
unfoldable pub is_method : String → Bool
is_method name = matches is_method_char is_method_char (codes name)

-- `IsPublicMethod`
unfoldable pub is_public_method : String → Bool
is_public_method name =
    not (starts_with (codes "rpc.") (codes name))
    && matches is_alphanumeric is_public_char (codes name)
