-- ===== src/Shell/Words.antt =====
-- The string helpers of kernel/shell.c.
use rink_os.Prelude.{
  ℕ, zero, suc, ◌≤◌, ◌<◌, ◌≡◌, ◌≢◌, ◌↔◌, refl, ap₂, true, false, List, [], ◌∷◌, ◌++◌, arith, length,
  ◌==◌,
}
use rink_os.Machine.{until_nul}
use rink_os.Shell.{fs_name_len, str_eq, skip_space, word_loop, name_and_rest}

str_eq_same : (a : List ℕ) → str_eq a a ≡ true
unfolding str_eq
str_eq_same [] = refl
str_eq_same (x ∷ a) = ground (arith, str_eq_same a)

str_eq→eq : (a b : List ℕ) → str_eq a b ≡ true → a ≡ b
unfolding str_eq
str_eq→eq [] [] h = refl
str_eq→eq [] (y ∷ b) h = absurd (ground arith)
str_eq→eq (x ∷ a) [] h = absurd (ground arith)
str_eq→eq (x ∷ a) (y ∷ b) h =
    let q : x ≡ y = ground arith in
    let rest : str_eq a b ≡ true = ground arith in ap₂ ◌∷◌ q (str_eq→eq a b rest)

-- The test of the shell for two strings holds if and only if they are equal.
pub str_eq_iff : (a b : List ℕ) → (str_eq a b ≡ true) ↔ (a ≡ b)
str_eq_iff a b = (str_eq→eq a b, λ e. rw e (str_eq_same b))

-- Bytes without a NUL, and without a space.
abbrev pub IsString : List ℕ → Type 0
IsString [] = Unit
IsString (c ∷ s) = (c ≢ 0) × IsString s

abbrev pub NoSpace : List ℕ → Type 0
NoSpace [] = Unit
NoSpace (c ∷ s) = (c ≢ b' ') × NoSpace s

pub until_nul-IsString : (s : List ℕ) → IsString s → until_nul s ≡ s
unfolding until_nul
until_nul-IsString [] h = refl
until_nul-IsString (c ∷ s) h = ground (arith, until_nul-IsString s h.1, h.0)

-- What the shell takes as the name of a file: one word that its buffer holds.
pub record IsName (name : List ℕ) : Type 0 where
  pub some_byte : length name ≢ 0
  pub fits : length name < fs_name_len
  pub no_space : NoSpace name

word_loop-name :
    (n : ℕ) (name rest : List ℕ)
    → length name ≤ n
    → NoSpace name
    → word_loop n (name ++ b' ' ∷ rest) ≡ (name, b' ' ∷ rest)
unfolding word_loop
word_loop-name zero [] rest le h = refl
word_loop-name zero (c ∷ name) rest le h = absurd (omega arith)
word_loop-name (suc n) [] rest le h = refl
word_loop-name (suc n) (c ∷ name) rest le h =
    let here : (c == b' ') ≡ false = ground (arith, h.0) in
    rw (here, word_loop-name n name rest (omega arith) h.1) refl

-- The arguments of `write`, `append` and `mv`.
pub name_and_rest-name :
    (name rest : List ℕ) → IsName name → name_and_rest (b' ' ∷ name ++ b' ' ∷ rest) ≡ (name, rest)
unfolding name_and_rest skip_space
name_and_rest-name name rest h =
    let fits : length name ≤ 63 = omega (arith, h.fits) in
    rw (word_loop-name 63 name rest fits h.no_space) refl
