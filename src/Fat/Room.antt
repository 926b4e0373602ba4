-- ===== src/Fat/Room.antt =====
-- Lists of distinct clusters, for the chains of kernel/fs.c.
use rink_os.Prelude.{
  true, Bool-cases, inl, inr, ◌≢◌, sym, ◌∙◌, ℕ, zero, suc, ◌≤◌, ◌<◌, ◌≡◌, Bool, false, ◌||◌, List,
  [], ◌∷◌, refl, arith, ◌==◌, length, if◌then◌else◌,
}

abbrev pub has : ℕ → List ℕ → Bool
has a [] = false
has a (x ∷ xs) = (a == x) || has a xs

abbrev pub Distinct : List ℕ → Type 0
Distinct [] = Unit
Distinct (x ∷ xs) = (has x xs ≡ false) × Distinct xs

abbrev pub AllBelow : ℕ → List ℕ → Type 0
AllBelow n [] = Unit
AllBelow n (x ∷ xs) = (x < n) × AllBelow n xs

without : ℕ → List ℕ → List ℕ
without a [] = []
without a (x ∷ xs) = if x == a then without a xs else x ∷ without a xs

has-without : (a b : ℕ) (xs : List ℕ) → has b xs ≡ false → has b (without a xs) ≡ false
unfolding without
has-without a b [] h = refl
has-without a b (x ∷ xs) h = ground (arith, has-without a b xs)

without-Distinct : (a : ℕ) (xs : List ℕ) → Distinct xs → Distinct (without a xs)
unfolding without
without-Distinct a [] h = tt
without-Distinct a (x ∷ xs) h = ground (arith, without-Distinct a xs h.1, has-without a x xs h.0)

without-AllBelow : (n : ℕ) (xs : List ℕ) → AllBelow (suc n) xs → AllBelow n (without n xs)
unfolding without
without-AllBelow n [] h = tt
without-AllBelow n (x ∷ xs) h = ground (arith, without-AllBelow n xs h.1)

length-without_absent : (a : ℕ) (xs : List ℕ) → has a xs ≡ false → length (without a xs) ≡ length xs
unfolding without
length-without_absent a [] h = refl
length-without_absent a (x ∷ xs) h = ground (arith, length-without_absent a xs)

length-without : (a : ℕ) (xs : List ℕ) → Distinct xs → length xs ≤ suc (length (without a xs))
unfolding without
length-without a [] h = omega arith
length-without a (x ∷ xs) h = ground (arith, length-without a xs h.1, length-without_absent a xs)

pub length-le_of_Distinct : (n : ℕ) (xs : List ℕ) → Distinct xs → AllBelow n xs → length xs ≤ n
length-le_of_Distinct n [] d b = omega arith
length-le_of_Distinct zero (x ∷ xs) d b = absurd (omega arith)
length-le_of_Distinct (suc n) (x ∷ xs) d b = omega (
  arith,
  length-without n (x ∷ xs) d,
  length-le_of_Distinct n (without n (x ∷ xs)) (without-Distinct n (x ∷ xs) d)
      (without-AllBelow n (x ∷ xs) b),
)

length-without_le : (a : ℕ) (xs : List ℕ) → length (without a xs) ≤ length xs
unfolding without
length-without_le a [] = omega arith
length-without_le a (x ∷ xs) = ground (arith, length-without_le a xs)

length-without_lt : (a : ℕ) (xs : List ℕ) → has a xs ≡ true → length (without a xs) < length xs
unfolding without
length-without_lt a [] h = cc
length-without_lt a (x ∷ xs) h = ground (arith, length-without_lt a xs, length-without_le a xs)

has-without_ne : (a b : ℕ) (xs : List ℕ) → b ≢ a → has b (without a xs) ≡ has b xs
unfolding without
has-without_ne a b [] ne = refl
has-without_ne a b (x ∷ xs) ne = ground (arith, has-without_ne a b xs)

-- Of more distinct numbers than `ys` has, some number is not in `ys`.
pub fresh_number :
    (xs ys : List ℕ)
    → Distinct xs
    → length ys < length xs
    → (x : ℕ) × (has x xs ≡ true) × (has x ys ≡ false)
fresh_number [] ys d lt = absurd (omega arith)
fresh_number (x ∷ xs) ys d lt = elim (Bool-cases (has x ys)) [
  | inr gone ↦ (x, ground arith, gone)
  | inl there ↦
      let fewer = length-without_lt x ys there in
      let (z, z_in, z_out) = fresh_number xs (without x ys) d.1 (omega arith) in
      let ne : z ≢ x = λ e. ground (arith, d.0) in
      (z, ground arith, sym (has-without_ne x z ys ne) ∙ z_out)
]
