-- ===== src/Names/Split.antt =====
-- `split_name` of kernel/fs.c.
use rink_os.Prelude.{
  ℕ, zero, suc, ◌-◌, ◌≤◌, replicate, ◌≡◌, refl, ap₂, List, [], ◌∷◌, map, arith, length,
  length-append, Bool-cases, inl, inr, length-replicate, ◌==◌,
}
use rink_os.Names.{to_upper, pad, name_loop, after_dot, ext_loop, split_name}

length-pad : (n : ℕ) (xs : List ℕ) → length xs ≤ n → length (pad n xs) ≡ n
length-pad n xs h = omega (
  arith,
  length-append xs (replicate (n - length xs) b' '),
  length-replicate {A = ℕ} (n - length xs) b' ',
)

length-name_loop : (n : ℕ) (s : List ℕ) → length (name_loop n s).0 ≤ n
unfolding name_loop
length-name_loop zero s = omega arith
length-name_loop (suc n) [] = omega arith
length-name_loop (suc n) (c ∷ s) = ground (arith, length-name_loop n s)

length-ext_loop : (n : ℕ) (s : List ℕ) → length (ext_loop n s) ≤ n
unfolding ext_loop
length-ext_loop zero s = omega arith
length-ext_loop (suc n) [] = omega arith
length-ext_loop (suc n) (c ∷ s) = omega (arith, length-ext_loop n s)

-- split_name always gives a name of 8 bytes and an extension of 3, whatever is typed.
pub length-split_name : (s : List ℕ) → (length (split_name s).0 ≡ 8) × (length (split_name s).1 ≡ 3)
unfolding split_name
length-split_name s =
    let rest = after_dot (name_loop 8 s).1 in
    (
      length-pad 8 (name_loop 8 s).0 (length-name_loop 8 s),
      length-pad 3 (ext_loop 3 rest) (length-ext_loop 3 rest),
    )

to_upper-to_upper : (c : ℕ) → to_upper (to_upper c) ≡ to_upper c
unfolding to_upper
to_upper-to_upper c = ground arith

dot-to_upper : (c : ℕ) → (to_upper c == b'.') ≡ (c == b'.')
unfolding to_upper
dot-to_upper c = ground arith

name_loop-to_upper :
    (n : ℕ) (s : List ℕ)
    → ((name_loop n (map to_upper s)).0 ≡ (name_loop n s).0)
      × ((name_loop n (map to_upper s)).1 ≡ map to_upper (name_loop n s).1)
unfolding name_loop
name_loop-to_upper zero s = (refl, refl)
name_loop-to_upper (suc n) [] = (refl, refl)
name_loop-to_upper (suc n) (c ∷ s) = elim (Bool-cases (c == b'.')) [
  | inl dot ↦ rw (dot-to_upper c, dot) (refl, refl)
  | inr other ↦
      rw (dot-to_upper c, other)
        (ap₂ ◌∷◌ (to_upper-to_upper c) (name_loop-to_upper n s).0, (name_loop-to_upper n s).1)
]

after_dot-to_upper : (s : List ℕ) → after_dot (map to_upper s) ≡ map to_upper (after_dot s)
unfolding after_dot
after_dot-to_upper [] = refl
after_dot-to_upper (c ∷ s) = elim (Bool-cases (c == b'.')) [
  | inl dot ↦ rw (dot-to_upper c, dot)
  | inr other ↦ rw (dot-to_upper c, other) (after_dot-to_upper s)
]

ext_loop-to_upper : (n : ℕ) (s : List ℕ) → ext_loop n (map to_upper s) ≡ ext_loop n s
unfolding ext_loop
ext_loop-to_upper zero s = refl
ext_loop-to_upper (suc n) [] = refl
ext_loop-to_upper (suc n) (c ∷ s) = ap₂ ◌∷◌ (to_upper-to_upper c) (ext_loop-to_upper n s)

-- A name typed in upper case splits into the same fields as the name as typed.
pub split_name-to_upper : (s : List ℕ) → split_name (map to_upper s) ≡ split_name s
unfolding split_name
split_name-to_upper s = rw (
  (name_loop-to_upper 8 s).0,
  (name_loop-to_upper 8 s).1,
  after_dot-to_upper (name_loop 8 s).1,
  ext_loop-to_upper 3 (after_dot (name_loop 8 s).1),
)
