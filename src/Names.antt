-- ===== src/Names.antt =====
-- The string helpers of kernel/fs.c. A C string is the list of its bytes before the NUL.
pub mod Split
pub mod Display
use rink_os.Prelude.{
  ℕ, zero, suc, ◌+◌, ◌-◌, Bool, true, false, ◌&&◌, not, List, [], ◌∷◌, ◌++◌, leb, ◌==◌, length,
  get_or, take, replicate, if◌then◌else◌,
}
use rink_os.Dirent.{Dirent, name_field_len, ext_field_len}

-- The buffer size for one path component.
abbrev pub component_len : ℕ
component_len = 13

-- A byte of 128 or more is a negative `char`: it is in no range of letters either way.
unfoldable pub to_upper : ℕ → ℕ
to_upper c = if leb b'a' c && leb c b'z' then c - b'a' + b'A' else c

-- The string that `str_copy_n` leaves in `dst`.
abbrev pub str_copy_n : List ℕ → ℕ → List ℕ
str_copy_n src max_len = take (max_len - 1) src

-- `str_eq_local`
unfoldable pub str_eq_local : List ℕ → List ℕ → Bool
str_eq_local [] [] = true
str_eq_local (x ∷ xs) (y ∷ ys) = if x == y then str_eq_local xs ys else false
str_eq_local _ _ = false

-- A field filled with spaces, then overwritten from the left.
abbrev pub pad : ℕ → List ℕ → List ℕ
pad n xs = xs ++ replicate (n - length xs) b' '

-- `while (in[pos] && in[pos] != '.' && n < 8)`: the bytes stored, and the rest of the input.
unfoldable pub name_loop : ℕ → List ℕ → List ℕ × List ℕ
unfolding to_upper
name_loop zero s = ([], s)
name_loop (suc n) [] = ([], [])
name_loop (suc n) (c ∷ s) =
    let (stored, rest) = name_loop n s in
    if c == b'.' then ([], c ∷ s) else (to_upper c ∷ stored, rest)

-- `while (in[pos] && in[pos] != '.') pos++;`, then `if (in[pos] == '.') pos++`: the bytes behind
-- the first dot, if there is one.
unfoldable pub after_dot : List ℕ → List ℕ
after_dot [] = []
after_dot (c ∷ s) = if c == b'.' then s else after_dot s

-- `while (in[pos] && e < 3)`
unfoldable pub ext_loop : ℕ → List ℕ → List ℕ
unfolding to_upper
ext_loop zero s = []
ext_loop (suc n) [] = []
ext_loop (suc n) (c ∷ s) = to_upper c ∷ ext_loop n s

unfoldable pub split_name : List ℕ → List ℕ × List ℕ
unfolding name_loop after_dot ext_loop
split_name s =
    let (stored, rest) = name_loop name_field_len s in
    (pad name_field_len stored, pad ext_field_len (ext_loop ext_field_len (after_dot rest)))

-- The loop over a field that stops at a space.
unfoldable pub until_space : List ℕ → List ℕ
until_space [] = []
until_space (c ∷ s) = if c == b' ' then [] else c ∷ until_space s

unfoldable pub dirent_to_display : Dirent → List ℕ
unfolding until_space
dirent_to_display d =
    until_space d.name ++ (if get_or d.ext 0 0 == b' ' then [] else b'.' ∷ until_space d.ext)

abbrev pub dot_name : List ℕ
dot_name = pad name_field_len (b'.' ∷ [])

abbrev pub dotdot_name : List ℕ
dotdot_name = pad name_field_len (b'.' ∷ b'.' ∷ [])

abbrev pub empty_ext : List ℕ
empty_ext = pad ext_field_len []
