-- ===== src/Tests/Text.antt =====
-- The display path of kernel/fs.c and the number printers, on small inputs.
use rink_os.Prelude.{ℕ, ◌≡◌, refl, List, [], ◌∷◌, arith, length}
use rink_os.Names.{dirent_to_display, until_space}
use rink_os.Walk.{path_append}
use rink_os.Walk.Display.{NoSlash}
use rink_os.Print.{print_uint, uint_loop, hex32, hex_digits, hex_digit}
use rink_os.Tests.Entries.{file}

-- "/A.TXT"
abbrev inside : List ℕ
inside = b'/' ∷ b'A' ∷ b'.' ∷ b'T' ∷ b'X' ∷ b'T' ∷ []

file_display : dirent_to_display file ≡ b'A' ∷ b'.' ∷ b'T' ∷ b'X' ∷ b'T' ∷ []
unfolding dirent_to_display until_space
file_display = refl

goes_down : path_append (b'/' ∷ []) 128 file ≡ inside
unfolding path_append dirent_to_display until_space
goes_down = refl

pub file-NoSlash : NoSlash (dirent_to_display file)
unfolding dirent_to_display until_space
file-NoSlash = omega arith

prints_decimal : print_uint 4096 ≡ b'4' ∷ b'0' ∷ b'9' ∷ b'6' ∷ []
unfolding print_uint uint_loop
prints_decimal = refl

prints_hex : hex32 0xBEEF ≡ b'0' ∷ b'x' ∷ b'0' ∷ b'0' ∷ b'0' ∷ b'0' ∷ b'B' ∷ b'E' ∷ b'E' ∷ b'F' ∷ []
unfolding hex32 hex_digits hex_digit
prints_hex = refl

pub file_fits : length (dirent_to_display file) ≡ 5
unfolding dirent_to_display until_space
file_fits = refl
