-- ===== src/Tests/Screen.antt =====
-- The terminal of kernel/kernel.c near its last cell.
use rink_os.Prelude.{ℕ, ◌≤◌, ◌≡◌, refl, [], ◌∷◌, arith}
use rink_os.Screen.{
  Screen, cell, vga_update_cursor, vga_putchar, put_byte, step_on, step_back, vga_scroll_if_needed,
  kprint,
}
use rink_os.Screen.Bounds.{IsValid, cells_end, kprint-IsValid}
use rink_os.Screen.Tape.{Tape, tape_print, Shows, kprint-Shows}

-- The cursor is on the last cell.
abbrev last : Screen
last = record { cells = λ i. i; cursor_row = 24; cursor_col = 79 }

last-IsValid : IsValid last
last-IsValid = omega arith

abbrev near : Screen
near = record last { cursor_row = 3; cursor_col = 78 }

near-IsValid : IsValid near
near-IsValid = omega arith

-- A character on the last cell scrolls: the cursor is at the start of the last line.
scrolls : ((vga_putchar last b'x').0.cursor_row ≡ 24) × ((vga_putchar last b'x').0.cursor_col ≡ 0)
unfolding vga_putchar put_byte step_on step_back vga_scroll_if_needed
scrolls = (refl, refl)

cursor_ports :
    (vga_putchar near b'x').1 ≡ (0x3D4, 0x0F) ∷ (0x3D5, 63) ∷ (0x3D4, 0x0E) ∷ (0x3D5, 1) ∷ []
unfolding vga_putchar put_byte step_on step_back vga_scroll_if_needed vga_update_cursor
cursor_ports = refl

kprint-IsValid_example :
    IsValid (kprint last (b'x' ∷ b'\n' ∷ 8 ∷ [])).0
    × ((j : ℕ) → cells_end ≤ j → (kprint last (b'x' ∷ b'\n' ∷ 8 ∷ [])).0.cells j ≡ last.cells j)
kprint-IsValid_example = kprint-IsValid (b'x' ∷ b'\n' ∷ 8 ∷ []) last last-IsValid

-- A blank screen with the cursor on its last line, and the tape that it shows.
abbrev low : Screen
low = record { cells = λ i. cell b' '; cursor_row = 24; cursor_col = 0 }

abbrev empty_tape : Tape
empty_tape = record { marks = λ i. cell b' '; at = 1920 }

low-Shows : Shows low empty_tape 0
low-Shows = record { cursor = refl; shows = λ j lt. refl; blank = λ j le. refl }

kprint-Shows_example :
    (up' : ℕ) × (0 ≤ up')
    × Shows
        (kprint low (b'x' ∷ b'\n' ∷ b'y' ∷ [])).0
        (tape_print empty_tape (b'x' ∷ b'\n' ∷ b'y' ∷ []))
        up'
kprint-Shows_example =
    kprint-Shows (b'x' ∷ b'\n' ∷ b'y' ∷ []) low empty_tape 0 (omega arith) (omega arith) low-Shows
