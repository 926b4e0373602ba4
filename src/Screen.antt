-- ===== src/Screen.antt =====
-- The text terminal of kernel/kernel.c: 25 rows of 80 cells, and the cursor.
pub mod Bounds
pub mod Print
pub mod Erase
pub mod Tape
use rink_os.Prelude.{
  ℕ, zero, suc, ◌+◌, ◌-◌, ◌*◌, ◌/◌, ◌%◌, Bool, true, false, List, [], ◌∷◌, ◌++◌, ltb, leb, ◌==◌,
  if◌then◌else◌,
}

abbrev pub vga_width : ℕ
vga_width = 80

abbrev pub vga_height : ℕ
vga_height = 25

abbrev pub vga_color : ℕ
vga_color = 0x0F

-- `vga_buffer`, by index, and the cursor
pub record Screen : Type 0 where
  pub cells : ℕ → ℕ
  pub cursor_row : ℕ
  pub cursor_col : ℕ

-- `c | (VGA_COLOR << 8)`, of a byte
abbrev pub cell : ℕ → ℕ
cell c = c + vga_color * 256

abbrev pub put : (ℕ → ℕ) → ℕ → ℕ → ℕ → ℕ
put cells i x j = if j == i then x else cells j

-- `outb(port, value)`
abbrev pub Out : Type 0
Out = ℕ × ℕ

abbrev pub position : Screen → ℕ
position s = s.cursor_row * vga_width + s.cursor_col

-- The port writes of `vga_update_cursor`.
unfoldable pub vga_update_cursor : Screen → List Out
vga_update_cursor s =
    let pos = position s % 65536 in
    (0x3D4, 0x0F) ∷ (0x3D5, pos % 256) ∷ (0x3D4, 0x0E) ∷ (0x3D5, pos / 256 % 256) ∷ []

-- `n` cells from `i` on, each set to a blank.
unfoldable pub clear_from : ℕ → ℕ → (ℕ → ℕ) → ℕ → ℕ
clear_from zero i cells = cells
clear_from (suc n) i cells = clear_from n (i + 1) (put cells i (cell b' '))

unfoldable pub vga_clear : Screen → Screen
vga_clear s = record {
  cells = clear_from (vga_width * vga_height) 0 s.cells;
  cursor_row = 0;
  cursor_col = 0;
}

-- The two loops that move the lines up: they go through the cells in order, each taking the one
-- below it.
unfoldable pub move_up : ℕ → ℕ → (ℕ → ℕ) → ℕ → ℕ
move_up zero i cells = cells
move_up (suc n) i cells = move_up n (i + 1) (put cells i (cells (i + vga_width)))

unfoldable pub vga_scroll_if_needed : Screen → Screen
vga_scroll_if_needed s =
    let moved = move_up ((vga_height - 1) * vga_width) 0 s.cells in
    if ltb s.cursor_row vga_height then s else record {
      cells = clear_from vga_width ((vga_height - 1) * vga_width) moved;
      cursor_row = vga_height - 1;
      cursor_col = s.cursor_col;
    }

-- The cursor after `\b`.
unfoldable pub step_back : Screen → Screen
step_back s =
    if ltb 0 s.cursor_col
    then record s { cursor_col = s.cursor_col - 1 }
    else if ltb 0 s.cursor_row
    then record s { cursor_row = s.cursor_row - 1; cursor_col = vga_width - 1 }
    else s

-- The cursor behind a character.
unfoldable pub step_on : Screen → Screen
step_on s =
    if leb vga_width (s.cursor_col + 1)
    then record s { cursor_row = s.cursor_row + 1; cursor_col = 0 }
    else record s { cursor_col = s.cursor_col + 1 }

-- The branches of `vga_putchar`.
unfoldable pub put_byte : Screen → ℕ → Screen
unfolding step_back step_on
put_byte s c =
    let back = step_back s in
    if c == b'\n'
    then record s { cursor_row = s.cursor_row + 1; cursor_col = 0 }
    else if c == 8
    then record back { cells = put s.cells (position back) (cell b' ') }
    else step_on (record s { cells = put s.cells (position s) (cell c) })

unfoldable pub vga_putchar : Screen → ℕ → Screen × List Out
vga_putchar s c = let s' = vga_scroll_if_needed (put_byte s c) in (s', vga_update_cursor s')

unfoldable pub kprint : Screen → List ℕ → Screen × List Out
kprint s [] = (s, [])
kprint s (c ∷ str) =
    let (s', out) = vga_putchar s c in let (s'', rest) = kprint s' str in (s'', out ++ rest)
