-- ===== src/Screen/Bounds.antt =====
-- The cursor and the buffer of the terminal of kernel/kernel.c.
use rink_os.Prelude.{
  ℕ, zero, suc, ◌+◌, ◌-◌, ◌*◌, ◌≤◌, ◌<◌, ◌≡◌, ◌∙◌, refl, List, [], ◌∷◌, arith, ltb, leb, ◌&&◌,
  if◌then◌else◌,
}
use rink_os.Screen.{
  Screen, vga_width, vga_height, cell, put, clear_from, move_up, vga_scroll_if_needed, step_back,
  step_on, put_byte, vga_putchar, kprint,
}

pub record IsValid (s : Screen) : Type 0 where
  pub row_in : s.cursor_row < vga_height
  pub col_in : s.cursor_col < vga_width

abbrev pub cells_end : ℕ
cells_end = vga_width * vga_height

pub clear_from-lem :
    (n i : ℕ) (cells : ℕ → ℕ) (j : ℕ)
    → clear_from n i cells j ≡ (if leb i j && ltb j (i + n) then cell b' ' else cells j)
unfolding clear_from
clear_from-lem zero i cells j = ground arith
clear_from-lem (suc n) i cells j =
    ground (arith, clear_from-lem n (i + 1) (put cells i (cell b' ')) j)

pub move_up-lem :
    (n i : ℕ) (cells : ℕ → ℕ) (j : ℕ)
    → move_up n i cells j ≡ (if leb i j && ltb j (i + n) then cells (j + vga_width) else cells j)
unfolding move_up
move_up-lem zero i cells j = ground arith
move_up-lem (suc n) i cells j =
    ground (arith, move_up-lem n (i + 1) (put cells i (cells (i + vga_width))) j)

pub put_byte-bounds :
    (s : Screen) (c : ℕ)
    → IsValid s
    → ((put_byte s c).cursor_row ≤ vga_height)
      × ((put_byte s c).cursor_col < vga_width)
      × ((j : ℕ) → cells_end ≤ j → (put_byte s c).cells j ≡ s.cells j)
unfolding put_byte step_back step_on
put_byte-bounds s c v = (ground arith, ground arith, λ j le. ground arith)

scroll-cells : (s : Screen) (j : ℕ) → cells_end ≤ j → (vga_scroll_if_needed s).cells j ≡ s.cells j
unfolding vga_scroll_if_needed
scroll-cells s j le = ground (
  arith,
  clear_from-lem vga_width ((vga_height - 1) * vga_width)
      (move_up ((vga_height - 1) * vga_width) 0 s.cells) j,
  move_up-lem ((vga_height - 1) * vga_width) 0 s.cells j,
)

scroll-IsValid :
    (s : Screen)
    → s.cursor_row ≤ vga_height
    → s.cursor_col < vga_width
    → IsValid (vga_scroll_if_needed s)
unfolding vga_scroll_if_needed
scroll-IsValid s row col = record { row_in = ground arith; col_in = ground arith }

pub vga_putchar-IsValid : (s : Screen) (c : ℕ) → IsValid s → IsValid (vga_putchar s c).0
unfolding vga_putchar
vga_putchar-IsValid s c v = let b = put_byte-bounds s c v in scroll-IsValid (put_byte s c) b.0 b.1

-- Whatever is printed from a cursor on the screen, kprint leaves the cursor on the screen and
-- writes no cell outside of the 80 x 25.
pub kprint-IsValid :
    (str : List ℕ) (s : Screen)
    → IsValid s
    → IsValid (kprint s str).0 × ((j : ℕ) → cells_end ≤ j → (kprint s str).0.cells j ≡ s.cells j)
unfolding kprint vga_putchar
kprint-IsValid [] s v = (v, λ j le. refl)
kprint-IsValid (c ∷ str) s v =
    let (valid, rest) = kprint-IsValid str (vga_putchar s c).0 (vga_putchar-IsValid s c v) in
    (valid, λ j le. rest j le ∙ scroll-cells (put_byte s c) j le ∙ (put_byte-bounds s c v).2 j le)
