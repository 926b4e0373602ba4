-- ===== src/Screen/Erase.antt =====
-- A backspace on the terminal of kernel/kernel.c.
use rink_os.Prelude.{ℕ, ◌-◌, ◌<◌, ◌≡◌, refl, true, arith, ltb}
use rink_os.Screen.{
  Screen, vga_height, cell, put, position, step_back, vga_scroll_if_needed, put_byte, vga_putchar,
}
use rink_os.Screen.Bounds.{IsValid}

module _ (s : Screen) (v : IsValid s) (behind : 0 < position s) where
  step_back-position :
      (position (step_back s) ≡ position s - 1) × ((step_back s).cursor_row < vga_height)
  unfolding step_back
  step_back-position = (ground arith, ground arith)

  -- The cursor moves back by one, across the end of a line too, and the cell there is blank.
  pub vga_putchar-back :
      (position (vga_putchar s 8).0 ≡ position s - 1)
      × ((j : ℕ) → (vga_putchar s 8).0.cells j ≡ put s.cells (position s - 1) (cell b' ') j)
  unfolding vga_putchar put_byte vga_scroll_if_needed
  vga_putchar-back =
      let (at, row) = step_back-position in
      let low : ltb (step_back s).cursor_row vga_height ≡ true = ground (arith, row) in
      rw low (at, λ j. rw at refl)
