-- ===== src/Screen/Tape.antt =====
-- The terminal of kernel/kernel.c as a window on an endless tape of cells.
use rink_os.Prelude.{
  ℕ, ◌+◌, ◌-◌, ◌*◌, ◌/◌, ◌≤◌, ◌<◌, ◌≡◌, ◌≢◌, ◌∙◌, ap, false, Bool-cases, inl, inr, List, [], ◌∷◌,
  arith, ltb, leb, ◌==◌, if◌then◌else◌,
}
use rink_os.Screen.{
  Screen, vga_width, vga_height, cell, put, position, clear_from, move_up, vga_scroll_if_needed,
  step_on, put_byte, vga_putchar, kprint,
}
use rink_os.Screen.Bounds.{
  IsValid, clear_from-lem, move_up-lem, put_byte-bounds, vga_putchar-IsValid,
}

-- The lines that have gone up stay on the tape.
pub record Tape : Type 0 where
  pub marks : ℕ → ℕ
  pub at : ℕ

abbrev pub tape_char : Tape → ℕ → Tape
tape_char t c =
    if c == b'\n'
    then record t { at = (t.at / vga_width + 1) * vga_width }
    else record { marks = put t.marks t.at (cell c); at = t.at + 1 }

abbrev pub tape_print : Tape → List ℕ → Tape
tape_print t [] = t
tape_print t (c ∷ str) = tape_print (tape_char t c) str

-- The screen shows the tape from line `up` on, and nothing has been written below it.
pub record Shows (s : Screen) (t : Tape) (up : ℕ) : Type 0 where
  pub cursor : up * vga_width + position s ≡ t.at
  pub shows : (j : ℕ) → j < vga_width * vga_height → s.cells j ≡ t.marks (up * vga_width + j)
  pub blank : (j : ℕ) → (up + vga_height) * vga_width ≤ j → t.marks j ≡ cell b' '

module _ (s : Screen) (t : Tape) (up : ℕ) (h : Shows s t up) where
  put-marks :
      (c j : ℕ)
      → j < vga_width * vga_height
      → put s.cells (position s) (cell c) j ≡ put t.marks t.at (cell c) (up * vga_width + j)
  put-marks c j lt = ground (arith, h.cursor, h.shows j lt)

  put-blank :
      (c j : ℕ)
      → IsValid s
      → (up + vga_height) * vga_width ≤ j
      → put t.marks t.at (cell c) j ≡ cell b' '
  put-blank c j v le = ground (arith, h.cursor, h.blank j le, v.row_in, v.col_in)

  put_byte-Shows : (c : ℕ) → IsValid s → c ≢ 8 → Shows (put_byte s c) (tape_char t c) up
  unfolding put_byte step_on
  put_byte-Shows c v no_back = elim (Bool-cases (c == b'\n')) [
    | inl line ↦
        rw line
          (record { cursor = omega (arith, h.cursor, v.col_in); shows = h.shows; blank = h.blank })
    | inr char ↦
        let erases : (c == 8) ≡ false = ground arith in
        elim (Bool-cases (leb vga_width (s.cursor_col + 1))) [
          | inl wraps ↦
              rw (char, erases, wraps)
                (record {
                  cursor = ground (arith, h.cursor);
                  shows = put-marks c;
                  blank = λ j. put-blank c j v;
                })
          | inr goes_on ↦
              rw (char, erases, goes_on)
                (record {
                  cursor = omega (arith, h.cursor);
                  shows = put-marks c;
                  blank = λ j. put-blank c j v;
                })
        ]
  ]

  scrolled :
      (j : ℕ)
      → j < vga_width * vga_height
      → clear_from vga_width
          ((vga_height - 1) * vga_width)
          (move_up ((vga_height - 1) * vga_width) 0 s.cells)
          j
        ≡ t.marks ((up + 1) * vga_width + j)
  scrolled j lt =
      let last = (vga_height - 1) * vga_width in
      let cleared = clear_from-lem vga_width last (move_up last 0 s.cells) j in
      let moved = move_up-lem last 0 s.cells j in
      elim (Bool-cases (ltb j last)) [
        | inl above ↦
            let q : up * vga_width + (j + vga_width) ≡ (up + 1) * vga_width + j = omega arith in
            let shown = h.shows (j + vga_width) (ground arith) ∙ ap t.marks q in
            ground (arith, cleared, moved, shown)
        | inr below ↦
            let blank = h.blank ((up + 1) * vga_width + j) (ground arith) in
            ground (arith, cleared, blank)
      ]

  scroll-Shows :
      s.cursor_row ≤ vga_height → (up' : ℕ) × (up ≤ up') × Shows (vga_scroll_if_needed s) t up'
  unfolding vga_scroll_if_needed
  scroll-Shows le = elim (Bool-cases (ltb s.cursor_row vga_height)) [
    | inl fits ↦ rw fits (up, omega arith, h)
    | inr below ↦
        let row : s.cursor_row ≡ vga_height = ground arith in
        rw below (
          up + 1,
          omega arith,
          record {
            cursor = omega (arith, h.cursor, row);
            shows = scrolled;
            blank = λ j le. h.blank j (omega (arith, le));
          },
        )
  ]

-- Text with new lines, without backspace.
abbrev pub IsPlain : List ℕ → Type 0
IsPlain [] = Unit
IsPlain (c ∷ str) = (c ≢ 8) × IsPlain str

-- From a cursor on the screen, which shows an endless tape from some line on with nothing written
-- below the screen, kprint of any text without backspace, new lines included, leaves the screen
-- showing the tape with the text written on it, from the same line on or a later one, with the
-- cursor at the tape's place.
pub kprint-Shows :
    (str : List ℕ) (s : Screen) (t : Tape) (up : ℕ)
    → IsValid s
    → IsPlain str
    → Shows s t up
    → (up' : ℕ) × (up ≤ up') × Shows (kprint s str).0 (tape_print t str) up'
unfolding kprint vga_putchar
kprint-Shows [] s t up v plain h = (up, omega arith, h)
kprint-Shows (c ∷ str) s t up v plain h =
    let low = (put_byte-bounds s c v).0 in
    let (up₁, le₁, h₁) =
      scroll-Shows (put_byte s c) (tape_char t c) up (put_byte-Shows s t up h c v plain.0) low in
    let (up₂, le₂, h₂) =
      kprint-Shows str (vga_putchar s c).0 (tape_char t c) up₁ (vga_putchar-IsValid s c v) plain.1
        h₁ in
    (up₂, omega (arith, le₁, le₂), h₂)
