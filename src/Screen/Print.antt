-- ===== src/Screen/Print.antt =====
-- `kprint` of kernel/kernel.c on text without control characters that fits the screen.
use rink_os.Prelude.{
  ℕ, suc, ◌+◌, ◌-◌, ◌≤◌, ◌<◌, ◌≡◌, ◌≢◌, ◌∙◌, refl, ap, true, Bool-cases, inl, inr, List, [], ◌∷◌,
  arith, length, get_or, ltb, leb, leb→le, ◌==◌, ◌&&◌, if◌then◌else◌,
}
use rink_os.Screen.{
  Screen, vga_height, cell, put, position, vga_scroll_if_needed, step_on, put_byte, vga_putchar,
  kprint,
}
use rink_os.Screen.Bounds.{IsValid, cells_end, vga_putchar-IsValid}

-- Neither a new line nor a backspace.
abbrev pub IsText : List ℕ → Type 0
IsText [] = Unit
IsText (c ∷ str) = (c ≢ b'\n') × (c ≢ 8) × IsText str

module _ (s : Screen) (c : ℕ) (v : IsValid s) (line : c ≢ b'\n') (back : c ≢ 8)
    (room : position s + 1 < cells_end) where
  put_byte-text :
      (position (put_byte s c) ≡ position s + 1)
      × ((put_byte s c).cursor_row < vga_height)
      × ((j : ℕ) → (put_byte s c).cells j ≡ put s.cells (position s) (cell c) j)
  unfolding put_byte step_on
  put_byte-text = (ground arith, ground arith, λ j. ground arith)

  stays : vga_scroll_if_needed (put_byte s c) ≡ put_byte s c
  unfolding vga_scroll_if_needed
  stays =
      let low : ltb (put_byte s c).cursor_row vga_height ≡ true = ground (arith, put_byte-text.1) in
      rw low refl

  pub vga_putchar-text :
      (position (vga_putchar s c).0 ≡ position s + 1)
      × ((j : ℕ) → (vga_putchar s c).0.cells j ≡ put s.cells (position s) (cell c) j)
  unfolding vga_putchar
  vga_putchar-text = rw stays (put_byte-text.0, put_byte-text.2)

-- Text from place `p` on, as a cell of the screen shows it.
abbrev shown : List ℕ → ℕ → ℕ → ℕ → ℕ
shown str p j old = if leb p j && ltb j (p + length str) then cell (get_or str (j - p) 0) else old

text-cons :
    (cells : ℕ → ℕ) (p c : ℕ) (str : List ℕ) (j : ℕ)
    → shown str (p + 1) j (put cells p (cell c) j) ≡ shown (c ∷ str) p j (cells j)
text-cons cells p c str j = elim (Bool-cases (leb (p + 1) j)) [
  | inl behind ↦
      let le : p + 1 ≤ j = leb→le (p + 1) j behind in
      let q : j - p ≡ suc (j - (p + 1)) = omega arith in
      let here : get_or (c ∷ str) (j - p) 0 ≡ get_or str (j - (p + 1)) 0 =
        ap (λ n. get_or (c ∷ str) n 0) q in
      ground arith
  | inr before ↦ elim (Bool-cases (j == p)) [
    | inl at ↦
        let e : j ≡ p = ground arith in
        let q : j - p ≡ 0 = omega arith in
        let here : get_or (c ∷ str) (j - p) 0 ≡ c = ap (λ n. get_or (c ∷ str) n 0) q in ground arith
    | inr other ↦ ground arith
  ]
]

-- From a cursor on the screen, kprint of text without new line and backspace that ends before the
-- last cell shows the text from the cursor on, leaves every other cell, and moves the cursor
-- behind it.
pub kprint-text :
    (str : List ℕ) (s : Screen)
    → IsValid s
    → IsText str
    → position s + length str < cells_end
    → (position (kprint s str).0 ≡ position s + length str)
      × ((j : ℕ)
          → (kprint s str).0.cells j ≡ (
              if leb (position s) j && ltb j (position s + length str)
              then cell (get_or str (j - position s) 0)
              else s.cells j))
unfolding kprint
kprint-text [] s v text room = (omega arith, λ j. ground arith)
kprint-text (c ∷ str) s v text room =
    let (at, cells) = vga_putchar-text s c v text.0 text.1 (omega arith) in
    let (at_end, rest) =
      kprint-text str (vga_putchar s c).0 (vga_putchar-IsValid s c v) text.2 (omega arith) in
    (omega arith, λ j. rest j ∙ rw (at, cells j) (text-cons s.cells (position s) c str j))
