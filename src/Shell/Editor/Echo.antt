-- ===== src/Shell/Editor/Echo.antt =====
-- The line that kernel/shell.c reads and what the terminal shows of it.
use rink_os.Prelude.{
  ℕ, zero, suc, ◌+◌, ◌-◌, ◌≤◌, ◌<◌, ◌≡◌, ◌≢◌, refl, true, false, Bool-cases, inl, inr, List, [],
  ◌∷◌, ◌++◌, arith, length, length-append, length-take, get_or, take, ltb, ltb→lt, ◌==◌,
  if◌then◌else◌,
}
use rink_os.Screen.{Screen, cell, position, kprint, vga_putchar}
use rink_os.Screen.Bounds.{IsValid, cells_end, vga_putchar-IsValid}
use rink_os.Screen.Print.{vga_putchar-text}
use rink_os.Screen.Erase.{vga_putchar-back}
use rink_os.Machine.{Machine, Event, shows, step, until_nul}
use rink_os.Machine.Render.{render, render-append}
use rink_os.Shell.{line_buf_size}
use rink_os.Shell.Editor.{shell_char, shell_chars}

-- The terminal shows the line from place `p` on and nothing behind it, with the cursor behind it and
-- the cells `old` before it.
pub record Shows (p : ℕ) (old : ℕ → ℕ) (line : List ℕ) (s : Screen) : Type 0 where
  pub valid : IsValid s
  pub cursor : position s ≡ p + length line
  pub line_cells : (i : ℕ) → i < length line → s.cells (p + i) ≡ cell (get_or line i 0)
  pub before : (i : ℕ) → i < p → s.cells i ≡ old i
  pub behind : (i : ℕ) → p + length line ≤ i → i < cells_end → s.cells i ≡ cell b' '

-- A key as the line takes it.
abbrev pub key : List ℕ → ℕ → List ℕ
key line c =
    if c == 8
    then take (length line - 1) line
    else if ltb (length line) (line_buf_size - 1)
    then line ++ c ∷ []
    else line

abbrev pub edited : List ℕ → List ℕ → List ℕ
edited line [] = line
edited line (c ∷ cs) = edited (key line c) cs

-- Keys without Enter.
abbrev pub AreKeys : List ℕ → Type 0
AreKeys [] = Unit
AreKeys (c ∷ cs) = (c ≢ b'\n') × (c ≢ 0) × AreKeys cs

get_or-append :
    (xs : List ℕ) (c i : ℕ)
    → i < suc (length xs)
    → get_or (xs ++ c ∷ []) i 0 ≡ (if ltb i (length xs) then get_or xs i 0 else c)
get_or-append [] c zero lt = refl
get_or-append [] c (suc i) lt = absurd (omega arith)
get_or-append (x ∷ xs) c zero lt = ground arith
get_or-append (x ∷ xs) c (suc i) lt = ground (arith, get_or-append xs c i (omega arith))

get_or-take : (n : ℕ) (xs : List ℕ) (i : ℕ) → i < n → get_or (take n xs) i 0 ≡ get_or xs i 0
get_or-take zero xs i lt = absurd (omega arith)
get_or-take (suc n) [] i lt = refl
get_or-take (suc n) (x ∷ xs) zero lt = refl
get_or-take (suc n) (x ∷ xs) (suc i) lt = get_or-take n xs i (omega arith)

module _ (p : ℕ) (old : ℕ → ℕ) (line : List ℕ) (s : Screen) (h : Shows p old line s) (c : ℕ)
    (ne : c ≢ b'\n') (back : c ≢ 8) (room : p + length line + 1 < cells_end) where
  Shows-key : Shows p old (line ++ c ∷ []) (vga_putchar s c).0
  Shows-key =
      let fits : position s + 1 < cells_end = rw h.cursor room in
      let (at, cells) = vga_putchar-text s c h.valid ne back fits in
      let more = length-append line (c ∷ []) in
      record {
        valid = vga_putchar-IsValid s c h.valid;
        cursor = omega (arith, at, h.cursor, more);
        line_cells = λ i lt.
            let lt' : i < suc (length line) = omega (arith, more) in
            rw (cells (p + i), h.cursor, get_or-append line c i lt')
              (ground (arith, h.line_cells i));
        before = λ i lt. rw (cells i, h.cursor) (ground (arith, h.before i lt));
        behind = λ i le lt.
            rw (cells i, h.cursor) (ground (arith, more, h.behind i (omega (arith, more)) lt));
      }

module _ (p : ℕ) (old : ℕ → ℕ) (line : List ℕ) (s : Screen) (h : Shows p old line s)
    (some_byte : 0 < length line) where
  Shows-back : Shows p old (take (length line - 1) line) (vga_putchar s 8).0
  Shows-back =
      let behind : 0 < position s = rw h.cursor (omega arith) in
      let (at, cells) = vga_putchar-back s h.valid behind in
      let less = length-take (length line - 1) line in
      record {
        valid = vga_putchar-IsValid s 8 h.valid;
        cursor = omega (arith, at, h.cursor, less);
        line_cells = λ i lt.
            let lt' : i < length line - 1 = omega (arith, less) in
            rw (cells (p + i), h.cursor, get_or-take (length line - 1) line i lt')
              (ground (arith, h.line_cells i));
        before = λ i lt. rw (cells i, h.cursor) (ground (arith, h.before i lt));
        behind = λ i le lt. rw (cells i, h.cursor) (ground (arith, less, h.behind i));
      }

take-empty : (line : List ℕ) → ltb 0 (length line) ≡ false → take (length line - 1) line ≡ line
take-empty [] h = refl
take-empty (c ∷ line) h = absurd (ground arith)

-- One round of the editor: the line as the key leaves it, and the terminal that shows it.
abbrev Echoed : ℕ → (ℕ → ℕ) → List ℕ → ℕ → Machine → Screen → Type 0
Echoed p old line c m s =
    (es : List Event) × (shell_char line c m ≡ step (key line c) es m)
    × Shows p old (key line c) (render s es).0
    × (length (key line c) < line_buf_size)

module _ (p : ℕ) (old : ℕ → ℕ) (line : List ℕ) (c : ℕ) (m : Machine) (s : Screen)
    (h : Shows p old line s) (ne : c ≢ b'\n') (live : c ≢ 0) (short : length line < line_buf_size)
    (room : p + line_buf_size < cells_end) where
  no_enter : (c == b'\n') ≡ false
  no_enter = ground arith

  erase : (c == 8) ≡ true → Echoed p old line c m s
  unfolding shell_char render kprint
  erase is_back =
      let less = length-take (length line - 1) line in
      elim (Bool-cases (ltb 0 (length line))) [
        | inl some_byte ↦ (
          shows (8 ∷ []) ∷ [],
          rw (no_enter, is_back, some_byte) refl,
          rw is_back (Shows-back p old line s h (ltb→lt 0 (length line) some_byte)),
          rw is_back (omega (arith, less)),
        )
        | inr empty ↦
            let same : take (length line - 1) line ≡ line = take-empty line empty in
            (
              [],
              rw (no_enter, is_back, empty, same) refl,
              rw (is_back, same) h,
              rw is_back (omega (arith, less)),
            )
      ]

  insert : (c == 8) ≡ false → Echoed p old line c m s
  unfolding shell_char until_nul render kprint
  insert not_back =
      let more = length-append line (c ∷ []) in
      let not_nul : (c == 0) ≡ false = ground arith in
      elim (Bool-cases (ltb (length line) (line_buf_size - 1))) [
        | inl fits ↦ (
          shows (c ∷ []) ∷ [],
          rw (no_enter, not_back, fits, not_nul) refl,
          rw (not_back, fits)
              (Shows-key p old line s h c ne (λ e. absurd (ground (arith, e))) (ground arith)),
          rw (not_back, fits) (ground (arith, more)),
        )
        | inr full ↦ (
          [],
          rw (no_enter, not_back, full) refl,
          rw (not_back, full) h,
          rw (not_back, full) short,
        )
      ]

  shell_char-Echoed : Echoed p old line c m s
  shell_char-Echoed = elim (Bool-cases (c == 8)) [
    | inl is_back ↦ erase is_back
    | inr not_back ↦ insert not_back
  ]

-- Where the terminal shows the line from place p on and only blanks behind it, and has room for
-- 258 cells behind p, any run of keys without Enter and NUL leaves the machine as it is and edits
-- the line: a key is appended, or dropped where 257 are there, and a backspace takes the last one
-- back. What the shell prints leaves the terminal showing the edited line from p on, with the
-- cursor and only blanks behind it and the cells before p as they were; the line stays below 258
-- bytes.
pub shell_chars-Shows :
    (cs line : List ℕ) (p : ℕ) (old : ℕ → ℕ) (m : Machine) (s : Screen)
    → Shows p old line s
    → AreKeys cs
    → length line < line_buf_size
    → p + line_buf_size < cells_end
    → (es : List Event) × (shell_chars line cs m ≡ step (edited line cs) es m)
      × Shows p old (edited line cs) (render s es).0
      × (length (edited line cs) < line_buf_size)
unfolding shell_chars render
shell_chars-Shows [] line p old m s h keys short room = ([], refl, h, short)
shell_chars-Shows (c ∷ cs) line p old m s h (ne, live, keys) short room =
    let (es, here, h', short') = shell_char-Echoed p old line c m s h ne live short room in
    let (es', later, h'', short'') =
      shell_chars-Shows cs (key line c) p old m (render s es).0 h' keys short' room in
    (es ++ es', rw (here, later) refl, rw (render-append es es' s) h'', short'')
