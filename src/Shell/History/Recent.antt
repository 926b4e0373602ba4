-- ===== src/Shell/History/Recent.antt =====
-- The history of kernel/shell.c as the list of the latest lines.
use rink_os.Prelude.{
  ℕ, zero, suc, ◌+◌, ◌-◌, ◌≤◌, ◌<◌, ◌≡◌, ◌≢◌, ◌∙◌, refl, sym, ap, ap₂, false, Bool-cases, inl, inr,
  List, [], ◌∷◌, ◌++◌, arith, length, drop, take, ltb, leb, ◌&&◌, ◌==◌, if◌then◌else◌,
}
use rink_os.Machine.{Machine}
use rink_os.Shell.{line_buf_size, str_copy_local}
use rink_os.Shell.History.{history_size, Lines, set_line, shift_lines, history_add}

-- The lines at `i` and the `n - 1` places behind it.
abbrev pub lines_at : ℕ → ℕ → Lines → List (List ℕ)
lines_at zero i h = []
lines_at (suc n) i h = h i ∷ lines_at n (i + 1) h

-- The lines kept, oldest first.
abbrev pub recent : Machine → List (List ℕ)
recent m = lines_at m.history_count (history_size - m.history_count) m.history

-- No more lines than places, each as long as a place holds.
pub record IsValid (m : Machine) : Type 0 where
  pub fits : m.history_count ≤ history_size
  pub short : (i : ℕ) → length (m.history i) < line_buf_size

take-all : {A : Type 0} (n : ℕ) (xs : List A) → length xs ≤ n → take n xs ≡ xs
take-all zero [] le = refl
take-all zero (x ∷ xs) le = absurd (omega arith)
take-all (suc n) [] le = refl
take-all (suc n) (x ∷ xs) le = ap (λ ys. x ∷ ys) (take-all n xs (omega arith))

copy-short : (s : List ℕ) → length s < line_buf_size → str_copy_local s line_buf_size ≡ s
copy-short s lt = take-all 257 s (omega arith)

set_line-short :
    (h : Lines) (i : ℕ) (line : List ℕ)
    → ((k : ℕ) → length (h k) < line_buf_size)
    → length line < line_buf_size
    → (k : ℕ) → length (set_line h i line k) < line_buf_size
set_line-short h i line short lt k = elim (Bool-cases (k == i)) [
  | inl at_i ↦ rw at_i lt
  | inr other ↦ rw other (short k)
]

shift_lines-lem :
    (n i : ℕ) (h : Lines) (j : ℕ)
    → ((k : ℕ) → length (h k) < line_buf_size)
    → shift_lines n i h j ≡ (if leb i j && ltb j (i + n) then h (j + 1) else h j)
unfolding shift_lines
shift_lines-lem zero i h j short = ground arith
shift_lines-lem (suc n) i h j short =
    let copied = copy-short (h (i + 1)) (short (i + 1)) in
    let h₁ : Lines = set_line h i (h (i + 1)) in
    let short₁ : ((k : ℕ) → length (h₁ k) < line_buf_size) =
      λ k. set_line-short h i (h (i + 1)) short (short (i + 1)) k in
    let at_i : j ≡ i → h (i + 1) ≡ h (j + 1) = λ e. ap (λ k. h (k + 1)) (sym e) in
    rw copied (ground (arith, shift_lines-lem n (i + 1) h₁ j short₁, at_i))

shift_lines-short :
    (h : Lines) (j : ℕ)
    → ((k : ℕ) → length (h k) < line_buf_size)
    → length (shift_lines 15 0 h j) < line_buf_size
shift_lines-short h j short =
    rw (shift_lines-lem 15 0 h j short) (elim (Bool-cases (leb 0 j && ltb j (0 + 15))) [
      | inl inside ↦ rw inside (short (j + 1))
      | inr outside ↦ rw outside (short j)
    ])

-- The lines from `i` on, with the last of them apart.
lines_at-snoc : (n i : ℕ) (h : Lines) → lines_at (suc n) i h ≡ lines_at n i h ++ h (i + n) ∷ []
lines_at-snoc zero i h = let q : i ≡ i + 0 = omega arith in ap (λ k. h k ∷ []) q
lines_at-snoc (suc n) i h =
    let q : i + 1 + n ≡ i + suc n = omega arith in
    ap (λ ls. h i ∷ ls) (lines_at-snoc n (i + 1) h ∙ ap (λ k. lines_at n (i + 1) h ++ h k ∷ []) q)

lines_at-shifted :
    (n i : ℕ) (h h' : Lines)
    → ((k : ℕ) → k < i + n → h' k ≡ h (k + 1))
    → lines_at n i h' ≡ lines_at n (i + 1) h
lines_at-shifted zero i h h' same = refl
lines_at-shifted (suc n) i h h' same =
    ap₂ ◌∷◌ (same i (omega arith)) (lines_at-shifted n (i + 1) h h' λ k lt. same k (omega arith))

-- The places after `history_add` of a line that is not empty.
abbrev added : Lines → List ℕ → Lines
added h line =
    set_line (shift_lines (history_size - 1) 0 h) (history_size - 1)
      (str_copy_local line line_buf_size)

module _ (m : Machine) (line : List ℕ) (v : IsValid m) (some_byte : length line ≢ 0)
    (short : length line < line_buf_size) where
  added-below : (k : ℕ) → k < 15 → added m.history line k ≡ m.history (k + 1)
  added-below k lt = ground (arith, shift_lines-lem 15 0 m.history k v.short)

  added-last : added m.history line 15 ≡ line
  added-last = copy-short line short

  lines_at-added :
      (n : ℕ)
      → n ≤ 15
      → lines_at (suc n) (15 - n) (added m.history line)
        ≡ lines_at n (15 - n + 1) m.history ++ line ∷ []
  lines_at-added n le =
      let q : 15 - n + n ≡ 15 = omega arith in
      lines_at-snoc n (15 - n) (added m.history line)
      ∙ ap₂ (λ ls l. ls ++ l ∷ [])
          (lines_at-shifted n (15 - n) m.history (added m.history line)
            λ k lt. added-below k (omega arith))
          (ap (added m.history line) q ∙ added-last)

  recent-grown :
      m.history_count ≤ 15
      → lines_at (m.history_count + 1) (16 - (m.history_count + 1)) (added m.history line)
        ≡ recent m ++ line ∷ []
  recent-grown le =
      let c = m.history_count in
      let one_more : c + 1 ≡ suc c = omega arith in
      let from : 16 - suc c ≡ 15 - c = omega arith in
      let back : 15 - c + 1 ≡ 16 - c = omega arith in
      ap (λ n. lines_at n (16 - n) (added m.history line)) one_more
      ∙ ap (λ i. lines_at (suc c) i (added m.history line)) from
      ∙ lines_at-added c le
      ∙ ap (λ i. lines_at c i m.history ++ line ∷ []) back

  recent-full :
      m.history_count ≡ 16
      → lines_at m.history_count (16 - m.history_count) (added m.history line)
        ≡ drop 1 (recent m) ++ line ∷ []
  recent-full all = rw (all, lines_at-added 15 (omega arith)) refl

  pub history_add-recent :
      recent (history_add line m)
      ≡ (if ltb m.history_count history_size then recent m else drop 1 (recent m)) ++ line ∷ []
  unfolding history_add
  history_add-recent =
      let ne : (length line == 0) ≡ false = ground (arith, some_byte) in
      elim (Bool-cases (ltb m.history_count history_size)) [
        | inl room ↦ rw (ne, room) (recent-grown (ground arith))
        | inr full ↦ rw (ne, full) (recent-full (ground (arith, v.fits)))
      ]

  added-short : (i : ℕ) → length (added m.history line i) < line_buf_size
  added-short i =
      let copied : length (str_copy_local line line_buf_size) < line_buf_size =
        rw (copy-short line short) short in
      set_line-short (shift_lines 15 0 m.history) 15 (str_copy_local line line_buf_size)
        (λ k. shift_lines-short m.history k v.short) copied i

  pub history_add-IsValid : IsValid (history_add line m)
  unfolding history_add
  history_add-IsValid =
      let ne : (length line == 0) ≡ false = ground (arith, some_byte) in
      rw ne (record { fits = ground (arith, v.fits); short = added-short })
