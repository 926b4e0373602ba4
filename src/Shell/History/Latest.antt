-- ===== src/Shell/History/Latest.antt =====
-- A run of commands and what the `history` command of kernel/shell.c shows of it.
use rink_os.Prelude.{
  ℕ, zero, suc, ◌+◌, ◌-◌, ◌≤◌, ◌<◌, ◌≡◌, ◌≢◌, ◌∙◌, refl, sym, ap, Bool-cases, inl, inr, List, [],
  ◌∷◌, ◌++◌, append-nil, append_assoc, arith, length, length-append, drop, codes, ltb,
  if◌then◌else◌,
}
use rink_os.Machine.{Machine, Event, shows, step}
use rink_os.Shell.{line_buf_size}
use rink_os.Shell.History.{history_size, Lines, history_add, print_lines, cmd_history}
use rink_os.Shell.History.Recent.{
  lines_at, recent, IsValid, history_add-recent, history_add-IsValid,
}

unfoldable pub history_add_all : List (List ℕ) → Machine → Machine
history_add_all [] m = m
history_add_all (line ∷ lines) m = history_add_all lines (history_add line m)

-- The last sixteen.
abbrev pub latest : List (List ℕ) → List (List ℕ)
latest lines = drop (length lines - history_size) lines

-- Lines as the editor passes them on: not empty, and shorter than its buffer.
abbrev pub AreLines : List (List ℕ) → Type 0
AreLines [] = Unit
AreLines (line ∷ lines) = (length line ≢ 0) × (length line < line_buf_size) × AreLines lines

abbrev pub shown : List (List ℕ) → List Event
shown [] = []
shown (line ∷ lines) = shows (codes "  ") ∷ shows line ∷ shows (codes "\n") ∷ shown lines

print_lines-shown :
    (n i : ℕ) (h : Lines) (m : Machine) → print_lines n i h m ≡ step tt (shown (lines_at n i h)) m
unfolding print_lines
print_lines-shown zero i h m = refl
print_lines-shown (suc n) i h m = rw (print_lines-shown n (i + 1) h m) refl

cmd_history-shown : (m : Machine) → cmd_history m ≡ step tt (shown (recent m)) m
unfolding cmd_history
cmd_history-shown m =
    rw (print_lines-shown m.history_count (history_size - m.history_count) m.history m) refl

length-lines_at : (n i : ℕ) (h : Lines) → length (lines_at n i h) ≡ n
length-lines_at zero i h = refl
length-lines_at (suc n) i h = ap suc (length-lines_at n (i + 1) h)

-- One line is taken from the front before or after the rest is appended.
latest-full :
    (kept : List (List ℕ)) (line : List ℕ) (lines : List (List ℕ))
    → length kept ≡ history_size
    → latest (drop 1 kept ++ line ∷ lines) ≡ latest (kept ++ line ∷ lines)
latest-full [] line lines all = absurd (omega arith)
latest-full (x ∷ kept) line lines all =
    let n = length (kept ++ line ∷ lines) in
    let both = length-append kept (line ∷ lines) in
    let q : suc n - history_size ≡ suc (n - history_size) = omega (arith, both) in
    ap (λ k. drop k (x ∷ kept ++ line ∷ lines)) (sym q)

latest-step :
    (kept : List (List ℕ)) (line : List ℕ) (lines : List (List ℕ))
    → length kept ≤ history_size
    → latest ((if ltb (length kept) history_size then kept else drop 1 kept) ++ line ∷ lines)
      ≡ latest (kept ++ line ∷ lines)
latest-step kept line lines le = elim (Bool-cases (ltb (length kept) history_size)) [
  | inl room ↦ rw room refl
  | inr full ↦ rw full (latest-full kept line lines (ground arith))
]

latest-few : (kept : List (List ℕ)) → length kept ≤ history_size → latest kept ≡ kept
latest-few kept le = let q : length kept - history_size ≡ 0 = omega arith in ap (λ k. drop k kept) q

history_add_all-recent :
    (lines : List (List ℕ)) (m : Machine)
    → IsValid m
    → AreLines lines
    → recent (history_add_all lines m) ≡ latest (recent m ++ lines)
unfolding history_add_all
history_add_all-recent [] m v h =
    let n = length-lines_at m.history_count (history_size - m.history_count) m.history in
    sym (ap latest (append-nil (recent m)) ∙ latest-few (recent m) (rw n v.fits))
history_add_all-recent (line ∷ lines) m v (some_byte, short, h) =
    let n = length-lines_at m.history_count (history_size - m.history_count) m.history in
    let kept = if ltb m.history_count history_size then recent m else drop 1 (recent m) in
    history_add_all-recent lines (history_add line m) (history_add-IsValid m line v some_byte short)
      h
    ∙ ap (λ ls. latest (ls ++ lines)) (history_add-recent m line v some_byte short)
    ∙ ap latest (append_assoc kept (line ∷ []) lines)
    ∙ rw n at (latest-step (recent m) line lines (rw n v.fits))

-- After any run of lines that are not empty and fit the buffer, added to an empty history, the
-- history command shows the last sixteen of them, oldest first, each indented on a line of its
-- own, and changes nothing.
pub cmd_history-history_add :
    (lines : List (List ℕ)) (m : Machine)
    → IsValid m
    → m.history_count ≡ 0
    → AreLines lines
    → cmd_history (history_add_all lines m)
      ≡ step tt (shown (latest lines)) (history_add_all lines m)
cmd_history-history_add lines m v empty h =
    let nothing : recent m ≡ [] = rw empty refl in
    cmd_history-shown (history_add_all lines m)
    ∙ ap (λ ls. step tt (shown ls) (history_add_all lines m))
        (history_add_all-recent lines m v h ∙ ap (λ ls. latest (ls ++ lines)) nothing)
