-- ===== src/Shell/History.antt =====
-- The command history of kernel/shell.c.
pub mod Recent
pub mod Latest
use rink_os.Prelude.{ℕ, zero, suc, ◌+◌, ◌-◌, List, [], ◌∷◌, ltb, ◌==◌, length, codes, if◌then◌else◌}
use rink_os.Machine.{Machine, C, ◌>>=◌, ◌>>◌, skip, machine, print}
use rink_os.Shell.{line_buf_size, str_copy_local, print_all}

abbrev pub history_size : ℕ
history_size = 16

abbrev pub Lines : Type 0
Lines = ℕ → List ℕ

abbrev pub set_line : Lines → ℕ → List ℕ → Lines
set_line h i line j = if j == i then line else h j

-- `str_copy_local(history[i], history[i + 1], LINE_BUF_SIZE)` from `i` on, `n` times.
unfoldable pub shift_lines : ℕ → ℕ → Lines → Lines
shift_lines zero i h = h
shift_lines (suc n) i h =
    shift_lines n (i + 1) (set_line h i (str_copy_local (h (i + 1)) line_buf_size))

unfoldable pub history_add : List ℕ → Machine → Machine
history_add line m = if length line == 0 then m else record m {
  history =
      set_line (shift_lines (history_size - 1) 0 m.history) (history_size - 1)
        (str_copy_local line line_buf_size);
  history_count = if ltb m.history_count history_size then m.history_count + 1 else m.history_count;
}

-- The loop of `cmd_history` from `i` on, `n` times.
unfoldable pub print_lines : ℕ → ℕ → Lines → C (Unit {0})
print_lines zero i h = skip
print_lines (suc n) i h = do print_all (codes "  " ∷ h i ∷ codes "\n" ∷ []); print_lines n (i + 1) h

unfoldable pub cmd_history : C (Unit {0})
cmd_history m = print_lines m.history_count (history_size - m.history_count) m.history m
