-- ===== src/Tests/Session.antt =====
-- Keys given to the editor of kernel/shell.c.
use rink_os.Prelude.{ℕ, ◌<◌, ◌≡◌, refl, List, [], ◌∷◌, arith, length, codes}
use rink_os.Screen.{Screen, cell}
use rink_os.Machine.{Event, step}
use rink_os.Machine.Render.{render}
use rink_os.Shell.{line_buf_size}
use rink_os.Shell.Editor.{shell_chars}
use rink_os.Shell.Editor.Echo.{Shows, shell_chars-Shows}
use rink_os.Shell.Safe.{IsSafe}
use rink_os.Tests.Tasks.{three-IsValid}
use rink_os.Tests.Shell.{fresh, fresh-IsValid}

-- The terminal behind a prompt on its first line.
abbrev prompted : Screen
prompted = record { cells = λ i. cell b' '; cursor_row = 0; cursor_col = 2 }

prompted-Shows : Shows 2 prompted.cells [] prompted
prompted-Shows = record {
  valid = omega arith;
  cursor = refl;
  line_cells = λ i lt. absurd (omega arith);
  before = λ i lt. refl;
  behind = λ i le lt. refl;
}

-- "l", "p", a backspace, "s"
abbrev keys : List ℕ
keys = b'l' ∷ b'p' ∷ 8 ∷ b's' ∷ []

shell_chars-Shows_example :
    (es : List Event) × (shell_chars [] keys fresh ≡ step (codes "ls") es fresh)
    × Shows 2 prompted.cells (codes "ls") (render prompted es).0
    × (length (codes "ls") < line_buf_size)
shell_chars-Shows_example =
    shell_chars-Shows keys [] 2 prompted.cells fresh prompted prompted-Shows (omega arith)
      (omega arith) (omega arith)

fresh-IsSafe : IsSafe fresh
fresh-IsSafe = record { tasks = three-IsValid; history = fresh-IsValid }
