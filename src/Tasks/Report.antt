-- ===== src/Tasks/Report.antt =====
-- `task_list` of kernel/task.c, as the text that it prints.
use rink_os.Prelude.{ℕ, zero, suc, ◌+◌, List, [], ◌++◌, codes, if◌then◌else◌}
use rink_os.Print.{print_uint}
use rink_os.Tasks.{Sched, is_current}

-- The line of the task `i`.
unfoldable pub task_line : Sched → ℕ → List ℕ
task_line s i =
    codes "  ["
    ++ print_uint i
    ++ codes "] "
    ++ (s.tasks i).name
    ++ (if is_current s.current_task i then codes " - running" else [])
    ++ codes "\n"

-- The loop from `i` on, with `n` slots left.
unfoldable pub list_from : ℕ → ℕ → Sched → List ℕ
unfolding task_line
list_from zero i s = []
list_from (suc n) i s =
    let rest = list_from n (i + 1) s in if (s.tasks i).used then task_line s i ++ rest else rest

unfoldable pub task_list : Sched → List ℕ
unfolding list_from
task_list s = list_from s.task_count 0 s
