-- ===== src/Shell/Run.antt =====
-- Every command of kernel/shell.c keeps the machine in order.
use rink_os.Prelude.{
  ℕ, zero, suc, ◌+◌, ◌-◌, ◌≡◌, refl, false, Bool-cases, inl, inr, List, [], ◌∷◌, codes,
}
use rink_os.Print.{read_id}
use rink_os.Files.Folders.{fs_getcwd, fs_list}
use rink_os.Tasks.{Kill, refused, killed, corrupted, task_kill}
use rink_os.Tasks.Inv.{task_create_named-IsValid, task_kill-IsValid}
use rink_os.Machine.{Machine}
use rink_os.Shell.{fs_name_len, is_empty, skip_space, print_all}
use rink_os.Shell.Files.{cmd_write, cmd_cat, cmd_mv, cmd_delete, cmd_append, cmd_stat}
use rink_os.Shell.Folders.{cmd_ls, cmd_pwd, cmd_rmdir, cmd_df, cmd_mkdir, cmd_cd}
use rink_os.Shell.Status.{
  cmd_uptime, cmd_top, count_spawn, spawn_name, cmd_spawn, on_kill, starts_with_digit, cmd_kill,
  cmd_help, cmd_echo, cmd_meminfo, debug, cmd_info, vga_enable_cursor, cmd_clear, reboot, shutdown,
}
use rink_os.Shell.History.{Lines, print_lines, cmd_history}
use rink_os.Shell.Command.{unknown}
use rink_os.Shell.Safe.{IsSafe, SafeStep, Keeps, Keeps-bind, Keeps-print_all, Keeps-file_command}

pub Keeps-files :
    (args : List ℕ)
    → Keeps (cmd_write args)
      × Keeps (cmd_cat args)
      × Keeps (cmd_mv args)
      × Keeps (cmd_delete args)
      × Keeps (cmd_append args)
      × Keeps (cmd_stat args)
unfolding cmd_write cmd_cat cmd_mv cmd_delete cmd_append cmd_stat
Keeps-files args = (
  Keeps-file_command _ _ _ _ _,
  Keeps-file_command _ _ _ _ _,
  Keeps-file_command _ _ _ _ _,
  Keeps-file_command _ _ _ _ _,
  Keeps-file_command _ _ _ _ _,
  Keeps-file_command _ _ _ _ _,
)

pub Keeps-folders :
    (args : List ℕ) → Keeps (cmd_mkdir args) × Keeps (cmd_rmdir args) × Keeps (cmd_cd args)
unfolding cmd_mkdir cmd_rmdir cmd_cd
Keeps-folders args =
    (Keeps-file_command _ _ _ _ _, Keeps-file_command _ _ _ _ _, Keeps-file_command _ _ _ _ _)

-- Commands that print what they read of the machine.
pub Keeps-reports :
    Keeps cmd_pwd
    × Keeps cmd_df
    × Keeps cmd_uptime
    × Keeps cmd_top
    × Keeps cmd_meminfo
    × Keeps debug
    × Keeps cmd_info
    × Keeps cmd_clear
    × Keeps cmd_help
unfolding cmd_pwd cmd_df cmd_uptime cmd_top cmd_meminfo debug cmd_info cmd_clear vga_enable_cursor
    cmd_help
Keeps-reports = (
  record { runs = λ m safe. (safe, refl) },
  record { runs = λ m safe. (safe, refl) },
  record { runs = λ m safe. (safe, refl) },
  record { runs = λ m safe. (safe, refl) },
  record { runs = λ m safe. (safe, refl) },
  record { runs = λ m safe. (safe, refl) },
  record { runs = λ m safe. (safe, refl) },
  record { runs = λ m safe. (safe, refl) },
  record { runs = λ m safe. (safe, refl) },
)

pub Keeps-cmd_ls : Keeps cmd_ls
unfolding cmd_ls
Keeps-cmd_ls = record {
  runs = λ m safe.
      let heading = codes "Contents of " ∷ fs_getcwd m.volume fs_name_len ∷ codes ":\n" ∷ [] in
      (Keeps-bind (print_all heading) _ (Keeps-print_all heading)
          λ _. Keeps-file_command false [] fs_list [] (λ text. text ∷ [])).runs
        m safe;
}

pub Keeps-cmd_spawn : Keeps cmd_spawn
unfolding cmd_spawn
Keeps-cmd_spawn = record {
  runs = λ m safe.
      let name = spawn_name (count_spawn m).spawn_count in
      (
        record {
          tasks = task_create_named-IsValid m.counter_task name m.sched safe.tasks;
          history = record { fits = safe.history.fits; short = safe.history.short };
        },
        refl,
      );
}

SafeStep-on_kill :
    (id : ℕ) (m : Machine) (k : Kill)
    → IsSafe m
    → task_kill id m.sched ≡ k
    → SafeStep m (on_kill id k m)
unfolding on_kill
SafeStep-on_kill id m refused safe e = (safe, refl)
SafeStep-on_kill id m (killed s) safe e = (
  record {
    tasks = task_kill-IsValid id m.sched s safe.tasks e;
    history = record { fits = safe.history.fits; short = safe.history.short };
  },
  refl,
)
SafeStep-on_kill id m corrupted safe e = tt

pub Keeps-cmd_kill : (args : List ℕ) → Keeps (cmd_kill args)
unfolding cmd_kill
Keeps-cmd_kill args = record {
  runs = λ m safe. elim (Bool-cases (is_empty (skip_space args))) [
    | inl nothing ↦ rw nothing (safe, refl)
    | inr more ↦ elim (Bool-cases (starts_with_digit (skip_space args))) [
      | inr letter ↦ rw (more, letter) (safe, refl)
      | inl digit ↦
          let id = read_id 0 (skip_space args) in
          rw (more, digit) (SafeStep-on_kill id m (task_kill id m.sched) safe refl)
    ]
  ];
}

Keeps-print_lines : (n i : ℕ) (h : Lines) → Keeps (print_lines n i h)
unfolding print_lines
Keeps-print_lines zero i h = record { runs = λ m safe. (safe, refl) }
Keeps-print_lines (suc n) i h =
    let line = codes "  " ∷ h i ∷ codes "\n" ∷ [] in
    Keeps-bind (print_all line) _ (Keeps-print_all line) λ _. Keeps-print_lines n (i + 1) h

pub Keeps-others :
    Keeps cmd_history
    × Keeps reboot
    × Keeps shutdown
    × ((args : List ℕ) → Keeps (cmd_echo args))
    × ((line : List ℕ) → Keeps (unknown line))
unfolding cmd_history cmd_echo unknown
Keeps-others = (
  record {
    runs =
        λ m safe. (Keeps-print_lines m.history_count (16 - m.history_count) m.history).runs m safe;
  },
  record { runs = λ m safe. tt },
  record { runs = λ m safe. (safe, refl) },
  λ args. record { runs = λ m safe. (safe, refl) },
  λ line. record { runs = λ m safe. (safe, refl) },
)
