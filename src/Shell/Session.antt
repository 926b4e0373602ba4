-- ===== src/Shell/Session.antt =====
-- A session of kernel/shell.c: any keys from any machine in order.
use rink_os.Prelude.{
  ℕ, ◌-◌, ◌≤◌, ◌<◌, ◌≡◌, ◌∙◌, refl, false, Bool-cases, inl, inr, List, [], ◌∷◌, arith, length,
  length-append, length-take, ltb, codes, ◌==◌,
}
use rink_os.Machine.{
  Machine, Event, shows, Step, step, stopped, C, after, and_then, ◌>>◌, done, change, print,
  until_nul,
}
use rink_os.Shell.{line_buf_size}
use rink_os.Shell.History.{history_add}
use rink_os.Shell.History.Recent.{history_add-IsValid}
use rink_os.Shell.Command.{dispatch_folders, dispatch_files, dispatch, run_command}
use rink_os.Shell.Editor.{prompt, shell_char, shell_chars}
use rink_os.Shell.Safe.{IsSafe, SafeStep, SafeStep-and_then, Keeps, Keeps-on_line, Keeps-on_word}
use rink_os.Shell.Run.{
  Keeps-files, Keeps-folders, Keeps-reports, Keeps-cmd_ls, Keeps-cmd_spawn, Keeps-cmd_kill,
  Keeps-others,
}

dispatch_folders-Keeps : (line : List ℕ) → Keeps (dispatch_folders line)
unfolding dispatch_folders
dispatch_folders-Keeps line =
    Keeps-on_word (codes "mv") line _ _ (λ args. (Keeps-files args).2)
      (Keeps-on_word (codes "mkdir") line _ _ (λ args. (Keeps-folders args).0)
        (Keeps-on_word (codes "rmdir") line _ _ (λ args. (Keeps-folders args).1)
          (Keeps-on_line (codes "df") line _ _ Keeps-reports.1 (
            Keeps-on_word (codes "cd") line _ _ (λ args. (Keeps-folders args).2)
              (Keeps-on_line (codes "pwd") line _ _ Keeps-reports.0
                (Keeps-on_line (codes "history") line _ _ Keeps-others.0 (Keeps-others.4 line)))))))

dispatch_files-Keeps : (line : List ℕ) → Keeps (dispatch_files line)
unfolding dispatch_files
dispatch_files-Keeps line =
    Keeps-on_word (codes "write") line _ _ (λ args. (Keeps-files args).0)
      (Keeps-on_word (codes "cat") line _ _ (λ args. (Keeps-files args).1)
        (Keeps-on_word (codes "delete") line _ _ (λ args. (Keeps-files args).3)
          (Keeps-on_word (codes "append") line _ _ (λ args. (Keeps-files args).4)
            (Keeps-on_line (codes "top") line _ _ Keeps-reports.3 (
              Keeps-on_line (codes "spawn") line _ _ Keeps-cmd_spawn (
                Keeps-on_word (codes "kill") line _ _ Keeps-cmd_kill (
                  Keeps-on_word (codes "stat") line _ _ (λ args. (Keeps-files args).5)
                    (dispatch_folders-Keeps line))))))))

dispatch-Keeps : (line : List ℕ) → Keeps (dispatch line)
unfolding dispatch
dispatch-Keeps line = Keeps-on_line (codes "help") line _ _ Keeps-reports.8 (
    Keeps-on_line (codes "clear") line _ _ Keeps-reports.7 (
      Keeps-on_word (codes "echo") line _ _ Keeps-others.3 (
        Keeps-on_line (codes "info") line _ _ Keeps-reports.6 (
          Keeps-on_line (codes "meminfo") line _ _ Keeps-reports.4 (
            Keeps-on_line (codes "reboot") line _ _ Keeps-others.1 (
              Keeps-on_line (codes "shutdown") line _ _ Keeps-others.2 (
                Keeps-on_line (codes "uptime") line _ _ Keeps-reports.2 (
                  Keeps-on_line (codes "debug") line _ _ Keeps-reports.5 (
                    Keeps-on_line (codes "ls") line _ _ Keeps-cmd_ls
                      (dispatch_files-Keeps line))))))))))

history_add-frame :
    (line : List ℕ) (m : Machine)
    → ((history_add line m).sched ≡ m.sched) × ((history_add line m).timer ≡ m.timer)
unfolding history_add
history_add-frame line m = (ground arith, ground arith)

history_add-IsSafe :
    (line : List ℕ) (m : Machine)
    → (length line == 0) ≡ false
    → length line < line_buf_size
    → IsSafe m
    → SafeStep {A = Unit {0}} m (change (history_add line) m)
history_add-IsSafe line m more short safe =
    let (same, time) = history_add-frame line m in
    (
      record {
        tasks = rw same safe.tasks;
        history = history_add-IsValid m line safe.history (ground (arith, more)) short;
      },
      time,
    )

-- A command line that the editor's buffer holds.
pub run_command-SafeStep :
    (line : List ℕ) (m : Machine)
    → length line < line_buf_size
    → IsSafe m
    → SafeStep m (run_command line m)
unfolding run_command
run_command-SafeStep line m short safe = elim (Bool-cases (length line == 0)) [
  | inl empty ↦ rw empty (safe, refl)
  | inr more ↦ rw more (
      SafeStep-and_then m (change (history_add line) m) (λ _. dispatch line)
        (history_add-IsSafe line m more short safe) λ _. dispatch-Keeps line)
]

length-until_nul : (s : List ℕ) → length (until_nul s) ≤ length s
unfolding until_nul
length-until_nul [] = omega arith
length-until_nul (c ∷ s) = ground (arith, length-until_nul s)

-- What holds of the shell between two keys.
abbrev pub InOrder : Machine → Step (List ℕ) → Type 0
InOrder m (step line es m') = IsSafe m' × (m'.timer ≡ m.timer) × (length line < line_buf_size)
InOrder m (stopped x) = Unit

InOrder-after :
    (m m' : Machine) (es : List Event) (s : Step (List ℕ))
    → m'.timer ≡ m.timer
    → InOrder m' s
    → InOrder m (after es s)
InOrder-after m m' es (step a es' m'') same (safe, time, short) = (safe, time ∙ same, short)
InOrder-after m m' es (stopped x) same h = tt

-- Enter runs the line and leaves an empty one.
enter :
    (m : Machine) (es : List Event) (s : Step (Unit {0}))
    → SafeStep m s
    → InOrder m (after es (and_then s λ _. print prompt >> done []))
enter m es (step a es' m') (safe, time) = (safe, time, omega arith)
enter m es (stopped x) h = tt

pub shell_char-InOrder :
    (line : List ℕ) (c : ℕ) (m : Machine)
    → length line < line_buf_size
    → IsSafe m
    → InOrder m (shell_char line c m)
unfolding shell_char
shell_char-InOrder line c m short safe =
    let less = length-take (length line - 1) line in
    let more = length-append line (c ∷ []) in
    elim (Bool-cases (c == b'\n')) [
      | inl is_enter ↦
          let fits : length (until_nul line) < line_buf_size =
            omega (arith, length-until_nul line) in
          rw is_enter (
            enter m (shows (codes "\n") ∷ []) (run_command (until_nul line) m)
              (run_command-SafeStep (until_nul line) m fits safe))
      | inr not_enter ↦ elim (Bool-cases (c == 8)) [
        | inl is_back ↦ elim (Bool-cases (ltb 0 (length line))) [
          | inl some_byte ↦ rw (not_enter, is_back, some_byte) (safe, refl, omega (arith, less))
          | inr empty ↦ rw (not_enter, is_back, empty) (safe, refl, short)
        ]
        | inr other ↦ elim (Bool-cases (ltb (length line) (line_buf_size - 1))) [
          | inl room ↦ rw (not_enter, other, room) (safe, refl, ground (arith, more))
          | inr full ↦ rw (not_enter, other, full) (safe, refl, short)
        ]
      ]
    ]

InOrder-chars :
    (m : Machine) (s : Step (List ℕ)) (k : List ℕ → C (List ℕ))
    → InOrder m s
    → ((line : List ℕ) (m' : Machine)
        → length line < line_buf_size
        → IsSafe m'
        → InOrder m' (k line m'))
    → InOrder m (and_then s k)
InOrder-chars m (step line es m') k (safe, time, short) h =
    InOrder-after m m' es (k line m') time (h line m' short safe)
InOrder-chars m (stopped x) k s h = tt

-- From a machine whose task table and history are in order, and a line shorter than its buffer of
-- 258 bytes, whatever is typed next, commands included: where the shell is back at its loop, the
-- task table and the history are in order, the clock is untouched and the line is shorter than its
-- buffer.
pub shell_chars-InOrder :
    (cs line : List ℕ) (m : Machine)
    → length line < line_buf_size
    → IsSafe m
    → InOrder m (shell_chars line cs m)
unfolding shell_chars
shell_chars-InOrder [] line m short safe = (safe, refl, short)
shell_chars-InOrder (c ∷ cs) line m short safe =
    InOrder-chars m (shell_char line c m) (λ line'. shell_chars line' cs)
      (shell_char-InOrder line c m short safe)
      λ line' m' short' safe'. shell_chars-InOrder cs line' m' short' safe'
