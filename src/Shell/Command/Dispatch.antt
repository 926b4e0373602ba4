-- ===== src/Shell/Command/Dispatch.antt =====
-- Which lines reach which command of kernel/shell.c.
use rink_os.Prelude.{
  ℕ, ◌≡◌, ◌≢◌, refl, ap, false, Bool-cases, Option-cases, inl, inr, some, none, List, [], ◌∷◌, ◌++◌,
  arith, codes, ◌==◌, if◌then◌else◌,
}
use rink_os.Machine.{C}
use rink_os.Shell.{str_eq}
use rink_os.Shell.Words.{NoSpace, str_eq_iff}
use rink_os.Shell.Files.{cmd_write, cmd_cat, cmd_mv, cmd_delete, cmd_append, cmd_stat}
use rink_os.Shell.Folders.{cmd_ls, cmd_pwd, cmd_rmdir, cmd_df, cmd_mkdir, cmd_cd}
use rink_os.Shell.Status.{
  cmd_uptime, cmd_top, cmd_spawn, cmd_kill, cmd_help, cmd_echo, cmd_meminfo, debug, cmd_info,
  cmd_clear, reboot, shutdown,
}
use rink_os.Shell.History.{cmd_history}
use rink_os.Shell.Command.{after_word, unknown, dispatch_folders, dispatch_files, dispatch}

-- The commands that stand alone on a line.
abbrev pub plain_commands : List (List ℕ × C (Unit {0}))
plain_commands =
    (codes "help", cmd_help)
    ∷ (codes "clear", cmd_clear)
    ∷ (codes "info", cmd_info)
    ∷ (codes "meminfo", cmd_meminfo)
    ∷ (codes "reboot", reboot)
    ∷ (codes "shutdown", shutdown)
    ∷ (codes "uptime", cmd_uptime)
    ∷ (codes "debug", debug)
    ∷ (codes "ls", cmd_ls)
    ∷ (codes "top", cmd_top)
    ∷ (codes "spawn", cmd_spawn)
    ∷ (codes "df", cmd_df)
    ∷ (codes "pwd", cmd_pwd)
    ∷ (codes "history", cmd_history)
    ∷ []

-- The commands that take the rest of the line.
abbrev pub word_commands : List (List ℕ × (List ℕ → C (Unit {0})))
word_commands =
    (codes "echo", cmd_echo)
    ∷ (codes "write", cmd_write)
    ∷ (codes "cat", cmd_cat)
    ∷ (codes "delete", cmd_delete)
    ∷ (codes "append", cmd_append)
    ∷ (codes "kill", cmd_kill)
    ∷ (codes "stat", cmd_stat)
    ∷ (codes "mv", cmd_mv)
    ∷ (codes "mkdir", cmd_mkdir)
    ∷ (codes "rmdir", cmd_rmdir)
    ∷ (codes "cd", cmd_cd)
    ∷ []

abbrev pub AllPlain : List (List ℕ × C (Unit {0})) → Type 0
AllPlain [] = Unit
AllPlain ((name, command) ∷ rest) = (dispatch name ≡ command) × AllPlain rest

abbrev pub AllWords : List (List ℕ × (List ℕ → C (Unit {0}))) → Type 0
AllWords [] = Unit
AllWords ((name, command) ∷ rest) =
    (dispatch name ≡ command [])
    × ((args : List ℕ) → dispatch (name ++ b' ' ∷ args) ≡ command (b' ' ∷ args))
    × AllWords rest

dispatch-plain : AllPlain plain_commands
unfolding dispatch dispatch_files dispatch_folders str_eq after_word
dispatch-plain = (
  refl,
  (
    refl,
    (
      refl,
      (refl, (refl, (refl, (refl, (refl, (refl, (refl, (refl, (refl, (refl, (refl, tt))))))))))),
    ),
  ),
)

dispatch-words : AllWords word_commands
unfolding dispatch dispatch_files dispatch_folders str_eq after_word
dispatch-words = (
  refl,
  λ args. refl,
  (
    refl,
    λ args. refl,
    (
      refl,
      λ args. refl,
      (
        refl,
        λ args. refl,
        (
          refl,
          λ args. refl,
          (
            refl,
            λ args. refl,
            (
              refl,
              λ args. refl,
              (
                refl,
                λ args. refl,
                (refl, λ args. refl, (refl, λ args. refl, (refl, λ args. refl, tt))),
              ),
            ),
          ),
        ),
      ),
    ),
  ),
)

-- The bytes before the first space.
abbrev pub first_word : List ℕ → List ℕ
first_word [] = []
first_word (c ∷ line) = if c == b' ' then [] else c ∷ first_word line

after_word-first_word :
    (word line args : List ℕ)
    → NoSpace word
    → after_word word line ≡ some args
    → first_word line ≡ word
unfolding after_word
after_word-first_word [] [] args h e = refl
after_word-first_word [] (c ∷ line) args h e = ground arith
after_word-first_word (w ∷ word) [] args h e = absurd (ground arith)
after_word-first_word (w ∷ word) (c ∷ line) args (no_space, h) e =
    let q : c ≡ w = ground arith in
    let rest : after_word word line ≡ some args = ground arith in
    let later = after_word-first_word word line args h rest in
    let live : (w == b' ') ≡ false = ground (arith, no_space) in
    rw q (rw live (ap (λ s. w ∷ s) later))

not_line : (line name : List ℕ) → line ≢ name → str_eq line name ≡ false
not_line line name ne = elim (Bool-cases (str_eq line name)) [
  | inl same ↦ absurd (ne ((str_eq_iff line name).0 same))
  | inr other ↦ other
]

not_word :
    (word line : List ℕ) → NoSpace word → first_word line ≢ word → after_word word line ≡ none
not_word word line h ne = elim (Option-cases (after_word word line)) [
  | inl other ↦ other
  | inr (args, same) ↦ absurd (ne (after_word-first_word word line args h same))
]

-- The line is none of the plain commands, and does not begin with one of the words.
abbrev NoPlain : List ℕ → List (List ℕ × C (Unit {0})) → Type 0
NoPlain line [] = Unit
NoPlain line ((name, command) ∷ rest) = (line ≢ name) × NoPlain line rest

abbrev NoWord : List ℕ → List (List ℕ × (List ℕ → C (Unit {0}))) → Type 0
NoWord line [] = Unit
NoWord line ((name, command) ∷ rest) = (first_word line ≢ name) × NoWord line rest

dispatch-unknown :
    (line : List ℕ)
    → NoPlain line plain_commands
    → NoWord line word_commands
    → dispatch line ≡ unknown line
unfolding dispatch dispatch_files dispatch_folders
dispatch-unknown line
      (
        help,
        (
          clear,
          (
            info,
            (
              meminfo,
              (
                no_reboot,
                (
                  no_shutdown,
                  (uptime, (no_debug, (ls, (top, (spawn, (df, (pwd, (history, _)))))))),
                ),
              ),
            ),
          ),
        ),
      )
      (echo, (write, (cat, (delete, (append, (kill, (stat, (mv, (mkdir, (rmdir, (cd, _))))))))))) =
    rw
      (
        not_line line (codes "help") help,
        not_line line (codes "clear") clear,
        not_word (codes "echo") line (omega arith) echo,
        not_line line (codes "info") info,
        not_line line (codes "meminfo") meminfo,
        not_line line (codes "reboot") no_reboot,
        not_line line (codes "shutdown") no_shutdown,
        not_line line (codes "uptime") uptime,
        not_line line (codes "debug") no_debug,
        not_line line (codes "ls") ls,
        not_word (codes "write") line (omega arith) write,
        not_word (codes "cat") line (omega arith) cat,
        not_word (codes "delete") line (omega arith) delete,
        not_word (codes "append") line (omega arith) append,
        not_line line (codes "top") top,
        not_line line (codes "spawn") spawn,
        not_word (codes "kill") line (omega arith) kill,
        not_word (codes "stat") line (omega arith) stat,
        not_word (codes "mv") line (omega arith) mv,
        not_word (codes "mkdir") line (omega arith) mkdir,
        not_word (codes "rmdir") line (omega arith) rmdir,
        not_line line (codes "df") df,
        not_word (codes "cd") line (omega arith) cd,
        not_line line (codes "pwd") pwd,
        not_line line (codes "history") history,
      )
      refl

-- The chain of run_command sends the name of each of the 14 plain commands to that command, each
-- of the 11 words, alone or before a space and any text, to the command of that word with what
-- stands behind it, and a line that is none of those names and whose first word is none of those
-- words to the report of an unknown command: no command hides another.
pub dispatch-commands :
    AllPlain plain_commands
    × AllWords word_commands
    × ((line : List ℕ)
        → NoPlain line plain_commands
        → NoWord line word_commands
        → dispatch line ≡ unknown line)
dispatch-commands = (dispatch-plain, dispatch-words, dispatch-unknown)
