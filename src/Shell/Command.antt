-- ===== src/Shell/Command.antt =====
-- `run_command` of kernel/shell.c.
pub mod Dispatch
use rink_os.Prelude.{ℕ, ◌+◌, Option, none, some, List, [], ◌∷◌, ◌==◌, codes, length, if◌then◌else◌}
use rink_os.Machine.{C, ◌>>=◌, ◌>>◌, skip, change, print}
use rink_os.Shell.{str_eq, print_all}
use rink_os.Shell.Files.{cmd_write, cmd_cat, cmd_mv, cmd_delete, cmd_append, cmd_stat}
use rink_os.Shell.Folders.{cmd_ls, cmd_pwd, cmd_rmdir, cmd_df, cmd_mkdir, cmd_cd}
use rink_os.Shell.Status.{
  cmd_uptime, cmd_top, cmd_spawn, cmd_kill, cmd_help, cmd_echo, cmd_meminfo, debug, cmd_info,
  cmd_clear, reboot, shutdown,
}
use rink_os.Shell.History.{history_add, cmd_history}

-- `line[0] == 'c' && ... && (line[n] == ' ' || line[n] == '\0')`: what stands behind the word.
unfoldable pub after_word : List ℕ → List ℕ → Option (List ℕ)
after_word [] [] = some []
after_word [] (c ∷ line) = if c == b' ' then some (c ∷ line) else none
after_word (w ∷ word) [] = none
after_word (w ∷ word) (c ∷ line) = let rest = after_word word line in if c == w then rest else none

-- The two forms of the tests in the chain.
abbrev pub on_line : List ℕ → List ℕ → C (Unit {0}) → C (Unit {0}) → C (Unit {0})
on_line name line command otherwise = if str_eq line name then command else otherwise

abbrev pub with_args : Option (List ℕ) → (List ℕ → C (Unit {0})) → C (Unit {0}) → C (Unit {0})
with_args none command otherwise = otherwise
with_args (some args) command otherwise = command args

abbrev pub on_word : List ℕ → List ℕ → (List ℕ → C (Unit {0})) → C (Unit {0}) → C (Unit {0})
on_word name line command otherwise = with_args (after_word name line) command otherwise

unfoldable pub unknown : List ℕ → C (Unit {0})
unknown line = print_all (codes "Unknown command: " ∷ line ∷ codes "\n" ∷ [])

-- The chain from `mv` on.
unfoldable pub dispatch_folders : List ℕ → C (Unit {0})
dispatch_folders line = on_word (codes "mv") line cmd_mv (
    on_word (codes "mkdir") line cmd_mkdir (
      on_word (codes "rmdir") line cmd_rmdir (
        on_line (codes "df") line cmd_df (
          on_word (codes "cd") line cmd_cd (
            on_line (codes "pwd") line cmd_pwd
              (on_line (codes "history") line cmd_history (unknown line)))))))

-- The chain from `write` on.
unfoldable pub dispatch_files : List ℕ → C (Unit {0})
dispatch_files line = on_word (codes "write") line cmd_write (
    on_word (codes "cat") line cmd_cat (
      on_word (codes "delete") line cmd_delete (
        on_word (codes "append") line cmd_append (
          on_line (codes "top") line cmd_top (
            on_line (codes "spawn") line cmd_spawn (
              on_word (codes "kill") line cmd_kill
                (on_word (codes "stat") line cmd_stat (dispatch_folders line))))))))

unfoldable pub dispatch : List ℕ → C (Unit {0})
dispatch line = on_line (codes "help") line cmd_help (
    on_line (codes "clear") line cmd_clear (
      on_word (codes "echo") line cmd_echo (
        on_line (codes "info") line cmd_info (
          on_line (codes "meminfo") line cmd_meminfo (
            on_line (codes "reboot") line reboot (
              on_line (codes "shutdown") line shutdown (
                on_line (codes "uptime") line cmd_uptime (
                  on_line (codes "debug") line debug
                    (on_line (codes "ls") line cmd_ls (dispatch_files line))))))))))

unfoldable pub run_command : List ℕ → C (Unit {0})
run_command line = if length line == 0 then skip else do change (history_add line); dispatch line
