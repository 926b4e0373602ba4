-- ===== src/Shell/Editor.antt =====
-- The loop of `shell_run` of kernel/shell.c.
pub mod Echo
use rink_os.Prelude.{ℕ, ◌-◌, List, [], ◌∷◌, ◌++◌, ltb, ◌==◌, length, take, codes, if◌then◌else◌}
use rink_os.Heap.{kmalloc}
use rink_os.Machine.{Machine, C, ◌>>=◌, ◌>>◌, done, change, until_nul, print}
use rink_os.Shell.{line_buf_size}
use rink_os.Shell.Command.{run_command}

-- The bytes of the line below `pos`, and the prompt.
abbrev pub prompt : List ℕ
prompt = codes "> "

-- One round of the loop, at the character that `keyboard_getchar` returns: the new bytes of the
-- line.
unfoldable pub shell_char : List ℕ → ℕ → C (List ℕ)
shell_char line c =
    if c == b'\n'
    then (do print (codes "\n"); run_command (until_nul line); print prompt; done [])
    else if c == 8
    then (if ltb 0 (length line)
        then (do print (8 ∷ []); done (take (length line - 1) line))
        else done line)
    else if ltb (length line) (line_buf_size - 1)
    then (do print (until_nul (c ∷ [])); done (line ++ c ∷ []))
    else done line

-- The rounds at a sequence of characters.
unfoldable pub shell_chars : List ℕ → List ℕ → C (List ℕ)
shell_chars line [] = done line
shell_chars line (c ∷ cs) = do line' ← shell_char line c; shell_chars line' cs

-- `kmalloc(LINE_BUF_SIZE)`, whose result is not tested.
abbrev pub alloc_line : Machine → Machine
alloc_line m = record m { sched = record m.sched { heap = (kmalloc line_buf_size m.sched.heap).1 } }

-- What `shell_run` does with the characters typed so far.
unfoldable pub shell_run : List ℕ → C (List ℕ)
shell_run cs = do change alloc_line; print prompt; shell_chars [] cs
