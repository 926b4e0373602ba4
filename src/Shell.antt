-- ===== src/Shell.antt =====
-- kernel/shell.c: the strings that its commands take apart. A C string is the list of its bytes
-- before the NUL.
pub mod Words
pub mod Stored
pub mod Numbers
pub mod Safe
pub mod Run
pub mod Session
pub mod Files
pub mod Folders
pub mod Status
pub mod History
pub mod Command
pub mod Editor
use rink_os.Prelude.{
  ℕ, zero, suc, ◌-◌, Bool, true, false, Option, none, some, List, [], ◌∷◌, ◌==◌, take, map, length,
  if◌then◌else◌,
}
use rink_os.Volume.{Volume, Outcome}
use rink_os.Machine.{shows, step, C, ◌>>=◌, ◌>>◌, print, on_volume}

-- `FS_NAME_LEN` of kernel/scr/fs.h
abbrev pub fs_name_len : ℕ
fs_name_len = 64

abbrev pub line_buf_size : ℕ
line_buf_size = 258

-- `while (*a && *b)`, then `*a == *b`, where the NUL is no byte of a string.
unfoldable pub str_eq : List ℕ → List ℕ → Bool
str_eq [] [] = true
str_eq [] (y ∷ ys) = false
str_eq (x ∷ xs) [] = false
str_eq (x ∷ xs) (y ∷ ys) = let rest = str_eq xs ys in if x == y then rest else false

-- `str_copy_local`: the string left in `dst`
abbrev pub str_copy_local : List ℕ → ℕ → List ℕ
str_copy_local src max_len = take (max_len - 1) src

-- `if (*args == ' ') args++;`
unfoldable pub skip_space : List ℕ → List ℕ
skip_space [] = []
skip_space (c ∷ s) = if c == b' ' then s else c ∷ s

-- `while (args[i] && args[i] != ' ' && i < FS_NAME_LEN - 1)` with `n` bytes of the buffer left: the
-- bytes copied, and the rest of the line.
unfoldable pub word_loop : ℕ → List ℕ → List ℕ × List ℕ
word_loop zero s = ([], s)
word_loop (suc n) [] = ([], [])
word_loop (suc n) (c ∷ s) =
    let (word, rest) = word_loop n s in if c == b' ' then ([], c ∷ s) else (c ∷ word, rest)

-- The words of a line: `write`, `append` and `mv` take a file's name and what stands behind it.
unfoldable pub name_and_rest : List ℕ → List ℕ × List ℕ
unfolding skip_space word_loop
name_and_rest args =
    let (name, rest) = word_loop (fs_name_len - 1) (skip_space args) in (name, skip_space rest)

-- Calls of `kprint` in turn.
abbrev pub print_all : List (List ℕ) → C (Unit {0})
print_all texts m = step tt (map shows texts) m

-- `if (result < 0) ... else ...`
abbrev pub on_result : {A B : Type 0} → Option A → B → (A → B) → B
on_result none failed succeeded = failed
on_result (some a) failed succeeded = succeeded a

-- The form of the commands that call the file system: a line without the argument is answered with
-- the usage; else the operation runs, and what is printed depends on its result.
unfoldable pub file_command :
    {A : Type 0}
    → Bool
    → List ℕ
    → (Volume → Outcome A)
    → List (List ℕ)
    → (A → List (List ℕ))
    → C (Unit {0})
file_command missing usage op failed succeeded =
    if missing
    then print usage
    else do result ← on_volume op; print_all (on_result result failed succeeded)

-- Whether the string is empty: `*args == '\0'`
abbrev pub is_empty : List ℕ → Bool
is_empty s = length s == 0
