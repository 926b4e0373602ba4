-- ===== src/Shell/Files.antt =====
-- The commands of kernel/shell.c on files.
use rink_os.Prelude.{ℕ, ◌-◌, ◌||◌, List, [], ◌∷◌, length, codes}
use rink_os.Print.{print_uint}
use rink_os.Machine.{C, until_nul}
use rink_os.Files.{fs_write, fs_read, fs_rename, fs_delete, fs_stat}
use rink_os.Files.Append.{fs_append}
use rink_os.Shell.{is_empty, skip_space, name_and_rest, file_command}

-- The report of `write` and `append` on a success.
abbrev pub stored_text : List ℕ → List ℕ → List ℕ → List (List ℕ)
stored_text verb content name =
    verb ∷ print_uint (length content) ∷ codes " bytes to " ∷ name ∷ codes "\n" ∷ []

-- The name and the content that the line gives.
unfoldable pub cmd_write : List ℕ → C (Unit {0})
cmd_write args =
    let (filename, content) = name_and_rest args in
    file_command (is_empty filename) (codes "usage: write <filename> <text>\n")
      (fs_write filename content) (codes "write failed (file table full?)\n" ∷ [])
      λ _. stored_text (codes "Write ") content filename

-- The size of `buf` in `cmd_cat`.
abbrev pub cat_buf_size : ℕ
cat_buf_size = 4096

-- `kprint` shows the buffer up to its first NUL.
unfoldable pub cmd_cat : List ℕ → C (Unit {0})
cmd_cat args =
    let path = skip_space args in
    file_command (is_empty path) (codes "usage: cat <filename>\n") (fs_read path (cat_buf_size - 1))
      (path ∷ codes ": not found\n" ∷ []) λ bytes. until_nul bytes ∷ codes "\n" ∷ []

unfoldable pub cmd_mv : List ℕ → C (Unit {0})
cmd_mv args =
    let (old_name, rest) = name_and_rest args in
    file_command (is_empty old_name || is_empty rest) (codes "usage: mv <old> <new>\n")
      (fs_rename old_name rest) (codes "mv failed (not found or target exists)\n" ∷ [])
      λ _. codes "Renamed " ∷ old_name ∷ codes " to " ∷ rest ∷ codes "\n" ∷ []

unfoldable pub cmd_delete : List ℕ → C (Unit {0})
cmd_delete args =
    let path = skip_space args in
    file_command (is_empty path) (codes "usage: delete <filename>\n") (fs_delete path)
      (path ∷ codes ": not found\n" ∷ []) λ _. codes "Deleted " ∷ path ∷ codes "\n" ∷ []

unfoldable pub cmd_append : List ℕ → C (Unit {0})
cmd_append args =
    let (filename, content) = name_and_rest args in
    file_command (is_empty filename) (codes "usage: append <filename> <text>\n")
      (fs_append filename content) (codes "append failed (file too large or table full)\n" ∷ [])
      λ _. stored_text (codes "Appended ") content filename

unfoldable pub cmd_stat : List ℕ → C (Unit {0})
cmd_stat args =
    let path = skip_space args in
    file_command (is_empty path) (codes "usage: stat <filename>\n") (fs_stat path)
      (path ∷ codes ": not found\n" ∷ [])
      λ size. path ∷ codes ": " ∷ print_uint size ∷ codes " bytes\n" ∷ []
