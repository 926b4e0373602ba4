-- ===== src/Walk.antt =====
-- Path walking in kernel/fs.c: the display path, `walk_path` and `resolve_parent`.
pub mod Display
use rink_os.Prelude.{
  ℕ, zero, suc, ◌+◌, ◌-◌, true, false, ◌&&◌, ◌||◌, not, Option, none, some, List, [], ◌∷◌, ◌++◌,
  ltb, leb, ◌==◌, length, get_or, take, drop, min, if◌then◌else◌,
}
use mathlib.Core.Option
use rink_os.Dirent.{Dirent, is_directory}
use rink_os.Names.{
  component_len, str_copy_n, str_eq_local, split_name, dirent_to_display, dotdot_name, empty_ext,
}
use rink_os.Volume.{fail, hang, M, pure, ◌>>=◌, ◌>>◌, fail_if, get}
use rink_os.Dir.{DirRef, EntryLoc, cwd_dir, dir_scan}

-- `sizeof(cwd_path)`
abbrev pub cwd_path_len : ℕ
cwd_path_len = 128

abbrev pub slash : ℕ
slash = b'/'

-- The string that `path_append` leaves in a buffer of `buf_len` bytes.
unfoldable pub path_append : List ℕ → ℕ → Dirent → List ℕ
path_append path buf_len entry =
    let len = length path in
    let wants_slash = ltb 1 len || (len == 1 && not (get_or path 0 0 == slash)) || len == 0 in
    let path' = if wants_slash && ltb len (buf_len - 1) then path ++ (slash ∷ []) else path in
    path' ++ take (buf_len - 1 - length path') (dirent_to_display entry)

-- `while (len > 0 && path[len] != '/') len--;`
unfoldable pub back_to_slash : List ℕ → ℕ → ℕ
back_to_slash path zero = 0
back_to_slash path (suc n) = if get_or path (suc n) 0 == slash then suc n else back_to_slash path n

unfoldable pub path_trim_last : List ℕ → List ℕ
unfolding back_to_slash
path_trim_last path =
    if leb (length path) 1
    then path
    else let len = back_to_slash path (length path - 1) in take (if len == 0 then 1 else len) path

-- `while (*p == '/') p++;`
unfoldable pub skip_slashes : List ℕ → List ℕ
skip_slashes [] = []
skip_slashes (c ∷ p) = if c == slash then skip_slashes p else c ∷ p

-- The loop that copies a component of at most `n` bytes: the component and the rest of the path.
unfoldable pub component : ℕ → List ℕ → List ℕ × List ℕ
component zero p = ([], p)
component (suc n) [] = ([], [])
component (suc n) (c ∷ p) =
    let (comp, rest) = component n p in if c == slash then ([], c ∷ p) else (c ∷ comp, rest)

-- `path_buf` where it is not NULL.
abbrev pub PathBuf : Type 0
PathBuf = Option (List ℕ)

-- `is_root` changes and `cluster` stays where ".." leads to the root.
abbrev pub parent_of : DirRef → Option (Dirent × EntryLoc) → DirRef
parent_of dir none = dir
parent_of dir (some (e, l)) =
    if e.first_cluster == 0
    then record dir { is_root = true }
    else record { is_root = false; cluster = e.first_cluster }

-- The branch of the loop for "..".
unfoldable pub walk_up : DirRef → M DirRef
walk_up dir =
    if dir.is_root
    then pure dir
    else do found ← dir_scan dir dotdot_name empty_ext; pure (parent_of dir found)

-- The branch for a name.
unfoldable pub walk_down : DirRef → List ℕ → M (DirRef × Dirent)
walk_down dir comp = do
  let (n, e3) = split_name comp
  found ← dir_scan dir n e3
  elim found [
    | none ↦ fail
    | some (entry, l) ↦ do
      fail_if (not (is_directory entry))
      pure (record { is_root = false; cluster = entry.first_cluster }, entry)
  ]

-- The loop of `walk_path`; each round takes at least one byte of the path, so its length is fuel
-- enough.
unfoldable pub walk_loop : ℕ → List ℕ → DirRef → PathBuf → ℕ → M (DirRef × PathBuf)
walk_loop k [] dir buf buf_len = pure (dir, buf)
walk_loop zero (c ∷ p) dir buf buf_len = λ _. hang
walk_loop (suc k) (c ∷ p) dir buf buf_len =
    let comp = (component (component_len - 1) (c ∷ p)).0 in
    let rest = skip_slashes (component (component_len - 1) (c ∷ p)).1 in
    let stay = walk_loop k rest dir buf buf_len in
    let up : M (DirRef × PathBuf) = do
      dir' ← walk_up dir
      walk_loop k rest dir' (Option.map path_trim_last buf) buf_len
    in let down : M (DirRef × PathBuf) = do
      (dir', entry) ← walk_down dir comp
      walk_loop k rest dir' (Option.map (λ b. path_append b buf_len entry) buf) buf_len
      in if (length comp == 0) || str_eq_local comp (b'.' ∷ [])
        then stay
        else if str_eq_local comp (b'.' ∷ b'.' ∷ [])
        then up
        else down

root_ref : DirRef
root_ref = record { is_root = true; cluster = 0 }

unfoldable pub walk_path : List ℕ → DirRef → PathBuf → ℕ → M (DirRef × PathBuf)
unfolding root_ref
walk_path path dir buf buf_len =
    if get_or path 0 0 == slash
    then walk_loop (length path) (drop 1 path) root_ref (Option.map (λ b. slash ∷ []) buf) buf_len
    else walk_loop (length path) path dir buf buf_len

-- `last_slash`; `none` is -1. The argument `i` is the index of the head.
unfoldable pub last_slash : List ℕ → ℕ → Option ℕ → Option ℕ
last_slash [] i found = found
last_slash (c ∷ p) i found = last_slash p (i + 1) (if c == slash then some i else found)

-- `sizeof(dirpart) - 1`
abbrev pub dirpart_len : ℕ
dirpart_len = 95

-- The parent directory and the leaf.
unfoldable pub resolve_parent : List ℕ → M (DirRef × List ℕ)
unfolding last_slash
resolve_parent path = do
  fail_if (length path == 0)
  v ← get
  elim (last_slash path 0 none) [
    | none ↦ pure (cwd_dir v, str_copy_n path component_len)
    | some i ↦ do
      (d, buf) ← walk_path (take (min (i + 1) dirpart_len) path) (cwd_dir v) none 0
      pure (d, str_copy_n (drop (i + 1) path) component_len)
  ]
