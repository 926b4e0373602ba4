-- ===== src/Files/Folders.antt =====
-- The operations of kernel/fs.c on directories, the listing and the statistics.
pub mod Count
pub mod Remove
pub mod Block
pub mod Make
pub mod Made
pub mod Change
use rink_os.Prelude.{
  ℕ, zero, suc, ◌+◌, Bool, true, false, ◌&&◌, ◌||◌, not, Option, none, some, List, [], ◌∷◌, ◌++◌,
  ◌==◌, is_some, if◌then◌else◌,
}
use rink_os.Disk.{Disk, zero_buf, disk_write_sector}
use rink_os.Fat.{
  root_entries, total_data_clusters, first_data_cluster, cluster_free, cluster_to_lba, fat_read,
  fat_free_chain,
}
use rink_os.Dirent.{Dirent, attr_directory, is_unused, is_directory, fields_eq}
use rink_os.Names.{
  str_copy_n, str_eq_local, split_name, dirent_to_display, dot_name, dotdot_name, empty_ext,
}
use rink_os.Volume.{
  Volume, ok, fail, hang, M, RootDir, pure, ◌>>=◌, ◌>>◌, fail_if, reads, writes, get, update,
  update_disk,
}
use rink_os.Dir.{
  DirRef, EntryLoc, DirIter, cwd_dir, dir_iter_start, dir_iter_next, max_steps, dir_scan,
  alloc_or_fail, dir_find_free,
}
use rink_os.Walk.{cwd_path_len, walk_path}
use rink_os.Files.{new_entry, resolve_leaf, scan_or_fail, write_entry, deleted}
use rink_os.Print.{hex32}

-- `str_eq_local(leaf, ".") || str_eq_local(leaf, "..")`
abbrev pub is_dots : List ℕ → Bool
is_dots leaf = str_eq_local leaf (b'.' ∷ []) || str_eq_local leaf (b'.' ∷ b'.' ∷ [])

-- `dir_find_free`, with the release of the new cluster where it fails.
unfoldable pub find_free_or_release : DirRef → ℕ → M EntryLoc
find_free_or_release parent new_cluster v = elim (dir_find_free parent v) [
  | ok loc v' ↦ ok loc v'
  | fail v' ↦ (do writes (fat_free_chain new_cluster); fail) v'
  | hang ↦ hang
]

abbrev pub own_loc : ℕ → ℕ → EntryLoc
own_loc cluster i = record {
  dir = record { is_root = false; cluster = cluster };
  root_index = 0;
  entry_cluster = cluster;
  entry_index = i;
}

unfoldable pub fs_mkdir : List ℕ → M (Unit {0})
fs_mkdir path = do
  (parent, leaf) ← resolve_leaf path
  fail_if (is_dots leaf)
  let (n, e) = split_name leaf
  found ← dir_scan parent n e
  fail_if (is_some found)
  new_cluster ← alloc_or_fail
  update_disk λ d. disk_write_sector d (cluster_to_lba new_cluster) zero_buf
  let up = if parent.is_root then 0 else parent.cluster
  write_entry (own_loc new_cluster 0) (new_entry dot_name empty_ext attr_directory new_cluster)
  write_entry (own_loc new_cluster 1) (new_entry dotdot_name empty_ext attr_directory up)
  loc ← find_free_or_release parent new_cluster
  write_entry loc (new_entry n e attr_directory new_cluster)

-- An entry that a listing and the test for an empty directory pass over.
abbrev pub is_skipped : Dirent → Bool
is_skipped e = is_unused e || fields_eq e.name dot_name || fields_eq e.name dotdot_name

-- The loop of `fs_rmdir`: whether the directory is empty.
unfoldable pub empty_loop : ℕ → Volume → DirIter → Option Bool
empty_loop zero v it = none
empty_loop (suc k) v it =
    let rest = empty_loop k v (dir_iter_next v it).1 in
    elim (dir_iter_next v it).0 [
      | none ↦ some true
      | some (e, l) ↦ if is_skipped e then rest else some false
    ]

unfoldable pub fs_rmdir : List ℕ → M (Unit {0})
fs_rmdir path = do
  (parent, leaf) ← resolve_leaf path
  fail_if (is_dots leaf)
  let (n, e) = split_name leaf
  (d, loc) ← scan_or_fail parent n e
  fail_if (not (is_directory d))
  v ← get
  fail_if (not v.cwd_is_root && (v.cwd_cluster == d.first_cluster))
  let target : DirRef = record { is_root = false; cluster = d.first_cluster }
  empty ← reads λ v. empty_loop max_steps v (dir_iter_start target)
  fail_if (not empty)
  writes (fat_free_chain d.first_cluster)
  write_entry loc (deleted d)

unfoldable pub fs_chdir : List ℕ → M (Unit {0})
fs_chdir path = do
  v ← get
  (d, buf) ← walk_path path (cwd_dir v) (some (str_copy_n v.cwd_path cwd_path_len)) cwd_path_len
  let p : List ℕ = elim buf [ none ↦ [] | some b ↦ b ]
  update λ v. record v {
    cwd_is_root = d.is_root;
    cwd_cluster = d.cluster;
    cwd_path = str_copy_n p cwd_path_len;
  }

pub fs_getcwd : Volume → ℕ → List ℕ
fs_getcwd v max_len = str_copy_n v.cwd_path max_len

-- What `fs_list` prints for an entry.
pub list_line : Dirent → List ℕ
list_line e =
    b' ' ∷ b' ' ∷ dirent_to_display e
    ++ (if is_directory e
        then b' ' ∷ b' ' ∷ b'<' ∷ b'D' ∷ b'I' ∷ b'R' ∷ b'>' ∷ b'\n' ∷ []
        else b' ' ∷ b' ' ∷ b'(' ∷ hex32 e.file_size
          ++ b' ' ∷ b'b' ∷ b'y' ∷ b't' ∷ b'e' ∷ b's' ∷ b')' ∷ b'\n' ∷ [])

-- The loop of `fs_list`: the text printed, and whether any entry was.
pub list_loop : ℕ → Volume → DirIter → Bool → Option (List ℕ × Bool)
list_loop zero v it any = none
list_loop (suc k) v it any =
    let next = (dir_iter_next v it).1 in
    elim (dir_iter_next v it).0 [
      | none ↦ some ([], any)
      | some (e, l) ↦
          let skip = list_loop k v next any in
          let more : Option (List ℕ × Bool) = elim (list_loop k v next true) [
            | none ↦ none
            | some (text, b) ↦ some (list_line e ++ text, b)
          ] in
          if is_skipped e then skip else more
    ]

pub fs_list : M (List ℕ)
fs_list = do
  (text, any) ← reads λ v. list_loop max_steps v (dir_iter_start (cwd_dir v)) false
  pure (
      if any
      then text
      else text ++ b' ' ∷ b' ' ∷ b'(' ∷ b'e' ∷ b'm' ∷ b'p' ∷ b't' ∷ b'y' ∷ b')' ∷ b'\n' ∷ [])

-- The loops of `fs_debug_stats` from `i` or `c` on, with `n` rounds left.
unfoldable pub used_from : ℕ → ℕ → RootDir → ℕ
used_from zero i r = 0
used_from (suc n) i r = (if is_unused (r i) then 0 else 1) + used_from n (i + 1) r

unfoldable pub free_from : ℕ → ℕ → Disk → ℕ
free_from zero c d = 0
free_from (suc n) c d = (if fat_read d c == cluster_free then 1 else 0) + free_from n (c + 1) d

-- The root entries used, the free clusters and all clusters.
unfoldable pub fs_debug_stats : Volume → ℕ × ℕ × ℕ
fs_debug_stats v = (
  used_from root_entries 0 v.root,
  free_from total_data_clusters first_data_cluster v.disk,
  total_data_clusters,
)
