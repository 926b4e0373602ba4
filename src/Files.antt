-- ===== src/Files.antt =====
-- The public operations of kernel/fs.c on files.
pub mod Blocks
pub mod Append
pub mod Round
pub mod Others
pub mod Keep
pub mod Delete
pub mod Rename
pub mod Create
pub mod Folders
pub mod Format
use rink_os.Prelude.{
  ℕ, zero, suc, ◌+◌, ◌-◌, ◌/◌, ◌%◌, ◌^◌, Bool, true, false, not, Option, none, some, List, [], ◌∷◌,
  ltb, ◌==◌, length, get_or, set, replicate, is_some, min, if◌then◌else◌,
}
use rink_os.Fat.{bytes_per_sector, fat_free_chain}
use rink_os.Dirent.{Dirent, dirent_deleted, attr_normal, is_directory}
use rink_os.Names.{component_len, split_name}
use rink_os.Volume.{
  Volume, Outcome, ok, fail, hang, M, pure, ◌>>=◌, ◌>>◌, fail_if, reads, writes, get, update,
  update_disk,
}
use rink_os.Dir.{DirRef, EntryLoc, dir_scan, dir_find_free, dir_write_entry}
use rink_os.Walk.{resolve_parent}
use Blocks.{write_loop, read_loop, WriteEnd, wrote, disk_full}

-- An entry filled in field by field: `fs_create` and `fs_mkdir`.
unfoldable pub new_entry : List ℕ → List ℕ → ℕ → ℕ → Dirent
new_entry n e attr first_cluster = record {
  name = n;
  ext = e;
  attr = attr;
  reserved = replicate 10 0;
  time = 0;
  date = 0;
  first_cluster = first_cluster;
  file_size = 0;
}

-- `if (!dir_scan(dir, n, e, &d, &loc)) return -1;`
unfoldable pub scan_or_fail : DirRef → List ℕ → List ℕ → M (Dirent × EntryLoc)
scan_or_fail dir n e = do found ← dir_scan dir n e; elim found [ none ↦ fail | some r ↦ pure r ]

-- The parent, and the fields of the leaf, of a path that must name something.
unfoldable pub resolve_leaf : List ℕ → M (DirRef × List ℕ)
resolve_leaf path = do
  (parent, leaf) ← resolve_parent path
  fail_if (length leaf == 0)
  pure (parent, leaf)

-- `if (c != 0) fat_free_chain(c);`
unfoldable pub free_if_any : ℕ → M (Unit {0})
free_if_any c = if c == 0 then pure tt else writes (fat_free_chain c)

unfoldable pub write_entry : EntryLoc → Dirent → M (Unit {0})
write_entry loc d = update (dir_write_entry loc d)

unfoldable pub fs_create : List ℕ → M (Unit {0})
fs_create path = do
  (parent, leaf) ← resolve_leaf path
  let (n, e) = split_name leaf
  found ← dir_scan parent n e
  fail_if (is_some found)
  loc ← dir_find_free parent
  write_entry loc (new_entry n e attr_normal 0)

-- The entry to write to, created where the name is new.
unfoldable pub open_or_create : List ℕ → M (Dirent × EntryLoc)
open_or_create path = do
  (parent, leaf) ← resolve_leaf path
  let (n, e) = split_name leaf
  found ← dir_scan parent n e
  (d, loc) ← elim found [ some r ↦ pure r | none ↦ do fs_create path; scan_or_fail parent n e ]
  fail_if (is_directory d)
  pure (d, loc)

-- Clusters for `size` bytes, in `uint32_t`.
unfoldable pub clusters_for : ℕ → ℕ
clusters_for size = (size + (bytes_per_sector - 1)) % 2 ^ 32 / bytes_per_sector

-- What `fs_write` does with the result of its loop.
unfoldable pub finish_write : EntryLoc → Dirent → ℕ → WriteEnd → M (Unit {0})
finish_write loc d size (wrote first disk) v =
    write_entry loc (record d { first_cluster = first; file_size = size })
      (record v { disk = disk })
finish_write loc d size (disk_full first disk) v =
    (do free_if_any first; write_entry loc (record d { first_cluster = 0; file_size = 0 }); fail)
      (record v { disk = disk })

unfoldable pub fs_write : List ℕ → List ℕ → M (Unit {0})
fs_write path bytes = do
  (d, loc) ← open_or_create path
  free_if_any d.first_cluster
  v ← get
  let size = length bytes
  if size == 0
      then write_entry loc (record d { first_cluster = 0; file_size = 0 })
      else finish_write loc d size (write_loop (clusters_for size) 0 0 0 bytes v.disk)

-- The bytes copied to `buffer`; `*out_size` is their number.
unfoldable pub fs_read : List ℕ → ℕ → M (List ℕ)
fs_read path max_size = do
  (parent, leaf) ← resolve_parent path
  let (n, e) = split_name leaf
  (d, loc) ← scan_or_fail parent n e
  fail_if (is_directory d)
  v ← get
  let size = min d.file_size max_size
  pure (read_loop (clusters_for size) d.first_cluster size 0 v.disk)

-- `d.name[0] = FS_DIRENT_DELETED` and the two resets.
unfoldable pub deleted : Dirent → Dirent
deleted d = record d { name = set d.name 0 dirent_deleted; first_cluster = 0; file_size = 0 }

unfoldable pub fs_delete : List ℕ → M (Unit {0})
fs_delete path = do
  (parent, leaf) ← resolve_parent path
  let (n, e) = split_name leaf
  (d, loc) ← scan_or_fail parent n e
  fail_if (is_directory d)
  free_if_any d.first_cluster
  write_entry loc (deleted d)

unfoldable pub fs_stat : List ℕ → M ℕ
fs_stat path = do
  (parent, leaf) ← resolve_parent path
  let (n, e) = split_name leaf
  (d, loc) ← scan_or_fail parent n e
  pure d.file_size

-- `a.is_root != b.is_root || a.cluster != b.cluster`, negated
abbrev pub same_dir : DirRef → DirRef → Bool
same_dir a b = elim a.is_root [
  | true ↦ if b.is_root then a.cluster == b.cluster else false
  | false ↦ if b.is_root then false else a.cluster == b.cluster
]

unfoldable pub fs_rename : List ℕ → List ℕ → M (Unit {0})
fs_rename old_path new_path = do
  (old_parent, old_leaf) ← resolve_parent old_path
  let (on, oe) = split_name old_leaf
  (d, loc) ← scan_or_fail old_parent on oe
  (new_parent, new_leaf) ← resolve_parent new_path
  fail_if (length new_leaf == 0)
  let (nn, ne) = split_name new_leaf
  fail_if (not (same_dir new_parent old_parent))
  found ← dir_scan new_parent nn ne
  fail_if (is_some found)
  write_entry loc (record d { name = nn; ext = ne })
