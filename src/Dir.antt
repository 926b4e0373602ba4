-- ===== src/Dir.antt =====
-- The directory abstraction of kernel/fs.c: one iterator for the root and for subdirectories.
pub mod Items
pub mod Scan
pub mod Update
pub mod SameNames
pub mod FindFree
use rink_os.Prelude.{
  ℕ, zero, suc, ◌+◌, ◌*◌, ◌^◌, Bool, true, false, ◌&&◌, not, Option, none, some, List, ltb, leb,
  ◌==◌, if◌then◌else◌,
}
use rink_os.Disk.{zero_buf, disk_read_sector, disk_write_sector}
use rink_os.Fat.{
  root_entries, bytes_per_sector, first_data_cluster, in_chain, cluster_to_lba, fat_read, fat_write,
  fat_alloc_cluster,
}
use rink_os.Dirent.{Dirent, entry_at, set_entry, is_unused, fields_eq}
use rink_os.Volume.{
  Volume, Outcome, ok, fail, hang, M, pure, ◌>>=◌, ◌>>◌, fail_if, reads, update, update_disk,
  root_save,
}

abbrev pub entries_per_cluster : ℕ
entries_per_cluster = 16

-- `dir_ref_t`
pub record DirRef : Type 0 where
  pub is_root : Bool
  pub cluster : ℕ

-- `entry_loc_t`; a field that the code leaves unset is 0 here.
pub record EntryLoc : Type 0 where
  pub dir : DirRef
  pub root_index : ℕ
  pub entry_cluster : ℕ
  pub entry_index : ℕ

-- `dir_iter_t`
pub record DirIter : Type 0 where
  pub dir : DirRef
  pub root_index : ℕ
  pub cluster : ℕ
  pub in_cluster_index : ℕ
  pub done : Bool

unfoldable pub cwd_dir : Volume → DirRef
cwd_dir v = record { is_root = v.cwd_is_root; cluster = v.cwd_cluster }

unfoldable pub dir_iter_start : DirRef → DirIter
dir_iter_start dir = record {
  dir = dir;
  root_index = 0;
  cluster = if dir.is_root then 0 else dir.cluster;
  in_cluster_index = 0;
  done = false;
}

abbrev pub Item : Type 0
Item = Option (Dirent × EntryLoc)

unfoldable pub next_in_root : Volume → DirIter → Item × DirIter
next_in_root v it = if leb root_entries it.root_index then (none, record it { done = true }) else (
  some (
    v.root it.root_index,
    record { dir = it.dir; root_index = it.root_index; entry_cluster = 0; entry_index = 0 },
  ),
  record it { root_index = it.root_index + 1 },
)

unfoldable pub next_in_chain : Volume → DirIter → Item × DirIter
next_in_chain v it =
    if not (in_chain it.cluster)
    then (none, record it { done = true })
    else let buf = disk_read_sector v.disk (cluster_to_lba it.cluster) in
      let item : Dirent × EntryLoc = (
        entry_at buf it.in_cluster_index,
        record {
          dir = it.dir;
          root_index = 0;
          entry_cluster = it.cluster;
          entry_index = it.in_cluster_index;
        },
      ) in
      let index = it.in_cluster_index + 1 in
      (
        some item,
        if leb entries_per_cluster index
            then record it { in_cluster_index = 0; cluster = fat_read v.disk it.cluster }
            else record it { in_cluster_index = index },
      )

-- `none` is the return of 0 at the end.
unfoldable pub dir_iter_next : Volume → DirIter → Item × DirIter
dir_iter_next v it =
    if it.done then (none, it) else if it.dir.is_root then next_in_root v it else next_in_chain v it

unfoldable pub dir_write_entry : EntryLoc → Dirent → Volume → Volume
dir_write_entry loc entry v =
    if loc.dir.is_root
    then root_save (record v { root = λ i. if i == loc.root_index then entry else v.root i })
    else let lba = cluster_to_lba loc.entry_cluster in
      let buf = set_entry (disk_read_sector v.disk lba) loc.entry_index entry in
      record v { disk = disk_write_sector v.disk lba buf }

-- Rounds given to a loop over a directory: 16 entries for each number of a cluster, and the end.
unfoldable pub max_steps : ℕ
max_steps = 2 ^ 20 + 1

-- `fields_eq(e.name, name8, 8) && fields_eq(e.ext, ext3, 3)`
abbrev pub names_eq : List ℕ → List ℕ → Dirent → Bool
names_eq name8 ext3 e = fields_eq e.name name8 && fields_eq e.ext ext3

-- The loop of `dir_scan`; the outer option is the fuel, the inner one what was found.
unfoldable pub scan_loop : ℕ → Volume → List ℕ → List ℕ → DirIter → Option Item
scan_loop zero v name8 ext3 it = none
scan_loop (suc k) v name8 ext3 it =
    let rest = scan_loop k v name8 ext3 (dir_iter_next v it).1 in
    elim (dir_iter_next v it).0 [
      | none ↦ some none
      | some (e, l) ↦
          if is_unused e then rest else if names_eq name8 ext3 e then some (some (e, l)) else rest
    ]

unfoldable pub dir_scan : DirRef → List ℕ → List ℕ → M Item
dir_scan dir name8 ext3 = reads λ v. scan_loop max_steps v name8 ext3 (dir_iter_start dir)

-- Where the loop of `dir_find_free` stops: at an unused entry, or at the end with the last cluster.
pub data Slot : Type 0 where
  unused : EntryLoc → Slot
  full : ℕ → Slot

unfoldable pub free_loop : ℕ → Volume → DirIter → ℕ → Option Slot
free_loop zero v it last = none
free_loop (suc k) v it last =
    let next = (dir_iter_next v it).1 in
    elim (dir_iter_next v it).0 [
      | none ↦ some (full last)
      | some (e, l) ↦
          let last' = if it.dir.is_root then last else l.entry_cluster in
          let rest = free_loop k v next last' in if is_unused e then some (unused l) else rest
    ]

-- `fat_alloc_cluster`, with the test for a full disk that follows each call.
unfoldable pub alloc_or_fail : M ℕ
alloc_or_fail v =
    let (c, d) = fat_alloc_cluster v.disk in
    let v' = record v { disk = d } in if c == 0 then fail v' else ok c v'

-- A full subdirectory grows by a cleared cluster; the root cannot grow.
unfoldable pub grow : DirRef → ℕ → M EntryLoc
grow dir last = do
  fail_if dir.is_root
  new_cluster ← alloc_or_fail
  update_disk λ d. fat_write d last new_cluster
  update_disk λ d. disk_write_sector d (cluster_to_lba new_cluster) zero_buf
  pure (record { dir = dir; root_index = 0; entry_cluster = new_cluster; entry_index = 0 })

-- The rest of `dir_find_free` behind its loop.
unfoldable pub place : DirRef → Slot → M EntryLoc
place dir (unused loc) = pure loc
place dir (full last) = grow dir last

unfoldable pub dir_find_free : DirRef → M EntryLoc
dir_find_free dir = do
  slot ←
      reads λ v. free_loop max_steps v (dir_iter_start dir) (if dir.is_root then 0 else dir.cluster)
  place dir slot
