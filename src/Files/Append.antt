-- ===== src/Files/Append.antt =====
-- `fs_append` of kernel/fs.c.
pub mod Fuel
pub mod Rounds
pub mod Grow
pub mod Blocks
pub mod Fill
pub mod Whole
pub mod Round
use rink_os.Prelude.{
  ℕ, zero, suc, ◌+◌, ◌-◌, ◌/◌, ◌%◌, ◌^◌, List, ltb, ◌==◌, length, get_or, min, if◌then◌else◌,
}
use rink_os.Disk.{Buf, Disk, disk_read_sector, disk_write_sector}
use rink_os.Fat.{bytes_per_sector, cluster_to_lba, cluster_at_index, fat_write, fat_alloc_cluster}
use rink_os.Dirent.{Dirent}
use rink_os.Volume.{ok, fail, M, pure, ◌>>=◌, ◌>>◌, get}
use rink_os.Dir.{EntryLoc}
use rink_os.Files.{open_or_create, write_entry}
use rink_os.Files.Blocks.{block}

-- `sector_buf[offset + b] = data[b]` for `b < chunk`
unfoldable pub overlay : Buf → ℕ → List ℕ → ℕ → Buf
overlay buf offset bytes chunk o =
    if ltb o offset
    then buf o
    else if ltb o (offset + chunk)
    then get_or bytes (o - offset) 0
    else buf o

-- The first cluster, the bytes written, and the disk; and the same where no cluster was left.
pub data AppendEnd : Type 0 where
  appended : ℕ → ℕ → Disk → AppendEnd
  disk_full : ℕ → ℕ → Disk → AppendEnd

-- `while (written < extra_size)`, on fuel: each round writes at least one byte.
unfoldable pub append_loop : ℕ → ℕ → ℕ → ℕ → List ℕ → Disk → AppendEnd
unfolding block
append_loop zero first prev written bytes d = appended first written d
append_loop (suc k) first prev written bytes d =
    let c = (fat_alloc_cluster d).0 in
    let d₁ = (fat_alloc_cluster d).1 in
    let d₂ = if first == 0 then d₁ else if prev == 0 then d₁ else fat_write d₁ prev c in
    let chunk = min (length bytes - written) bytes_per_sector in
    let d₃ = disk_write_sector d₂ (cluster_to_lba c) (block bytes written chunk) in
    let rest = append_loop k (if first == 0 then c else first) c (written + chunk) bytes d₃ in
    if ltb written (length bytes)
    then (if c == 0 then disk_full first written d₁ else rest)
    else appended first written d

-- Filling up the last cluster: the cluster to chain from, and the bytes written there.
unfoldable pub fill_last : Dirent → List ℕ → M (ℕ × ℕ)
unfolding overlay
fill_last d bytes v =
    let cur = d.file_size in
    let prev = cluster_at_index v.disk d.first_cluster ((cur - 1) / bytes_per_sector) in
    let offset = cur % bytes_per_sector in
    let chunk = min (length bytes) (bytes_per_sector - offset) in
    let lba = cluster_to_lba prev in
    let buf = overlay (disk_read_sector v.disk lba) offset bytes chunk in
    if cur == 0
    then ok (0, 0) v
    else if prev == 0
    then fail v
    else if offset == 0
    then ok (prev, 0) v
    else ok (prev, chunk) (record v { disk = disk_write_sector v.disk lba buf })

unfoldable pub set_extent : Dirent → ℕ → ℕ → Dirent
set_extent d first written = record d {
  first_cluster = first;
  file_size = (d.file_size + written) % 2 ^ 32;
}

unfoldable pub finish_append : EntryLoc → Dirent → AppendEnd → M (Unit {0})
finish_append loc d (appended first written disk) v =
    write_entry loc (set_extent d first written) (record v { disk = disk })
finish_append loc d (disk_full first written disk) v =
    (do write_entry loc (set_extent d first written); fail) (record v { disk = disk })

unfoldable pub fs_append : List ℕ → List ℕ → M (Unit {0})
fs_append path bytes = do
  (d, loc) ← open_or_create path
  if length bytes == 0 then pure tt else do
    (prev, written) ← fill_last d bytes
    v ← get
    finish_append loc d (append_loop (length bytes) d.first_cluster prev written bytes v.disk)
