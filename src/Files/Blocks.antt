-- ===== src/Files/Blocks.antt =====
-- The loops of `fs_write` and `fs_read` in kernel/fs.c over the clusters of a file.
pub mod Step
pub mod Write
pub mod Read
pub mod Total
pub mod Round
use rink_os.Prelude.{
  ℕ, zero, suc, ◌+◌, ◌-◌, ◌%◌, ◌^◌, List, [], ◌++◌, ltb, ◌==◌, length, get_or, min, if◌then◌else◌,
}
use rink_os.Disk.{Buf, Disk, disk_read_sector, disk_write_sector}
use rink_os.Fat.{bytes_per_sector, in_chain, cluster_to_lba, fat_read, fat_write, fat_alloc_cluster}
use rink_os.Dirent.{bytes_at}

-- The first cluster, and the disk; and the same where no cluster was left.
pub data WriteEnd : Type 0 where
  wrote : ℕ → Disk → WriteEnd
  disk_full : ℕ → Disk → WriteEnd

-- `sector_buf`, zeroed, with `chunk` bytes from `data + written` on.
unfoldable pub block : List ℕ → ℕ → ℕ → Buf
block bytes written chunk b = if ltb b chunk then get_or bytes (written + b) 0 else 0

-- `if (!first) first = c; else fat_write(prev, c);`, the write
unfoldable pub link : ℕ → ℕ → ℕ → Disk → Disk
link first prev c d = if first == 0 then d else fat_write d prev c

-- `sector_buf` for the bytes from `written` on, written to cluster `c`
unfoldable pub put_block : ℕ → List ℕ → ℕ → Disk → Disk
put_block c bytes written d =
    disk_write_sector d (cluster_to_lba c)
      (block bytes written (min (length bytes - written) bytes_per_sector))

-- The loop of `fs_write` with `n` clusters left. Its counter is below `size`, a `uint32_t`.
unfoldable pub write_loop : ℕ → ℕ → ℕ → ℕ → List ℕ → Disk → WriteEnd
write_loop zero first prev written bytes d = wrote first d
write_loop (suc n) first prev written bytes d =
    let c = (fat_alloc_cluster d).0 in
    let d' = (fat_alloc_cluster d).1 in
    let chunk = min (length bytes - written) bytes_per_sector in
    let rest =
      write_loop n (if first == 0 then c else first) c (written + chunk) bytes
        (put_block c bytes written (link first prev c d')) in
    if c == 0 then disk_full first d' else rest

-- The loop of `fs_read` with `n` clusters left: the bytes that it copies from `written` on.
unfoldable pub read_loop : ℕ → ℕ → ℕ → ℕ → Disk → List ℕ
unfolding disk_read_sector
read_loop zero c size written d = []
read_loop (suc n) c size written d =
    let chunk = min (size - written) bytes_per_sector in
    let here = bytes_at (disk_read_sector d (cluster_to_lba c)) 0 chunk in
    let rest = read_loop n (fat_read d c) size (written + chunk) d in
    if in_chain c then here ++ rest else []
