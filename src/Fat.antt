-- ===== src/Fat.antt =====
-- The allocation table of kernel/fs.c: its two copies on disk, the allocator and the chains.
pub mod Alloc
pub mod Chain
pub mod Entry
pub mod Room
use rink_os.Prelude.{
  ℕ, zero, suc, ◌+◌, ◌-◌, ◌*◌, ◌/◌, ◌%◌, ◌^◌, Bool, ◌&&◌, Option, none, some, ltb, leb, ◌==◌,
  if◌then◌else◌,
}
use rink_os.Disk.{Buf, Disk, disk_read_sector, disk_write_sector, set_byte}

abbrev pub bytes_per_sector : ℕ
bytes_per_sector = 512

abbrev pub sectors_per_cluster : ℕ
sectors_per_cluster = 1

abbrev pub image_total_sectors : ℕ
image_total_sectors = 16384

abbrev pub vol_start_lba : ℕ
vol_start_lba = 300

abbrev pub fat_size_sectors : ℕ
fat_size_sectors = 63

abbrev pub fat1_lba : ℕ
fat1_lba = vol_start_lba + 1

abbrev pub fat2_lba : ℕ
fat2_lba = fat1_lba + fat_size_sectors

abbrev pub root_entries : ℕ
root_entries = 128

abbrev pub root_dir_sectors : ℕ
root_dir_sectors = root_entries * 32 / bytes_per_sector

abbrev pub root_lba : ℕ
root_lba = fat2_lba + fat_size_sectors

abbrev pub data_lba : ℕ
data_lba = root_lba + root_dir_sectors

abbrev pub first_data_cluster : ℕ
first_data_cluster = 2

abbrev pub total_data_clusters : ℕ
total_data_clusters = image_total_sectors - data_lba

-- One past the last data cluster.
abbrev pub end_cluster : ℕ
end_cluster = first_data_cluster + total_data_clusters

abbrev pub cluster_free : ℕ
cluster_free = 0x0000

abbrev pub cluster_bad : ℕ
cluster_bad = 0xFFF7

abbrev pub cluster_eoc : ℕ
cluster_eoc = 0xFFFF

abbrev pub cluster_eoc_min : ℕ
cluster_eoc_min = 0xFFF8

-- `buf[off] | (buf[off + 1] << 8)`: two bytes share no bit, so the disjunction is a sum.
abbrev pub le16 : ℕ → ℕ → ℕ
le16 lo hi = lo + hi * 256

unfoldable pub fat_read : Disk → ℕ → ℕ
unfolding disk_read_sector
fat_read d cluster =
    let byte_off = cluster * 2 in
    let buf = disk_read_sector d (fat1_lba + byte_off / bytes_per_sector) in
    let off = byte_off % bytes_per_sector in le16 (buf off) (buf (off + 1))

unfoldable pub fat_write : Disk → ℕ → ℕ → Disk
unfolding disk_read_sector disk_write_sector
fat_write d cluster value =
    let byte_off = cluster * 2 in
    let sector_index = byte_off / bytes_per_sector in
    let off = byte_off % bytes_per_sector in
    let old = disk_read_sector d (fat1_lba + sector_index) in
    let buf = set_byte (set_byte old off (value % 256)) (off + 1) (value / 256 % 256) in
    disk_write_sector (disk_write_sector d (fat1_lba + sector_index) buf) (fat2_lba + sector_index)
      buf

-- The scan of `fat_alloc_cluster` from `c` on, with `n` clusters left.
unfoldable pub alloc_from : ℕ → ℕ → Disk → ℕ × Disk
alloc_from zero c d = (0, d)
alloc_from (suc n) c d =
    let rest = alloc_from n (c + 1) d in
    if fat_read d c == cluster_free then (c, fat_write d c cluster_eoc) else rest

-- Cluster 0 stands for a full disk.
unfoldable pub fat_alloc_cluster : Disk → ℕ × Disk
fat_alloc_cluster d = alloc_from total_data_clusters first_data_cluster d

-- `c >= FS_FIRST_DATA_CLUSTER && c < FS_CLUSTER_EOC_MIN`
abbrev pub in_chain : ℕ → Bool
in_chain c = leb first_data_cluster c && ltb c cluster_eoc_min

-- The loop of `fat_free_chain`, on fuel; `none` means that the fuel ran out.
pub free_from : ℕ → ℕ → Disk → Option Disk
free_from zero c d = none
free_from (suc k) c d =
    let rest = free_from k (fat_read d c) (fat_write d c cluster_free) in
    if in_chain c then rest else some d

-- Rounds given to a walk along a chain: a `uint16_t` link visits no more clusters than this
-- without coming back to one.
pub max_links : ℕ
max_links = 65536

pub fat_free_chain : ℕ → Disk → Option Disk
fat_free_chain first d = free_from max_links first d

-- In `uint32_t`: the difference wraps below the first data cluster.
unfoldable pub cluster_to_lba : ℕ → ℕ
cluster_to_lba cluster =
    (data_lba + (cluster + (2 ^ 32 - first_data_cluster)) % 2 ^ 32 * sectors_per_cluster) % 2 ^ 32

-- `index` links forward from `first`; 0 if the chain is too short.
pub cluster_at_index : Disk → ℕ → ℕ → ℕ
cluster_at_index d c zero = c
cluster_at_index d c (suc n) =
    let rest = cluster_at_index d (fat_read d c) n in if in_chain c then rest else 0
