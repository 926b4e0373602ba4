-- ===== src/Files/Format.antt =====
-- `fs_init` of kernel/fs.c: mounting a volume, or formatting one.
pub mod Fresh
pub mod Mount
use rink_os.Prelude.{
  ℕ, zero, suc, ◌+◌, ◌-◌, ◌/◌, ◌%◌, Bool, true, List, [], ◌∷◌, ltb, set, if◌then◌else◌,
}
use rink_os.Disk.{Buf, Disk, zero_buf, set_byte, disk_read_sector, disk_write_sector}
use rink_os.Fat.{
  vol_start_lba, bytes_per_sector, sectors_per_cluster, image_total_sectors, fat_size_sectors,
  fat1_lba, fat2_lba, root_entries, cluster_bad, cluster_eoc, fat_write,
}
use rink_os.Dirent.{dirent_free, bytes_at, fields_eq}
use rink_os.Volume.{Volume, RootDir, root_load, root_save}
use rink_os.Walk.{slash}

abbrev pub boot_lba : ℕ
boot_lba = vol_start_lba

-- "RINKFS16"
abbrev pub marker : List ℕ
marker = b'R' ∷ b'I' ∷ b'N' ∷ b'K' ∷ b'F' ∷ b'S' ∷ b'1' ∷ b'6' ∷ []

-- "RINKOS  "
abbrev oem : List ℕ
oem = b'R' ∷ b'I' ∷ b'N' ∷ b'K' ∷ b'O' ∷ b'S' ∷ b' ' ∷ b' ' ∷ []

-- "RINKOS FS  "
abbrev label : List ℕ
label = b'R' ∷ b'I' ∷ b'N' ∷ b'K' ∷ b'O' ∷ b'S' ∷ b' ' ∷ b'F' ∷ b'S' ∷ b' ' ∷ b' ' ∷ []

-- The comparison of the eight bytes at offset 54.
unfoldable pub is_formatted : Buf → Bool
is_formatted buf = fields_eq (bytes_at buf 54 8) marker

-- Bytes copied to consecutive offsets.
set_bytes : Buf → ℕ → List ℕ → Buf
set_bytes buf i [] = buf
set_bytes buf i (x ∷ xs) = set_bytes (set_byte buf i x) (i + 1) xs

set16 : Buf → ℕ → ℕ → Buf
unfolding set_bytes
set16 buf i x = set_bytes buf i (x % 256 ∷ x / 256 % 256 ∷ [])

set32 : Buf → ℕ → ℕ → Buf
unfolding set_bytes
set32 buf i x =
    set_bytes buf i (x % 256 ∷ x / 256 % 256 ∷ x / 65536 % 256 ∷ x / 16777216 % 256 ∷ [])

pub boot_sector : Buf
unfolding set_bytes set16 set32
boot_sector =
    let b = set_bytes zero_buf 0 (0xEB ∷ 0x3C ∷ 0x90 ∷ []) in
    let b = set_bytes b 3 oem in
    let b = set16 b 11 bytes_per_sector in
    let b = set_byte b 13 sectors_per_cluster in
    let b = set16 b 14 (fat1_lba - boot_lba) in
    let b = set_byte b 16 2 in
    let b = set16 b 17 root_entries in
    let b = set16 b 19 (image_total_sectors - vol_start_lba) in
    let b = set_byte b 21 0xF8 in
    let b = set16 b 22 fat_size_sectors in
    let b = set16 b 24 0 in
    let b = set16 b 26 0 in
    let b = set32 b 28 vol_start_lba in
    let b = set32 b 32 0 in
    let b = set_byte b 36 0x80 in
    let b = set_byte b 37 0 in
    let b = set_byte b 38 0x29 in
    let b = set32 b 39 0x52494E4B in let b = set_bytes b 43 label in set_bytes b 54 marker

-- Both copies of the table cleared from sector `s` on, with `n` sectors left.
pub zero_fats : ℕ → ℕ → Disk → Disk
zero_fats zero s d = d
zero_fats (suc n) s d =
    zero_fats n (s + 1)
      (disk_write_sector (disk_write_sector d (fat1_lba + s) zero_buf) (fat2_lba + s) zero_buf)

-- `root[i].name[0] = FS_DIRENT_FREE` and the two resets, for the 128 entries.
pub cleared_root : RootDir → RootDir
cleared_root r i =
    if ltb i root_entries
    then record (r i) { name = set (r i).name 0 dirent_free; first_cluster = 0; file_size = 0 }
    else r i

pub format : Volume → Volume
format v =
    let d = disk_write_sector v.disk boot_lba boot_sector in
    let d = zero_fats fat_size_sectors 0 d in
    let d = fat_write (fat_write d 0 cluster_bad) 1 cluster_eoc in
    root_save (record v { disk = d; root = cleared_root v.root })

unfoldable pub fs_init : Volume → Volume
fs_init v =
    let v' = if is_formatted (disk_read_sector v.disk boot_lba) then root_load v else format v in
    record v' { cwd_is_root = true; cwd_cluster = 0; cwd_path = slash ∷ [] }
