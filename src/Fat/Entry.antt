-- ===== src/Fat/Entry.antt =====
-- `fat_read` and `fat_write` of kernel/fs.c.
use rink_os.Prelude.{ℕ, ◌+◌, ◌*◌, ◌≤◌, ◌<◌, ◌≡◌, ◌⊎◌, arith, ◌==◌, if◌then◌else◌}
use rink_os.Disk.{Buf, Disk, disk_write_sector}
use rink_os.Fat.{fat1_lba, fat2_lba, root_lba, fat_size_sectors, fat_read, fat_write}

-- The entries that a copy of the table has room for.
abbrev pub table_entries : ℕ
table_entries = fat_size_sectors * 256

-- An entry within the table reads back as the last 16-bit value written to it, and a write changes
-- no other entry.
pub fat_read-fat_write :
    (d : Disk) (a c value : ℕ)
    → a < table_entries
    → value < 65536
    → fat_read (fat_write d c value) a ≡ (if a == c then value else fat_read d a)
unfolding fat_read fat_write
fat_read-fat_write d a c value ha hv = ground arith

-- The second copy of the table holds the bytes of the first.
abbrev pub Mirrored : Disk → Type 0
Mirrored d = (s o : ℕ) → s < fat_size_sectors → d (fat2_lba + s) o ≡ d (fat1_lba + s) o

-- fat_write at a cluster within the table keeps the two copies of the table equal.
pub fat_write-Mirrored :
    (d : Disk) (c value : ℕ) → c < table_entries → Mirrored d → Mirrored (fat_write d c value)
unfolding fat_write
fat_write-Mirrored d c value hc m s o hs = ground (arith, m s o hs)

-- A sector of neither copy.
abbrev pub IsOutside : ℕ → Type 0
IsOutside l = (l < fat1_lba) ⊎ (root_lba ≤ l)

-- `fat_write` touches no sector but those of the two copies.
pub fat_write-outside :
    (d : Disk) (c value l : ℕ) → c < table_entries → IsOutside l → fat_write d c value l ≡ d l
unfolding fat_write
fat_write-outside d c value l hc h = ground arith

-- A sector written outside the two copies changes no entry.
pub fat_read-disk_write_sector :
    (d : Disk) (a l : ℕ) (buf : Buf)
    → a < table_entries
    → IsOutside l
    → fat_read (disk_write_sector d l buf) a ≡ fat_read d a
unfolding fat_read disk_write_sector
fat_read-disk_write_sector d a l buf ha out = ground arith
