-- ===== src/Disk.antt =====
-- The disk as kernel/fs.c sees it through kernel/disk.c: sectors of 512 bytes by block address.
use rink_os.Prelude.{ℕ, ◌==◌, if◌then◌else◌}

-- A byte buffer, by offset; a sector buffer is read and written at offsets below 512.
abbrev pub Buf : Type 0
Buf = ℕ → ℕ

abbrev pub Disk : Type 0
Disk = ℕ → Buf

-- `disk_read_sector`
unfoldable pub disk_read_sector : Disk → ℕ → Buf
disk_read_sector d lba = d lba

-- `disk_write_sector`
unfoldable pub disk_write_sector : Disk → ℕ → Buf → Disk
disk_write_sector d lba buf l = if l == lba then buf else d l

-- `buf[i] = v`
abbrev pub set_byte : Buf → ℕ → ℕ → Buf
set_byte buf i v o = if o == i then v else buf o

-- `for (i = 0; i < 512; i++) buf[i] = 0;`
abbrev pub zero_buf : Buf
zero_buf o = 0
