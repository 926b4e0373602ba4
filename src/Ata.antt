-- ===== src/Ata.antt =====
-- The disk driver of kernel/disk.c: the port accesses of reading and of writing a sector.
pub mod Address
use rink_os.Prelude.{
  ℕ, zero, suc, ◌+◌, ◌*◌, ◌/◌, ◌%◌, ◌^◌, List, [], ◌∷◌, ◌++◌, ◌==◌, if◌then◌else◌,
}
use rink_os.Disk.{Buf}

abbrev pub ata_data : ℕ
ata_data = 0x1F0

abbrev pub ata_seccount : ℕ
ata_seccount = 0x1F2

abbrev pub ata_lba_low : ℕ
ata_lba_low = 0x1F3

abbrev pub ata_lba_mid : ℕ
ata_lba_mid = 0x1F4

abbrev pub ata_lba_high : ℕ
ata_lba_high = 0x1F5

abbrev pub ata_drive_head : ℕ
ata_drive_head = 0x1F6

abbrev pub ata_command : ℕ
ata_command = 0x1F7

-- `wait_ready` and `wait_drq` poll the status port, which changes no register.
pub data Action : Type 0 where
  wait_ready : Action
  wait_drq : Action
  outb : ℕ → ℕ → Action
  outw : ℕ → ℕ → Action
  inw : ℕ → Action

-- The writes that select a sector. `0xE0 | x` is a sum for an `x` below 16.
unfoldable pub select : ℕ → List Action
select lba =
    outb ata_drive_head (0xE0 + lba / 2 ^ 24 % 16)
    ∷ outb ata_seccount 1
    ∷ outb ata_lba_low (lba % 256)
    ∷ outb ata_lba_mid (lba / 2 ^ 8 % 256)
    ∷ outb ata_lba_high (lba / 2 ^ 16 % 256)
    ∷ []

-- `buf16[i]`
unfoldable pub word_at : Buf → ℕ → ℕ
word_at buf i = buf (2 * i) + buf (2 * i + 1) * 256

-- The loops over the words of a sector from word `i` on, with `n` words left.
unfoldable pub words_out : ℕ → ℕ → Buf → List Action
words_out zero i buf = []
words_out (suc n) i buf = outw ata_data (word_at buf i) ∷ words_out n (i + 1) buf

unfoldable pub words_in : ℕ → List Action
words_in zero = []
words_in (suc n) = inw ata_data ∷ words_in n

-- The byte at an offset of the buffer that the words read have filled.
unfoldable pub byte_of : (ℕ → ℕ) → Buf
byte_of words o = if o % 2 == 0 then words (o / 2) % 256 else words (o / 2) / 256 % 256

unfoldable pub read_actions : ℕ → List Action
read_actions lba =
    wait_ready ∷ select lba ++ outb ata_command 0x20 ∷ wait_ready ∷ wait_drq ∷ words_in 256

unfoldable pub write_actions : ℕ → Buf → List Action
write_actions lba buf =
    wait_ready ∷ select lba
    ++ outb ata_command 0x30 ∷ wait_ready ∷ wait_drq ∷ words_out 256 0 buf
    ++ wait_ready ∷ outb ata_command 0xE7 ∷ wait_ready ∷ []
