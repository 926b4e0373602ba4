-- ===== src/Dirent.antt =====
-- `fs_dirent_t` of kernel/scr/fs.h: the 32-byte directory entry and its bytes in a sector.
pub mod Codec
use rink_os.Prelude.{
  ℕ, zero, suc, ◌+◌, ◌-◌, ◌*◌, ◌/◌, ◌%◌, ◌^◌, Bool, true, false, ◌||◌, List, [], ◌∷◌, ltb, ◌==◌,
  get_or, if◌then◌else◌,
}
use rink_os.Disk.{Buf}

abbrev pub name_field_len : ℕ
name_field_len = 8

abbrev pub ext_field_len : ℕ
ext_field_len = 3

abbrev pub dirent_free : ℕ
dirent_free = 0x00

abbrev pub dirent_deleted : ℕ
dirent_deleted = 0xE5

abbrev pub attr_normal : ℕ
attr_normal = 0x20

abbrev pub attr_directory : ℕ
attr_directory = 0x10

pub record Dirent : Type 0 where
  pub name : List ℕ
  pub ext : List ℕ
  pub attr : ℕ
  pub reserved : List ℕ
  pub time : ℕ
  pub date : ℕ
  pub first_cluster : ℕ
  pub file_size : ℕ

-- Byte `k` of a packed little-endian entry.
unfoldable pub dirent_byte : Dirent → ℕ → ℕ
dirent_byte d k =
    if ltb k 8
    then get_or d.name k 0
    else if ltb k 11
    then get_or d.ext (k - 8) 0
    else if k == 11
    then d.attr
    else if ltb k 22
    then get_or d.reserved (k - 12) 0
    else if k == 22
    then d.time % 256
    else if k == 23
    then d.time / 256 % 256
    else if k == 24
    then d.date % 256
    else if k == 25
    then d.date / 256 % 256
    else if k == 26
    then d.first_cluster % 256
    else if k == 27
    then d.first_cluster / 256 % 256
    else if k == 28
    then d.file_size % 256
    else if k == 29
    then d.file_size / 2 ^ 8 % 256
    else if k == 30
    then d.file_size / 2 ^ 16 % 256
    else d.file_size / 2 ^ 24 % 256

unfoldable pub bytes_at : Buf → ℕ → ℕ → List ℕ
bytes_at buf off zero = []
bytes_at buf off (suc n) = buf off ∷ bytes_at buf (off + 1) n

abbrev le16_at : Buf → ℕ → ℕ
le16_at buf off = buf off + buf (off + 1) * 256

-- `((fs_dirent_t *)buf)[i]`, read
unfoldable pub entry_at : Buf → ℕ → Dirent
unfolding bytes_at
entry_at buf i = record {
  name = bytes_at buf (32 * i) 8;
  ext = bytes_at buf (32 * i + 8) 3;
  attr = buf (32 * i + 11);
  reserved = bytes_at buf (32 * i + 12) 10;
  time = le16_at buf (32 * i + 22);
  date = le16_at buf (32 * i + 24);
  first_cluster = le16_at buf (32 * i + 26);
  file_size = le16_at buf (32 * i + 28) + le16_at buf (32 * i + 30) * 2 ^ 16;
}

-- `((fs_dirent_t *)buf)[i] = d`
unfoldable pub set_entry : Buf → ℕ → Dirent → Buf
set_entry buf i d o = if o / 32 == i then dirent_byte d (o % 32) else buf o

-- `d.name[0]`
abbrev pub first_byte : Dirent → ℕ
first_byte d = get_or d.name 0 0

-- `first == FS_DIRENT_FREE || first == FS_DIRENT_DELETED`
abbrev pub is_unused : Dirent → Bool
is_unused d = (first_byte d == dirent_free) || (first_byte d == dirent_deleted)

-- `attr & FS_ATTR_DIRECTORY`: bit 4.
abbrev pub is_directory : Dirent → Bool
is_directory d = d.attr / 16 % 2 == 1

-- The loop of `fields_eq` over two fields of one length.
unfoldable pub fields_eq : List ℕ → List ℕ → Bool
fields_eq (x ∷ xs) (y ∷ ys) = if x == y then fields_eq xs ys else false
fields_eq xs ys = true
