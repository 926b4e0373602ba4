-- ===== src/Volume.antt =====
-- The state of kernel/fs.c: the disk, the cached root directory and the current directory; and the
-- form of its operations, which return 0 or -1 and may fail to return on a cyclic chain.
pub mod Root
use rink_os.Prelude.{
  ℕ, zero, suc, ◌+◌, ◌*◌, ◌/◌, ◌%◌, Bool, true, false, Option, none, some, List, ◌==◌,
  if◌then◌else◌,
}
use rink_os.Disk.{Buf, Disk, disk_read_sector, disk_write_sector}
use rink_os.Fat.{root_dir_sectors, root_lba}
use rink_os.Dirent.{Dirent, dirent_byte, entry_at}

-- `root[]`, by index below 128.
abbrev pub RootDir : Type 0
RootDir = ℕ → Dirent

pub record Volume : Type 0 where
  pub disk : Disk
  pub root : RootDir
  pub cwd_is_root : Bool
  pub cwd_cluster : ℕ
  pub cwd_path : List ℕ

-- Sector `s` of the bytes of `root[]`: 16 entries of 32 bytes.
unfoldable pub root_sector : RootDir → ℕ → Buf
root_sector r s o = dirent_byte (r (s * 16 + o / 32)) (o % 32)

-- The loops of `root_load` and `root_save` from sector `s` on, with `n` sectors left.
unfoldable pub load_from : ℕ → ℕ → Disk → RootDir → RootDir
load_from zero s d r = r
load_from (suc n) s d r =
    load_from n (s + 1) d
      (λ i. if i / 16 == s then entry_at (disk_read_sector d (root_lba + s)) (i % 16) else r i)

unfoldable pub save_from : ℕ → ℕ → RootDir → Disk → Disk
save_from zero s r d = d
save_from (suc n) s r d =
    save_from n (s + 1) r (disk_write_sector d (root_lba + s) (root_sector r s))

unfoldable pub root_load : Volume → Volume
root_load v = record v { root = load_from root_dir_sectors 0 v.disk v.root }

unfoldable pub root_save : Volume → Volume
root_save v = record v { disk = save_from root_dir_sectors 0 v.root v.disk }

-- `ok a v` is a return of 0 with what goes through the out parameters, `fail v` a return of -1,
-- and `hang` a loop that does not end within its fuel. The volume is the state left behind.
pub data Outcome (A : Type 0) : Type 0 where
  ok : A → Volume → Outcome A
  fail : Volume → Outcome A
  hang : Outcome A

abbrev pub M : Type 0 → Type 0
M A = Volume → Outcome A

abbrev pub pure : {A : Type 0} → A → M A
pure = ok

module _ {A B : Type 0} where
  abbrev pub and_then : Outcome A → (A → M B) → Outcome B
  and_then (ok a v) k = k a v
  and_then (fail v) k = fail v
  and_then hang k = hang

  infixl 5 ◌>>=◌ ◌>>◌
  abbrev pub ◌>>=◌ : M A → (A → M B) → M B
  m >>= k = λ v. and_then (m v) k

  abbrev pub ◌>>◌ : M A → M B → M B
  m >> n = m >>= λ _. n

-- `if (b) return -1;`
abbrev pub fail_if : Bool → M (Unit {0})
fail_if true v = fail v
fail_if false v = ok tt v

-- A walk over the volume that leaves it alone; `none` means that it ran out of fuel.
abbrev pub settle : {A : Type 0} → Option A → M A
settle none v = hang
settle (some a) v = ok a v

abbrev pub reads : {A : Type 0} → (Volume → Option A) → M A
reads f v = settle (f v) v

-- The same for a walk that writes to the disk.
abbrev pub settle_disk : Option Disk → M (Unit {0})
settle_disk none v = hang
settle_disk (some d) v = ok tt (record v { disk = d })

abbrev pub writes : (Disk → Option Disk) → M (Unit {0})
writes f v = settle_disk (f v.disk) v

abbrev pub get : M Volume
get v = ok v v

abbrev pub update : (Volume → Volume) → M (Unit {0})
update f v = ok tt (f v)

abbrev pub update_disk : (Disk → Disk) → M (Unit {0})
update_disk f v = ok tt (record v { disk = f v.disk })
