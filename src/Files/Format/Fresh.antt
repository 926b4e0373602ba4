-- ===== src/Files/Format/Fresh.antt =====
-- `fs_init` of kernel/fs.c on a disk without a volume.
use rink_os.Prelude.{
  ℕ, zero, suc, ◌+◌, ◌*◌, ◌/◌, ◌≤◌, ◌<◌, ◌≡◌, ◌⊎◌, ◌∙◌, sym, refl, ap, true, false, Bool-cases, inl,
  inr, List, [], ◌∷◌, arith, ltb, set, get_or, ◌==◌, ◌||◌,
}
use rink_os.Disk.{Disk, Buf, zero_buf, disk_read_sector, disk_write_sector}
use rink_os.Fat.{
  root_entries, fat_size_sectors, fat1_lba, fat2_lba, root_lba, root_dir_sectors, cluster_bad,
  cluster_eoc, fat_read, fat_write,
}
use rink_os.Fat.Entry.{Mirrored, fat_read-fat_write, fat_write-Mirrored, fat_write-outside}
use rink_os.Fat.Chain.{IsData}
use rink_os.Dirent.{is_unused, bytes_at, fields_eq}
use rink_os.Volume.{Volume, RootDir, root_save}
use rink_os.Volume.Root.{save_from-frame, fat_read-root_save}
use rink_os.Files.Format.{
  boot_lba, is_formatted, set_bytes, set16, set32, boot_sector, zero_fats, cleared_root, format,
  fs_init,
}

zero_fats-frame :
    (n s : ℕ) (d : Disk) (l : ℕ)
    → (l < fat1_lba + s) ⊎ ((fat1_lba + s + n ≤ l) × ((l < fat2_lba + s) ⊎ (fat2_lba + s + n ≤ l)))
    → s + n ≤ fat_size_sectors
    → zero_fats n s d l ≡ d l
unfolding zero_fats disk_write_sector
zero_fats-frame zero s d l h le = refl
zero_fats-frame (suc n) s d l h le =
    zero_fats-frame n (s + 1) _ l (omega arith) (omega arith) ∙ ground arith

zero_fats-at :
    (n s : ℕ) (d : Disk) (t : ℕ)
    → s ≤ t
    → t < s + n
    → s + n ≤ fat_size_sectors
    → (zero_fats n s d (fat1_lba + t) ≡ zero_buf) × (zero_fats n s d (fat2_lba + t) ≡ zero_buf)
unfolding zero_fats disk_write_sector
zero_fats-at zero s d t lo hi le = absurd (omega arith)
zero_fats-at (suc n) s d t lo hi le = elim (Bool-cases (t == s)) [
  | inl here ↦
      let e : t ≡ s = ground arith in
      rw e (
        zero_fats-frame n (s + 1) _ (fat1_lba + s) (omega arith) (omega arith) ∙ ground arith,
        zero_fats-frame n (s + 1) _ (fat2_lba + s) (omega arith) (omega arith) ∙ ground arith,
      )
  | inr other ↦ zero_fats-at n (s + 1) _ t (ground arith) (omega arith) (omega arith)
]

boot_sector-formatted : is_formatted boot_sector ≡ true
unfolding is_formatted boot_sector set_bytes set16 set32 bytes_at fields_eq
boot_sector-formatted = refl

is_unused-cleared : (r : RootDir) (i : ℕ) → i < root_entries → is_unused (cleared_root r i) ≡ true
unfolding cleared_root
is_unused-cleared r i lt =
    let low : ltb i root_entries ≡ true = ground arith in rw low (go (r i).name)
  where
    go : (xs : List ℕ) → (get_or (set xs 0 0) 0 0 == 0) || (get_or (set xs 0 0) 0 0 == 0xE5) ≡ true
    go [] = refl
    go (x ∷ xs) = refl

-- The tables as `format` leaves them, before the root is saved.
abbrev cleared : Disk → Disk
cleared d = zero_fats fat_size_sectors 0 (disk_write_sector d boot_lba boot_sector)

abbrev reserved : Disk → Disk
reserved d = fat_write (fat_write (cleared d) 0 cluster_bad) 1 cluster_eoc

fat_read-reserved : (d : Disk) (a : ℕ) → IsData a → fat_read (reserved d) a ≡ 0
unfolding fat_read disk_read_sector
fat_read-reserved d a h =
    let row =
      (zero_fats-at fat_size_sectors 0 (disk_write_sector d boot_lba boot_sector) (a * 2 / 512)
        (omega arith) (omega arith) (omega arith)).0 in
    let none_there : fat_read (cleared d) a ≡ 0 = rw row refl in
    ground (
      arith,
      fat_read-fat_write (fat_write (cleared d) 0 cluster_bad) a 1 cluster_eoc,
      fat_read-fat_write (cleared d) a 0 cluster_bad,
      none_there,
    )

cleared-Mirrored : (d : Disk) → Mirrored (cleared d)
cleared-Mirrored d s o lt =
    let both =
      zero_fats-at fat_size_sectors 0 (disk_write_sector d boot_lba boot_sector) s (omega arith)
        (omega arith) (omega arith) in
    ap (λ (b : Buf). b o) (both.1 ∙ sym both.0)

reserved-Mirrored : (d : Disk) → Mirrored (reserved d)
reserved-Mirrored d =
    fat_write-Mirrored (fat_write (cleared d) 0 cluster_bad) 1 cluster_eoc (omega arith)
      (fat_write-Mirrored (cleared d) 0 cluster_bad (omega arith) (cleared-Mirrored d))

reserved-boot : (d : Disk) → reserved d boot_lba ≡ boot_sector
unfolding disk_write_sector
reserved-boot d =
    fat_write-outside (fat_write (cleared d) 0 cluster_bad) 1 cluster_eoc boot_lba (omega arith)
      (inl (omega arith))
    ∙ fat_write-outside (cleared d) 0 cluster_bad boot_lba (omega arith) (inl (omega arith))
    ∙ zero_fats-frame fat_size_sectors 0 _ boot_lba (inl (omega arith)) (omega arith)

module _ (v : Volume) where
  abbrev formatted : Volume
  formatted = root_save (record v { disk = reserved v.disk; root = cleared_root v.root })

  formatted-below : (l : ℕ) → l < root_lba → formatted.disk l ≡ reserved v.disk l
  unfolding root_save
  formatted-below l lt =
      save_from-frame root_dir_sectors 0 (cleared_root v.root) (reserved v.disk) l
        (inl (omega arith))

  fresh-root : (i : ℕ) → i < root_entries → is_unused (formatted.root i) ≡ true
  unfolding root_save
  fresh-root i lt = is_unused-cleared v.root i lt

  fresh-Mirrored : Mirrored formatted.disk
  fresh-Mirrored s o lt =
      rw
        (formatted-below (fat2_lba + s) (omega arith), formatted-below (fat1_lba + s) (omega arith))
        (reserved-Mirrored v.disk s o lt)

  -- On a disk without the marker, fs_init leaves a volume that has it, with every root entry
  -- unused, every data cluster free and the two copies of the table equal.
  pub fs_init-fresh :
      is_formatted (v.disk boot_lba) ≡ false
      → (is_formatted ((fs_init v).disk boot_lba) ≡ true)
        × ((i : ℕ) → i < root_entries → is_unused ((fs_init v).root i) ≡ true)
        × ((a : ℕ) → IsData a → fat_read (fs_init v).disk a ≡ 0)
        × Mirrored (fs_init v).disk
  unfolding fs_init format disk_read_sector
  fs_init-fresh new = rw new (
    rw (formatted-below boot_lba (omega arith), reserved-boot v.disk) boot_sector-formatted,
    fresh-root,
    λ a h. fat_read-root_save _ a h.1 ∙ fat_read-reserved v.disk a h,
    fresh-Mirrored,
  )
