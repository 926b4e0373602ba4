-- ===== src/Volume/Root.antt =====
-- `root_load` and `root_save` of kernel/fs.c on the sectors of the root directory.
use rink_os.Prelude.{
  ℕ, zero, suc, ◌+◌, ◌*◌, ◌/◌, ◌%◌, ◌≤◌, ◌<◌, ◌≡◌, ◌⊎◌, inl, inr, refl, sym, ap, fun_ext, leb, ltb,
  ◌&&◌, ◌∙◌, Bool-cases, arith, ◌==◌, if◌then◌else◌,
}
use rink_os.Disk.{Disk, disk_read_sector, disk_write_sector}
use rink_os.Fat.{root_dir_sectors, root_entries, root_lba, end_cluster, cluster_to_lba, fat_read}
use rink_os.Fat.Chain.{IsData}
use rink_os.Dirent.{entry_at, set_entry, dirent_byte}
use rink_os.Dirent.Codec.{IsDirent, entry_at-set_entry_self}
use rink_os.Volume.{Volume, RootDir, root_sector, load_from, save_from, root_load, root_save}

-- Sectors that are not of the root directory stay.
pub save_from-frame :
    (n s : ℕ) (r : RootDir) (d : Disk) (l : ℕ)
    → (l < root_lba + s) ⊎ (root_lba + s + n ≤ l)
    → save_from n s r d l ≡ d l
unfolding save_from disk_write_sector
save_from-frame zero s r d l h = refl
save_from-frame (suc n) s r d l h =
    save_from-frame n (s + 1) r (disk_write_sector d (root_lba + s) (root_sector r s)) l
      (omega arith)
    ∙ ground arith

save_from-at :
    (n s : ℕ) (r : RootDir) (d : Disk) (t : ℕ)
    → s ≤ t
    → t < s + n
    → save_from n s r d (root_lba + t) ≡ root_sector r t
unfolding save_from disk_write_sector
save_from-at zero s r d t lo hi = absurd (omega arith)
save_from-at (suc n) s r d t lo hi = elim (Bool-cases (t == s)) [
  | inl here ↦
      let e : t ≡ s = ground arith in
      rw e (
        save_from-frame n (s + 1) r (disk_write_sector d (root_lba + s) (root_sector r s))
          (root_lba + s) (omega arith)
        ∙ ground arith)
  | inr other ↦
      save_from-at n (s + 1) r (disk_write_sector d (root_lba + s) (root_sector r s)) t
        (ground arith) (omega arith)
]

root_sector-set_entry :
    (r : RootDir) (s j : ℕ) → set_entry (root_sector r s) j (r (s * 16 + j)) ≡ root_sector r s
unfolding root_sector set_entry
root_sector-set_entry r s j = fun_ext λ o. elim (Bool-cases (o / 32 == j)) [
  | inl here ↦
      let e : o / 32 ≡ j = ground arith in
      rw here (ap (λ k. dirent_byte (r (s * 16 + k)) (o % 32)) (sym e))
  | inr other ↦ rw other refl
]

-- The entry at place `j` of sector `s` of the root.
entry_at-root_sector :
    (r : RootDir) (s j : ℕ)
    → IsDirent (r (s * 16 + j))
    → entry_at (root_sector r s) j ≡ r (s * 16 + j)
entry_at-root_sector r s j h =
    ap (λ b. entry_at b j) (sym (root_sector-set_entry r s j))
    ∙ entry_at-set_entry_self (root_sector r s) j (r (s * 16 + j)) h

load_from-at :
    (n s : ℕ) (d : Disk) (r : RootDir) (i : ℕ)
    → load_from n s d r i ≡ (
        if leb s (i / 16) && ltb (i / 16) (s + n)
        then entry_at (d (root_lba + i / 16)) (i % 16)
        else r i)
unfolding load_from disk_read_sector
load_from-at zero s d r i = ground arith
load_from-at (suc n) s d r i = elim (Bool-cases (i / 16 == s)) [
  | inl here ↦
      let e : i / 16 ≡ s = ground arith in
      ground (
        arith,
        load_from-at n (s + 1) d
            (λ i. if i / 16 == s then entry_at (d (root_lba + s)) (i % 16) else r i) i,
      )
  | inr other ↦ ground (
    arith,
    load_from-at n (s + 1) d
        (λ i. if i / 16 == s then entry_at (d (root_lba + s)) (i % 16) else r i) i,
  )
]

-- After root_save, root_load gives every entry of the cached root whose fields have their sizes
-- back, whatever the cache held in between.
pub root_load-root_save :
    (v w : Volume) (i : ℕ)
    → i < root_entries
    → IsDirent (v.root i)
    → w.disk ≡ (root_save v).disk
    → (root_load w).root i ≡ v.root i
unfolding root_save root_load
root_load-root_save v w i lt h e =
    let row : i ≡ i / 16 * 16 + i % 16 = omega arith in
    let on_disk : w.disk (root_lba + i / 16) ≡ root_sector v.root (i / 16) =
      ap (λ d. d (root_lba + i / 16)) e
      ∙ save_from-at root_dir_sectors 0 v.root v.disk (i / 16) (omega arith) (omega arith) in
    let h' : IsDirent (v.root (i / 16 * 16 + i % 16)) = rw (sym row) h in
    load_from-at root_dir_sectors 0 w.disk w.root i
    ∙ ground (arith, on_disk)
    ∙ ap (λ b. entry_at b (i % 16)) on_disk
    ∙ entry_at-root_sector v.root (i / 16) (i % 16) h'
    ∙ ap v.root (sym row)

-- `root_save` changes no link and no data block.
pub fat_read-root_save :
    (v : Volume) (a : ℕ) → a < end_cluster → fat_read (root_save v).disk a ≡ fat_read v.disk a
unfolding fat_read root_save disk_read_sector
fat_read-root_save v a lt =
    rw (save_from-frame root_dir_sectors 0 v.root v.disk (301 + a * 2 / 512) (omega arith)) refl

pub data-root_save :
    (v : Volume) (a : ℕ)
    → IsData a
    → (root_save v).disk (cluster_to_lba a) ≡ v.disk (cluster_to_lba a)
unfolding root_save cluster_to_lba
data-root_save v a h =
    save_from-frame root_dir_sectors 0 v.root v.disk (cluster_to_lba a) (omega arith)
