-- ===== src/Tests/Append.antt =====
-- `fs_append` of kernel/fs.c on the one file of a volume.
use rink_os.Prelude.{ℕ, ◌≤◌, ◌≡◌, refl, some, List, [], ◌∷◌, ◌++◌, arith, length, replicate}
use rink_os.Disk.{Disk, disk_write_sector}
use rink_os.Fat.{cluster_eoc, cluster_to_lba, fat_read, fat_write}
use rink_os.Fat.Chain.{Chain}
use rink_os.Volume.{Volume, ok}
use rink_os.Dir.{cwd_dir}
use rink_os.Dir.Items.{root_loc}
use rink_os.Files.{clusters_for, fs_read}
use rink_os.Files.Blocks.{block}
use rink_os.Files.Blocks.Total.{AllFree}
use rink_os.Files.Round.{root_entry}
use rink_os.Files.Append.{fs_append}
use rink_os.Files.Append.Fill.{Holds}
use rink_os.Files.Append.Round.{fs_read-fs_append}
use rink_os.Tests.Fat.{two_links}
use rink_os.Tests.Entries.{typed_name, file, one_file}
use rink_os.Tests.Files.{typed_name-IsLeaf, the_entry}

-- More than one block, and less than two.
abbrev old : List ℕ
old = replicate 600 b'x'

-- More than what is left of the second block.
abbrev more : List ℕ
more = replicate 500 b'y'

abbrev held : Disk
held =
    disk_write_sector (disk_write_sector two_links (cluster_to_lba 2) (block old 0 512))
      (cluster_to_lba 3) (block old 512 88)

abbrev holding : Volume
holding = record one_file { disk = held }

held_entry : root_entry holding typed_name ≡ some (file, root_loc (cwd_dir holding) 0)
unfolding cwd_dir
held_entry = the_entry

held-Chain : Chain held 2 (2 ∷ 3 ∷ [])
unfolding fat_read fat_write disk_write_sector cluster_to_lba
held-Chain =
    (refl, (omega arith, omega arith), refl, (refl, (omega arith, omega arith), refl, refl))

held-Holds : Holds held file old 2 (3 ∷ [])
unfolding disk_write_sector cluster_to_lba
held-Holds = record {
  size = refl;
  chain = held-Chain;
  contents = (refl, (refl, tt));
  needed = omega arith;
  enough = omega arith;
}

last_link : fat_read held 3 ≡ cluster_eoc
unfolding fat_read fat_write disk_write_sector cluster_to_lba
last_link = refl

held-AllFree : AllFree held (5 ∷ [])
unfolding fat_read fat_write disk_write_sector cluster_to_lba
held-AllFree a h = let e : a ≡ 5 = ground arith in rw e ((omega arith, omega arith), refl)

three_clusters : clusters_for 1100 ≡ 3
unfolding clusters_for
three_clusters = refl

fs_read-fs_append_example :
    (w : Volume) × (fs_append typed_name more holding ≡ ok tt w)
    × ((max_size : ℕ)
        → length (old ++ more) ≤ max_size
        → fs_read typed_name max_size w ≡ ok (old ++ more) w)
fs_read-fs_append_example =
    fs_read-fs_append holding typed_name old more file (root_loc (cwd_dir holding) 0) 2 (3 ∷ [])
      (5 ∷ []) typed_name-IsLeaf refl held_entry refl held-Holds last_link
      (λ e. absurd (omega (arith, e))) (omega arith) (refl, tt) held-AllFree
      (omega (arith, three_clusters))
