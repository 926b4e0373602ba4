-- ===== src/Tests/Folder.antt =====
-- Operations of kernel/fs.c in a root of two files: what changes, and what stays.
use rink_os.Prelude.{
  ℕ, ◌+◌, ◌<◌, ◌≡◌, ◌≢◌, ◌⊎◌, refl, true, false, some, none, List, [], ◌∷◌, arith, ◌==◌,
  if◌then◌else◌, replicate,
}
use rink_os.Fat.{root_entries, end_cluster, cluster_free, fat_read, fat_write, fat_alloc_cluster}
use rink_os.Fat.Room.{has}
use rink_os.Fat.Chain.{Chain}
use rink_os.Dirent.{Dirent, is_unused, fields_eq, bytes_at}
use rink_os.Names.{split_name, name_loop, after_dot, ext_loop, to_upper, pad}
use rink_os.Volume.{Volume, ok, fail}
use rink_os.Dir.{EntryLoc, cwd_dir}
use rink_os.Dir.Items.{root_items, root_loc}
use rink_os.Dir.Scan.{find_entry}
use rink_os.Walk.{last_slash}
use rink_os.Files.{fs_read, fs_write, fs_delete, fs_create, new_entry}
use rink_os.Files.Round.{IsLeaf, root_entry}
use rink_os.Files.Others.{IsLinked, Apart}
use rink_os.Files.Keep.{fs_read-fs_write_other}
use rink_os.Files.Delete.{fs_delete-root}
use rink_os.Files.Create.{created, fs_create-root}
use rink_os.Files.Folders.{fs_debug_stats}
use rink_os.Files.Folders.Count.{fs_debug_stats-fat_alloc_cluster}
use rink_os.Files.Format.{boot_lba, is_formatted, fs_init}
use rink_os.Files.Format.Fresh.{fs_init-fresh}
use rink_os.Fat.Entry.{Mirrored}
use rink_os.Fat.Chain.{IsData}
use rink_os.Tests.Fat.{blank, two_links}
use rink_os.Tests.Entries.{typed_name, file, one_file}

-- `b.txt`, of one cluster.
abbrev pub second_name : List ℕ
second_name = b'b' ∷ b'.' ∷ b't' ∷ b'x' ∷ b't' ∷ []

abbrev second : Dirent
second = record file { name = pad 8 (b'B' ∷ []); first_cluster = 4; file_size = 5 }

abbrev two_files : Volume
two_files = record one_file {
  disk = fat_write two_links 4 0xFFFF;
  root = λ i. if i == 1 then second else one_file.root i;
}

typed_name-IsLeaf : IsLeaf typed_name
unfolding last_slash
typed_name-IsLeaf = record { some_byte = omega arith; no_slash = refl }

pub second_name-IsLeaf : IsLeaf second_name
unfolding last_slash
second_name-IsLeaf = record { some_byte = omega arith; no_slash = refl }

first_found : root_entry two_files typed_name ≡ some (file, root_loc (cwd_dir two_files) 0)
unfolding find_entry root_items split_name name_loop after_dot ext_loop to_upper fields_eq
first_found = refl

second_found : root_entry two_files second_name ≡ some (second, root_loc (cwd_dir two_files) 1)
unfolding find_entry root_items split_name name_loop after_dot ext_loop to_upper fields_eq
second_found = refl

first-Chain : Chain two_files.disk 2 (2 ∷ 3 ∷ [])
unfolding fat_read fat_write
first-Chain =
    (refl, (omega arith, omega arith), refl, (refl, (omega arith, omega arith), refl, refl))

second-Chain : Chain two_files.disk 4 (4 ∷ [])
unfolding fat_read fat_write
second-Chain = (refl, (omega arith, omega arith), refl, refl)

second-IsLinked : IsLinked two_files.disk (4 ∷ [])
unfolding fat_read fat_write
second-IsLinked a i = let e : a ≡ 4 = ground arith in rw e (omega arith)

first-Apart : Apart (2 ∷ 3 ∷ []) (4 ∷ [])
first-Apart a i = let e : a ≡ 4 = ground arith in rw e refl

fs_read-fs_write_other_example :
    (w : Volume) × ((fs_write typed_name (replicate 600 7) two_files ≡ ok tt w)
      ⊎ (fs_write typed_name (replicate 600 7) two_files ≡ fail w))
    × (r : List ℕ) × (fs_read second_name 100 two_files ≡ ok r two_files)
    × (fs_read second_name 100 w ≡ ok r w)
fs_read-fs_write_other_example =
    fs_read-fs_write_other two_files typed_name file (root_loc (cwd_dir two_files) 0) (2 ∷ 3 ∷ [])
      second_name second (root_loc (cwd_dir two_files) 1) (4 ∷ []) refl typed_name-IsLeaf
      first_found refl first-Chain second_name-IsLeaf second_found refl second-Chain second-IsLinked
      first-Apart (omega arith) (replicate 600 7) 100

fs_delete-root_example :
    (w : Volume) × (fs_delete typed_name two_files ≡ ok tt w)
    × (is_unused (w.root 0) ≡ true)
    × ((i : ℕ) → i ≢ 0 → w.root i ≡ two_files.root i)
    × ((a : ℕ)
        → a < end_cluster
        → fat_read w.disk a
          ≡ (if has a (2 ∷ 3 ∷ []) then cluster_free else fat_read two_files.disk a))
fs_delete-root_example =
    fs_delete-root two_files typed_name file (root_loc (cwd_dir two_files) 0) (2 ∷ 3 ∷ [])
      typed_name-IsLeaf refl first_found refl first-Chain

pub second_is_new : root_entry one_file second_name ≡ none
unfolding find_entry root_items split_name name_loop after_dot ext_loop to_upper fields_eq
second_is_new = refl

second_is_named : is_unused (created second_name) ≡ false
unfolding new_entry split_name name_loop after_dot ext_loop to_upper
second_is_named = refl

fs_create-root_example :
    ((fs_create second_name one_file ≡ fail one_file)
      × ((i : ℕ) → i < root_entries → is_unused (one_file.root i) ≡ false))
    ⊎ ((w : Volume) × (loc : EntryLoc) × (fs_create second_name one_file ≡ ok tt w)
        × (is_unused (one_file.root loc.root_index) ≡ true)
        × (root_entry w second_name ≡ some (created second_name, loc))
        × ((i : ℕ) → i ≢ loc.root_index → w.root i ≡ one_file.root i))
fs_create-root_example =
    fs_create-root one_file second_name second_name-IsLeaf refl second_is_new second_is_named

fs_debug_stats-fat_alloc_cluster_example :
    (((fat_alloc_cluster two_files.disk).0 ≡ 0) × ((fs_debug_stats two_files).1 ≡ 0))
    ⊎ (((fat_alloc_cluster two_files.disk).0 ≢ 0)
        × ((fs_debug_stats two_files).1
            ≡ (fs_debug_stats (record two_files { disk = (fat_alloc_cluster two_files.disk).1 })).1
              + 1))
fs_debug_stats-fat_alloc_cluster_example = fs_debug_stats-fat_alloc_cluster two_files

abbrev blank_volume : Volume
blank_volume = record two_files { disk = blank }

blank_is_new : is_formatted (blank boot_lba) ≡ false
unfolding is_formatted bytes_at fields_eq
blank_is_new = refl

fs_init-fresh_example :
    (is_formatted ((fs_init blank_volume).disk boot_lba) ≡ true)
    × ((i : ℕ) → i < root_entries → is_unused ((fs_init blank_volume).root i) ≡ true)
    × ((a : ℕ) → IsData a → fat_read (fs_init blank_volume).disk a ≡ 0)
    × Mirrored (fs_init blank_volume).disk
fs_init-fresh_example = fs_init-fresh blank_volume blank_is_new
