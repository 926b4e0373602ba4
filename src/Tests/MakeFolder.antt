-- ===== src/Tests/MakeFolder.antt =====
-- `fs_mkdir` and `fs_rmdir` of kernel/fs.c in the root.
use rink_os.Prelude.{
  ℕ, ◌<◌, ◌≡◌, ◌≢◌, ◌⊎◌, ◌==◌, refl, arith, true, false, [], ◌∷◌, some, if◌then◌else◌,
}
use rink_os.Fat.{
  root_entries, first_data_cluster, end_cluster, cluster_free, cluster_to_lba, fat_read, fat_write,
}
use rink_os.Fat.Alloc.{NoneFree}
use rink_os.Fat.Room.{has}
use rink_os.Fat.Chain.{Chain}
use rink_os.Dirent.{Dirent, is_unused, fields_eq, entry_at, bytes_at, set_entry, dirent_byte}
use rink_os.Names.{
  split_name, name_loop, after_dot, ext_loop, to_upper, str_eq_local, dirent_to_display,
  dotdot_name, empty_ext,
}
use rink_os.Volume.{Volume, ok, fail}
use rink_os.Dir.{cwd_dir}
use rink_os.Dir.Items.{root_items, root_loc, chain_loc, cluster_items, chain_items, dir_items}
use rink_os.Dir.Scan.{find_entry}
use rink_os.Files.{new_entry}
use rink_os.Files.Round.{leaf_of, root_entry}
use rink_os.Files.Create.{created}
use rink_os.Files.Folders.{is_dots, fs_mkdir, fs_rmdir, fs_chdir}
use rink_os.Files.Folders.Remove.{all_skipped, folder, fs_rmdir-root}
use rink_os.Files.Folders.Made.{SameTable, Made, Undone, fs_mkdir-root}
use rink_os.Disk.{disk_write_sector}
use rink_os.Files.Folders.Block.{dotdot, fresh_block}
use rink_os.Files.Folders.Change.{parent_name, fs_chdir-root}
use rink_os.Tests.Text.{file-NoSlash, file_fits}
use rink_os.Tests.Entries.{typed_name, file, one_file}
use rink_os.Tests.Fat.{two_links, two_links-Chain}
use rink_os.Tests.Files.{typed_name-IsLeaf}
use rink_os.Tests.Folder.{second_name, second_name-IsLeaf, second_is_new}

new_is_used : is_unused (created second_name) ≡ false
unfolding split_name name_loop after_dot ext_loop to_upper new_entry
new_is_used = refl

second_is_no_dot : is_dots (leaf_of second_name) ≡ false
unfolding str_eq_local
second_is_no_dot = refl

fs_mkdir-root_example :
    ((fs_mkdir second_name one_file ≡ fail one_file)
      × NoneFree one_file.disk first_data_cluster end_cluster)
    ⊎ ((w : Volume) × (fs_mkdir second_name one_file ≡ fail w)
        × ((i : ℕ) → i < root_entries → is_unused (one_file.root i) ≡ false)
        × (w.root ≡ one_file.root)
        × SameTable one_file second_name w)
    ⊎ ((w : Volume) × (fs_mkdir second_name one_file ≡ ok tt w)
        × Made one_file second_name w
        × Undone one_file second_name w)
fs_mkdir-root_example =
    fs_mkdir-root one_file second_name second_name-IsLeaf refl second_is_new second_is_no_dot
      new_is_used

-- A directory of two clusters that hold no entry.
abbrev sub : Dirent
sub = record file { attr = 0x10; file_size = 0 }

abbrev one_folder : Volume
one_folder = record one_file { root = λ i. if i == 0 then sub else one_file.root i }

sub_entry : root_entry one_folder typed_name ≡ some (sub, root_loc (cwd_dir one_folder) 0)
unfolding find_entry root_items split_name name_loop after_dot ext_loop to_upper fields_eq
sub_entry = refl

typed_is_no_dot : is_dots (leaf_of typed_name) ≡ false
unfolding str_eq_local
typed_is_no_dot = refl

fs_rmdir-root_example :
    ((fs_rmdir typed_name one_folder ≡ fail one_folder)
      × (all_skipped (dir_items one_folder (folder sub) (2 ∷ 3 ∷ [])) ≡ false))
    ⊎ ((w : Volume) × (fs_rmdir typed_name one_folder ≡ ok tt w)
        × (all_skipped (dir_items one_folder (folder sub) (2 ∷ 3 ∷ [])) ≡ true)
        × (is_unused (w.root 0) ≡ true)
        × ((i : ℕ) → i ≢ 0 → w.root i ≡ one_folder.root i)
        × ((a : ℕ)
            → a < end_cluster
            → fat_read w.disk a
              ≡ (if has a (2 ∷ 3 ∷ []) then cluster_free else fat_read one_folder.disk a)))
fs_rmdir-root_example =
    fs_rmdir-root one_folder typed_name sub (root_loc (cwd_dir one_folder) 0) (2 ∷ 3 ∷ [])
      typed_name-IsLeaf refl sub_entry typed_is_no_dot refl two_links-Chain

-- The same with the entries that `fs_mkdir` writes in the first cluster.
abbrev nested : Volume
nested = record one_folder {
  disk = disk_write_sector two_links (cluster_to_lba 2) (fresh_block 2 0);
}

nested_entry : root_entry nested typed_name ≡ some (sub, root_loc (cwd_dir nested) 0)
unfolding cwd_dir
nested_entry = sub_entry

nested-Chain : Chain nested.disk 2 (2 ∷ 3 ∷ [])
unfolding fat_read fat_write disk_write_sector cluster_to_lba
nested-Chain =
    (refl, (omega arith, omega arith), refl, (refl, (omega arith, omega arith), refl, refl))

nested_parent :
    find_entry dotdot_name empty_ext (dir_items nested (folder sub) (2 ∷ 3 ∷ []))
    ≡ some (dotdot 0, chain_loc (folder sub) 2 1)
unfolding find_entry chain_items cluster_items entry_at bytes_at set_entry dirent_byte new_entry
    fields_eq disk_write_sector cluster_to_lba
nested_parent = refl

fs_chdir-root_example :
    (w : Volume) × (u : Volume) × (fs_chdir typed_name nested ≡ ok tt w)
    × (cwd_dir w ≡ folder sub)
    × (w.disk ≡ nested.disk)
    × (w.root ≡ nested.root)
    × (fs_chdir parent_name w ≡ ok tt u)
    × (u.cwd_is_root ≡ true)
    × (u.cwd_path ≡ nested.cwd_path)
    × (u.disk ≡ nested.disk)
    × (u.root ≡ nested.root)
unfolding new_entry dirent_to_display
fs_chdir-root_example =
    fs_chdir-root nested typed_name sub (root_loc (cwd_dir nested) 0) typed_name-IsLeaf refl
      nested_entry (omega arith) typed_is_no_dot refl refl (2 ∷ 3 ∷ []) (dotdot 0)
      (chain_loc (folder sub) 2 1) nested-Chain nested_parent refl file-NoSlash
      (omega (arith, file_fits)) (omega (arith, file_fits))
