-- ===== src/Tests/Mount.antt =====
-- Renaming a file and mounting a volume again, of kernel/fs.c.
use rink_os.Prelude.{
  ℕ, ◌-◌, ◌<◌, ◌≡◌, ◌≢◌, refl, true, false, Bool-cases, inl, inr, some, List, [], ◌∷◌, arith,
  get_or, ◌==◌, if◌then◌else◌,
}
use rink_os.Disk.{disk_read_sector, disk_write_sector}
use rink_os.Fat.{root_entries}
use rink_os.Dirent.{is_unused, bytes_at, fields_eq}
use rink_os.Dirent.Codec.{IsDirent}
use rink_os.Names.{split_name, name_loop, after_dot, ext_loop, to_upper}
use rink_os.Volume.{Volume, ok, root_save, save_from}
use rink_os.Dir.{cwd_dir}
use rink_os.Dir.Items.{root_items, root_loc}
use rink_os.Dir.Scan.{find_entry}
use rink_os.Files.{fs_read, fs_rename}
use rink_os.Files.Round.{root_entry}
use rink_os.Files.Rename.{renamed, fs_rename-root}
use rink_os.Files.Format.{boot_lba, marker, is_formatted, fs_init}
use rink_os.Files.Format.Mount.{fs_read-fs_init}
use rink_os.Tests.Fat.{two_links, two_links-Chain}
use rink_os.Tests.Entries.{typed_name, file, file-IsDirent, nothing, one_file}
use rink_os.Tests.Files.{typed_name-IsLeaf, the_entry}
use rink_os.Tests.Folder.{second_name, second_name-IsLeaf, second_is_new}

still_used : is_unused (renamed file second_name) ≡ false
unfolding split_name name_loop after_dot ext_loop to_upper
still_used = refl

fs_rename-root_example :
    (w : Volume) × (fs_rename typed_name second_name one_file ≡ ok tt w)
    × (root_entry w second_name ≡ some (renamed file second_name, root_loc (cwd_dir one_file) 0))
    × ((i : ℕ) → i ≢ 0 → w.root i ≡ one_file.root i)
    × ((max_size : ℕ)
        → (bytes : List ℕ) × (fs_read typed_name max_size one_file ≡ ok bytes one_file)
          × (fs_read second_name max_size w ≡ ok bytes w))
fs_rename-root_example =
    fs_rename-root one_file typed_name second_name file (root_loc (cwd_dir one_file) 0)
      typed_name-IsLeaf second_name-IsLeaf refl the_entry second_is_new still_used (2 ∷ 3 ∷ []) refl
      two_links-Chain

-- The disk with the marker in its boot sector.
abbrev marked : Volume
marked = record one_file {
  disk = λ l. if l == boot_lba then (λ o. get_or marker (o - 54) 0) else two_links l;
}

-- Another state of the variables, with that disk.
abbrev restarted : Volume
restarted = record {
  disk = (root_save marked).disk;
  root = λ i. nothing;
  cwd_is_root = false;
  cwd_cluster = 7;
  cwd_path = [];
}

restarted_is_formatted : is_formatted (disk_read_sector restarted.disk boot_lba) ≡ true
unfolding is_formatted disk_read_sector disk_write_sector root_save save_from bytes_at fields_eq
restarted_is_formatted = refl

nothing-IsDirent : IsDirent nothing
nothing-IsDirent = record {
  name_len = refl;
  ext_len = refl;
  reserved_len = refl;
  time_lt = omega arith;
  date_lt = omega arith;
  first_cluster_lt = omega arith;
  file_size_lt = omega arith;
}

marked-IsDirent : (i : ℕ) → i < root_entries → IsDirent (marked.root i)
marked-IsDirent i lt = elim (Bool-cases (i == 0)) [
  | inl first ↦ rw first file-IsDirent
  | inr later ↦ rw later nothing-IsDirent
]

marked_entry : root_entry marked typed_name ≡ some (file, root_loc (cwd_dir marked) 0)
unfolding find_entry root_items split_name name_loop after_dot ext_loop to_upper fields_eq
marked_entry = refl

fs_read-fs_init_example :
    (bytes : List ℕ) × (fs_read typed_name 100 (root_save marked) ≡ ok bytes (root_save marked))
    × (fs_read typed_name 100 (fs_init restarted) ≡ ok bytes (fs_init restarted))
fs_read-fs_init_example =
    fs_read-fs_init marked restarted refl restarted_is_formatted marked-IsDirent typed_name file
      (root_loc (cwd_dir marked) 0) 100 typed_name-IsLeaf refl marked_entry refl
