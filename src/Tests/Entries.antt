-- ===== src/Tests/Entries.antt =====
-- Names, directory entries and the root directory of kernel/fs.c on one file.
use rink_os.Prelude.{
  ℕ, ◌≡◌, refl, true, false, ◌==◌, if◌then◌else◌, List, [], ◌∷◌, arith, replicate,
}
use rink_os.Dirent.{Dirent}
use rink_os.Dirent.Codec.{IsDirent}
use rink_os.Names.{
  to_upper, split_name, dirent_to_display, pad, name_loop, after_dot, ext_loop, until_space,
}
use rink_os.Names.Display.{split_name-dirent_to_display}
use rink_os.Volume.{Volume, root_load, root_save}
use rink_os.Volume.Root.{root_load-root_save}
use rink_os.Dir.{DirRef, dir_scan}
use rink_os.Dir.Items.{dir_items}
use rink_os.Dir.Scan.{find_entry, dir_scan-find_entry}
use rink_os.Volume.{ok}
use rink_os.Tests.Fat.{two_links, two_links-Chain}

-- `a.txt` as it is typed, and its entry.
abbrev pub typed_name : List ℕ
typed_name = b'a' ∷ b'.' ∷ b't' ∷ b'x' ∷ b't' ∷ []

abbrev pub file : Dirent
file = record {
  name = pad 8 (b'A' ∷ []);
  ext = pad 3 (b'T' ∷ b'X' ∷ b'T' ∷ []);
  attr = 0x20;
  reserved = replicate 10 0;
  time = 0;
  date = 0;
  first_cluster = 2;
  file_size = 600;
}

abbrev pub nothing : Dirent
nothing = record {
  name = replicate 8 0;
  ext = replicate 3 0;
  attr = 0;
  reserved = replicate 10 0;
  time = 0;
  date = 0;
  first_cluster = 0;
  file_size = 0;
}

-- A volume whose root has the file as its first entry.
abbrev pub one_file : Volume
one_file = record {
  disk = two_links;
  root = λ i. if i == 0 then file else nothing;
  cwd_is_root = true;
  cwd_cluster = 0;
  cwd_path = b'/' ∷ [];
}

pub file-IsDirent : IsDirent file
file-IsDirent = record {
  name_len = refl;
  ext_len = refl;
  reserved_len = refl;
  time_lt = omega arith;
  date_lt = omega arith;
  first_cluster_lt = omega arith;
  file_size_lt = omega arith;
}

typed_name_splits : split_name typed_name ≡ (file.name, file.ext)
unfolding split_name name_loop after_dot ext_loop to_upper
typed_name_splits = refl

file_displays : dirent_to_display file ≡ b'A' ∷ b'.' ∷ b'T' ∷ b'X' ∷ b'T' ∷ []
unfolding dirent_to_display until_space
file_displays = refl

split_name-dirent_to_display_example : split_name (dirent_to_display file) ≡ (file.name, file.ext)
unfolding to_upper
split_name-dirent_to_display_example =
    split_name-dirent_to_display file (b'A' ∷ []) (b'T' ∷ b'X' ∷ b'T' ∷ []) refl refl (omega arith)
      (omega arith) (omega arith) (omega arith)

root_load-root_save_example : (root_load (root_save one_file)).root 0 ≡ file
root_load-root_save_example =
    root_load-root_save one_file (root_save one_file) 0 (omega arith) file-IsDirent refl

abbrev pub sub : DirRef
sub = record { is_root = false; cluster = 2 }

dir_scan-find_entry_example :
    dir_scan sub file.name file.ext one_file
    ≡ ok (find_entry file.name file.ext (dir_items one_file sub (2 ∷ 3 ∷ []))) one_file
dir_scan-find_entry_example =
    dir_scan-find_entry one_file sub (2 ∷ 3 ∷ []) file.name file.ext two_links-Chain
