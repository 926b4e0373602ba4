-- ===== src/Tests/Files.antt =====
-- `fs_write` and `fs_read` of kernel/fs.c on the one file of a volume.
use rink_os.Prelude.{
  ℕ, ◌≤◌, ◌≡◌, inl, inr, refl, Bool-cases, some, List, [], ◌∷◌, arith, length, replicate, ◌==◌,
}
use rink_os.Fat.{fat_read, fat_write}
use rink_os.Fat.Chain.{free_all}
use rink_os.Names.{split_name, name_loop, after_dot, ext_loop, to_upper}
use rink_os.Volume.{Volume, ok}
use rink_os.Dir.{cwd_dir}
use rink_os.Dir.Items.{root_items, root_loc}
use rink_os.Dir.Scan.{find_entry}
use rink_os.Dirent.{fields_eq}
use rink_os.Walk.{last_slash}
use rink_os.Files.{clusters_for, fs_read, fs_write}
use rink_os.Files.Blocks.{write_loop}
use rink_os.Files.Blocks.Total.{AllFree, WriteResult, write_loop-WriteResult}
use rink_os.Files.Round.{IsLeaf, root_entry, fs_read-fs_write}
use rink_os.Tests.Fat.{blank, two_links, two_links-Chain}
use rink_os.Tests.Entries.{typed_name, file, one_file}

-- More than one block, and less than two.
abbrev bytes : List ℕ
bytes = replicate 600 b'x'

abbrev pub room : List ℕ
room = 2 ∷ 5 ∷ []

blank-AllFree : AllFree blank room
unfolding fat_read
blank-AllFree a h = (ground arith, refl)

two_clusters : clusters_for 600 ≡ 2
unfolding clusters_for
two_clusters = refl

write_loop-WriteResult_example :
    WriteResult 2 0 0 0 bytes two_links (write_loop 2 0 0 0 bytes two_links)
write_loop-WriteResult_example = write_loop-WriteResult 2 0 0 0 bytes two_links (inl (refl, refl))

pub typed_name-IsLeaf : IsLeaf typed_name
unfolding last_slash
typed_name-IsLeaf = record { some_byte = omega arith; no_slash = refl }

pub the_entry : root_entry one_file typed_name ≡ some (file, root_loc (cwd_dir one_file) 0)
unfolding find_entry root_items split_name name_loop after_dot ext_loop to_upper fields_eq
the_entry = refl

pub freed-AllFree : AllFree (free_all (2 ∷ 3 ∷ []) two_links) room
unfolding free_all fat_read fat_write
freed-AllFree a h = elim (Bool-cases (a == 2)) [
  | inl here ↦ let e : a ≡ 2 = ground arith in rw e ((omega arith, omega arith), refl)
  | inr other ↦ let e : a ≡ 5 = ground arith in rw e ((omega arith, omega arith), refl)
]

fs_read-fs_write_example :
    (w : Volume) × (fs_write typed_name bytes one_file ≡ ok tt w)
    × ((max_size : ℕ) → length bytes ≤ max_size → fs_read typed_name max_size w ≡ ok bytes w)
fs_read-fs_write_example =
    fs_read-fs_write one_file typed_name bytes file (root_loc (cwd_dir one_file) 0) (2 ∷ 3 ∷ [])
      room typed_name-IsLeaf refl the_entry refl two_links-Chain (omega arith) (refl, (refl, tt))
      freed-AllFree (omega (arith, two_clusters))
