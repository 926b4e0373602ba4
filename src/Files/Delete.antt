-- ===== src/Files/Delete.antt =====
-- `fs_delete` and `fs_stat` of kernel/fs.c on a file of the root.
use rink_os.Prelude.{
  ℕ, ◌<◌, ◌≡◌, ◌≢◌, ◌∙◌, refl, true, false, List, [], ◌∷◌, some, arith, ◌==◌, ◌||◌, set, get_or,
  if◌then◌else◌,
}
use rink_os.Fat.{cluster_free, end_cluster, fat_read}
use rink_os.Fat.Room.{has}
use rink_os.Fat.Chain.{Chain, free_all, fat_read-free_all}
use rink_os.Dirent.{Dirent, is_unused, is_directory}
use rink_os.Volume.{Volume, ok, root_save}
use rink_os.Volume.Root.{fat_read-root_save}
use rink_os.Dir.{EntryLoc, cwd_dir}
use rink_os.Dir.Update.{find_entry-FoundAt}
use rink_os.Fat.{root_entries}
use rink_os.Files.{scan_or_fail, deleted, fs_delete, fs_stat}
use rink_os.Files.Round.{
  IsLeaf, root_entry, resolve_parent-leaf, scan, free_if_any-Chain, write_entry-root, stored,
}
use rink_os.Files.Keep.{found-root}

is_unused-deleted : (e : Dirent) → is_unused e ≡ false → is_unused (deleted e) ≡ true
unfolding deleted
is_unused-deleted e h = go e.name h
  where
    go :
        (xs : List ℕ)
        → (get_or xs 0 0 == 0) || (get_or xs 0 0 == 0xE5) ≡ false
        → (get_or (set xs 0 0xE5) 0 0 == 0) || (get_or (set xs 0 0xE5) 0 0 == 0xE5) ≡ true
    go [] h = cc
    go (x ∷ xs) h = refl

module _ (v : Volume) (path : List ℕ) (e : Dirent) (loc : EntryLoc) (cs : List ℕ)
    (leaf : IsLeaf path) (root : v.cwd_is_root ≡ true)
    (found : root_entry v path ≡ some (e, loc)) where
  -- fs_stat
  pub fs_stat-found : fs_stat path v ≡ ok e.file_size v
  unfolding fs_stat scan_or_fail
  fs_stat-found = rw (resolve_parent-leaf v path leaf, scan v path e loc leaf root found) refl

  abbrev pub after : Volume
  after = stored v loc (deleted e) (free_all cs v.disk)

  fs_delete-after :
      is_directory e ≡ false → Chain v.disk e.first_cluster cs → fs_delete path v ≡ ok tt after
  unfolding fs_delete scan_or_fail
  fs_delete-after file chain =
      rw
        (
          resolve_parent-leaf v path leaf,
          scan v path e loc leaf root found,
          file,
          free_if_any-Chain v e.first_cluster cs chain,
          write_entry-root v loc (deleted e) (free_all cs v.disk)
              (found-root v path e loc root found),
        )
        refl

  pub after-at : is_unused (after.root loc.root_index) ≡ true
  unfolding root_save
  after-at =
      let f = find_entry-FoundAt _ _ (cwd_dir v) v.root root_entries 0 e loc found in
      let here : (loc.root_index == loc.root_index) ≡ true = ground arith in
      rw here (is_unused-deleted e f.used)

  pub after-other : (i : ℕ) → i ≢ loc.root_index → after.root i ≡ v.root i
  unfolding root_save
  after-other i ne = ground arith

  pub after-table :
      (a : ℕ)
      → a < end_cluster
      → fat_read after.disk a ≡ (if has a cs then cluster_free else fat_read v.disk a)
  after-table a lt = fat_read-root_save _ a lt ∙ fat_read-free_all cs v.disk a (omega arith)

  -- For a path of one component that names a file in the root, the current directory, whose
  -- contents are a chain that ends, fs_delete returns 0; its entry is unused then and the other
  -- entries stay, its clusters are free and the other entries of the table stay.
  pub fs_delete-root :
      is_directory e ≡ false
      → Chain v.disk e.first_cluster cs
      → (w : Volume) × (fs_delete path v ≡ ok tt w)
        × (is_unused (w.root loc.root_index) ≡ true)
        × ((i : ℕ) → i ≢ loc.root_index → w.root i ≡ v.root i)
        × ((a : ℕ)
            → a < end_cluster
            → fat_read w.disk a ≡ (if has a cs then cluster_free else fat_read v.disk a))
  fs_delete-root file chain =
      (after, fs_delete-after file chain, after-at, after-other, after-table)
