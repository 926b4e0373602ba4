-- ===== src/Files/Rename.antt =====
-- `fs_rename` of kernel/fs.c on an entry of the current directory, where that is the root.
use rink_os.Prelude.{ℕ, ◌≡◌, ◌≢◌, ◌∙◌, sym, refl, ap, true, false, List, none, some, arith, min}
use rink_os.Fat.{root_entries}
use rink_os.Fat.Chain.{Chain}
use rink_os.Dirent.{Dirent, is_unused, is_directory}
use rink_os.Names.{split_name}
use rink_os.Volume.{Volume, ok, root_save}
use rink_os.Dir.{DirRef, EntryLoc, cwd_dir, dir_scan, names_eq}
use rink_os.Dir.Update.{put_root, find_entry-FoundAt}
use rink_os.Dir.FindFree.{find_entry-put_new}
use rink_os.Files.{clusters_for, scan_or_fail, same_dir, fs_rename, fs_read}
use rink_os.Files.Blocks.{read_loop}
use rink_os.Files.Round.{
  IsLeaf, leaf_of, root_entry, resolve_parent-leaf, length-leaf_of, dir_scan-root, cwd_dir-root,
  scan, write_entry-root, stored, stored-cwd_is_root, fs_read-found,
}
use rink_os.Files.Others.{read_loop-Spares}
use rink_os.Files.Keep.{found-root, root_save-Spares}
use rink_os.Files.Create.{fields_eq_refl}

-- The entry under the name that the path gives.
abbrev pub renamed : Dirent → List ℕ → Dirent
renamed e path = record e {
  name = (split_name (leaf_of path)).0;
  ext = (split_name (leaf_of path)).1;
}

same_dir_self : (d : DirRef) → same_dir d d ≡ true
same_dir_self d = ground arith

module _ (v : Volume) (old_path new_path : List ℕ) (e : Dirent) (loc : EntryLoc)
    (old_leaf : IsLeaf old_path) (new_leaf : IsLeaf new_path) (root : v.cwd_is_root ≡ true)
    (found : root_entry v old_path ≡ some (e, loc)) (new : root_entry v new_path ≡ none)
    (named : is_unused (renamed e new_path) ≡ false) where
  new_scan :
      dir_scan (cwd_dir v) (split_name (leaf_of new_path)).0 (split_name (leaf_of new_path)).1 v
      ≡ ok none v
  new_scan = dir_scan-root v (cwd_dir v) _ _ (cwd_dir-root v root) ∙ ap (λ x. ok x v) new

  abbrev after : Volume
  after = stored v loc (renamed e new_path) v.disk

  renames : fs_rename old_path new_path v ≡ ok tt after
  unfolding fs_rename scan_or_fail
  renames =
      rw
        (
          resolve_parent-leaf v old_path old_leaf,
          scan v old_path e loc old_leaf root found,
          resolve_parent-leaf v new_path new_leaf,
          length-leaf_of new_path new_leaf.some_byte,
          same_dir_self (cwd_dir v),
          new_scan,
          write_entry-root v loc (renamed e new_path) v.disk
              (found-root v old_path e loc root found),
        )
        refl

  takes_name :
      names_eq
        (split_name (leaf_of new_path)).0
        (split_name (leaf_of new_path)).1
        (renamed e new_path)
      ≡ true
  takes_name =
      rw
        (
          fields_eq_refl (split_name (leaf_of new_path)).0,
          fields_eq_refl (split_name (leaf_of new_path)).1,
        )
        refl

  found_after : root_entry after new_path ≡ some (renamed e new_path, loc)
  unfolding root_save cwd_dir
  found_after =
      let f = find_entry-FoundAt _ _ (cwd_dir v) v.root root_entries 0 e loc found in
      find_entry-put_new _ _ (cwd_dir v) v.root root_entries 0 loc.root_index (renamed e new_path)
        new f.lo f.hi named takes_name
      ∙ ap (λ l. some (renamed e new_path, l)) (sym f.place)

  others_stay : (i : ℕ) → i ≢ loc.root_index → after.root i ≡ v.root i
  unfolding root_save
  others_stay i ne = ground arith

  -- For two paths of one component, of which the first names a file in the root, the current
  -- directory, whose contents are a chain that ends, and the second names nothing there and does
  -- not begin with a mark of an unused entry: fs_rename returns 0; the second path then names that
  -- entry, the other entries stay, and a read under the new name gives what a read under the old
  -- one gave before.
  pub fs_rename-root :
      (cs : List ℕ)
      → is_directory e ≡ false
      → Chain v.disk e.first_cluster cs
      → (w : Volume) × (fs_rename old_path new_path v ≡ ok tt w)
        × (root_entry w new_path ≡ some (renamed e new_path, loc))
        × ((i : ℕ) → i ≢ loc.root_index → w.root i ≡ v.root i)
        × ((max_size : ℕ)
            → (bytes : List ℕ) × (fs_read old_path max_size v ≡ ok bytes v)
              × (fs_read new_path max_size w ≡ ok bytes w))
  fs_rename-root cs file chain = (
    after,
    renames,
    found_after,
    others_stay,
    λ max_size.
        let size = min e.file_size max_size in
        (
          read_loop (clusters_for size) e.first_cluster size 0 v.disk,
          fs_read-found v old_path e loc old_leaf root found max_size file,
          fs_read-found after new_path (renamed e new_path) loc new_leaf
                (stored-cwd_is_root v loc (renamed e new_path) v.disk ∙ root) found_after max_size
                file
              ∙ ap (λ b. ok b after)
                  (read_loop-Spares (clusters_for size) e.first_cluster size 0 v.disk after.disk cs
                    chain
                    (root_save-Spares
                      (record v { root = put_root v.root loc.root_index (renamed e new_path) })
                      cs)),
        ),
  )
