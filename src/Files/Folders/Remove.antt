-- ===== src/Files/Folders/Remove.antt =====
-- `fs_rmdir` of kernel/fs.c on a directory of the root.
use rink_os.Prelude.{
  ℕ, zero, suc, ◌<◌, ◌≡◌, ◌≢◌, ◌⊎◌, refl, Bool, true, false, Bool-cases, inl, inr, List, [], ◌∷◌,
  some, arith, length, ◌==◌, ◌&&◌, not, if◌then◌else◌,
}
use rink_os.Fat.{cluster_free, end_cluster, fat_read}
use rink_os.Fat.Room.{has}
use rink_os.Fat.Chain.{Chain, free_all, fat_free_chain-Chain}
use rink_os.Dirent.{Dirent, is_unused, is_directory}
use rink_os.Volume.{Volume, ok, fail}
use rink_os.Dir.{DirRef, EntryLoc, DirIter, max_steps, dir_iter_start, dir_iter_next}
use rink_os.Dir.Items.{Items, Iterates, dir_items, dir_iter-Iterates, length-dir_items}
use rink_os.Files.{resolve_leaf, scan_or_fail, deleted}
use rink_os.Files.Round.{
  IsLeaf, leaf_of, root_entry, resolve_parent-leaf, length-leaf_of, scan, write_entry-root,
}
use rink_os.Files.Keep.{found-root}
use rink_os.Files.Delete.{after, after-at, after-other, after-table}
use rink_os.Files.Folders.{is_dots, is_skipped, empty_loop, fs_rmdir}

-- No entry in use, but those of the directory itself and its parent.
abbrev pub all_skipped : Items → Bool
all_skipped [] = true
all_skipped (x ∷ xs) = is_skipped x.0 && all_skipped xs

empty_loop-all_skipped :
    (k : ℕ) (v : Volume) (it : DirIter) (xs : Items)
    → length xs < k
    → Iterates v it xs
    → empty_loop k v it ≡ some (all_skipped xs)
unfolding empty_loop
empty_loop-all_skipped zero v it xs lt h = absurd (omega arith)
empty_loop-all_skipped (suc k) v it [] lt h = rw (h, empty_loop) refl
empty_loop-all_skipped (suc k) v it (x ∷ xs) lt h =
    let ih = empty_loop-all_skipped k v (dir_iter_next v it).1 xs (omega arith) h.2 in
    rw (h.0, empty_loop, ih) (ground arith)

-- The subdirectory that an entry names.
abbrev pub folder : Dirent → DirRef
folder e = record { is_root = false; cluster = e.first_cluster }

module _ (v : Volume) (path : List ℕ) (e : Dirent) (loc : EntryLoc) (cs : List ℕ)
    (leaf : IsLeaf path) (root : v.cwd_is_root ≡ true) (found : root_entry v path ≡ some (e, loc))
    (not_dots : is_dots (leaf_of path) ≡ false) (directory : is_directory e ≡ true)
    (chain : Chain v.disk e.first_cluster cs) where
  abbrev inside : Items
  inside = dir_items v (folder e) cs

  empty : empty_loop max_steps v (dir_iter_start (folder e)) ≡ some (all_skipped inside)
  empty =
      empty_loop-all_skipped max_steps v (dir_iter_start (folder e)) inside
        (length-dir_items v (folder e) cs chain) (dir_iter-Iterates v (folder e) cs chain)

  elsewhere : (not v.cwd_is_root && (v.cwd_cluster == e.first_cluster)) ≡ false
  elsewhere = ground (arith, root)

  keeps_full : all_skipped inside ≡ false → fs_rmdir path v ≡ fail v
  unfolding fs_rmdir resolve_leaf scan_or_fail
  keeps_full full =
      rw
        (
          resolve_parent-leaf v path leaf,
          length-leaf_of path leaf.some_byte,
          not_dots,
          scan v path e loc leaf root found,
          directory,
          elsewhere,
          empty,
          full,
        )
        refl

  removes_empty :
      all_skipped inside ≡ true → fs_rmdir path v ≡ ok tt (after v path e loc cs leaf root found)
  unfolding fs_rmdir resolve_leaf scan_or_fail
  removes_empty none_used =
      rw
        (
          resolve_parent-leaf v path leaf,
          length-leaf_of path leaf.some_byte,
          not_dots,
          scan v path e loc leaf root found,
          directory,
          elsewhere,
          empty,
          none_used,
          fat_free_chain-Chain v.disk e.first_cluster cs chain,
          write_entry-root v loc (deleted e) (free_all cs v.disk)
              (found-root v path e loc root found),
        )
        refl

  -- For a path of one component that is neither dot nor dotdot and names a directory in the root,
  -- the current directory, whose clusters are a chain that ends: where the directory has an entry
  -- in use besides those of itself and its parent, fs_rmdir fails and leaves the volume alone;
  -- otherwise it returns 0, the entry is unused then and the other entries stay, its clusters are
  -- free and the other entries of the table stay.
  pub fs_rmdir-root :
      ((fs_rmdir path v ≡ fail v) × (all_skipped (dir_items v (folder e) cs) ≡ false))
      ⊎ ((w : Volume) × (fs_rmdir path v ≡ ok tt w)
          × (all_skipped (dir_items v (folder e) cs) ≡ true)
          × (is_unused (w.root loc.root_index) ≡ true)
          × ((i : ℕ) → i ≢ loc.root_index → w.root i ≡ v.root i)
          × ((a : ℕ)
              → a < end_cluster
              → fat_read w.disk a ≡ (if has a cs then cluster_free else fat_read v.disk a)))
  fs_rmdir-root = elim (Bool-cases (all_skipped inside)) [
    | inr full ↦ inl (keeps_full full, full)
    | inl none_used ↦ inr (
      after v path e loc cs leaf root found,
      removes_empty none_used,
      none_used,
      after-at v path e loc cs leaf root found,
      after-other v path e loc cs leaf root found,
      after-table v path e loc cs leaf root found,
    )
  ]
