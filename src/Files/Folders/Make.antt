-- ===== src/Files/Folders/Make.antt =====
-- `fs_mkdir` of kernel/fs.c with a name that is new in the root: its runs.
use rink_os.Prelude.{
  ℕ, ◌<◌, ◌≡◌, ◌∙◌, refl, ap, true, false, inr, List, [], ◌∷◌, none, arith, ◌==◌, if◌then◌else◌,
}
use rink_os.Disk.{Disk, zero_buf, disk_read_sector, disk_write_sector}
use rink_os.Fat.{root_entries, cluster_eoc, cluster_to_lba, fat_read, fat_write}
use rink_os.Fat.Entry.{table_entries, IsOutside, fat_read-fat_write, fat_read-disk_write_sector}
use rink_os.Fat.Chain.{IsData, Chain, free_all, fat_free_chain-Chain}
use rink_os.Dirent.{Dirent, attr_directory, set_entry}
use rink_os.Names.{split_name}
use rink_os.Volume.{Volume, ok, fail}
use rink_os.Dir.{
  EntryLoc, Slot, unused, full, cwd_dir, dir_scan, dir_write_entry, alloc_or_fail, place, grow,
}
use rink_os.Dir.Items.{root_items}
use rink_os.Dir.FindFree.{first_unused}
use rink_os.Files.{new_entry, resolve_leaf, write_entry}
use rink_os.Files.Blocks.Step.{cluster_to_lba-ge}
use rink_os.Files.Round.{
  IsLeaf, leaf_of, root_entry, resolve_parent-leaf, length-leaf_of, dir_scan-root, cwd_dir-root,
  write_entry-root, stored,
}
use rink_os.Files.Create.{dir_find_free-root}
use rink_os.Files.Folders.{is_dots, own_loc, find_free_or_release, fs_mkdir}
use rink_os.Files.Folders.Block.{dot, dotdot, fresh_block}

write_entry-own :
    (v : Volume) (c i : ℕ) (e : Dirent)
    → write_entry (own_loc c i) e v
      ≡ ok tt (record v {
        disk =
            disk_write_sector v.disk
              (cluster_to_lba c)
              (set_entry (disk_read_sector v.disk (cluster_to_lba c)) i e);
      })
unfolding write_entry dir_write_entry
write_entry-own v c i e = refl

abbrev cleared : Disk → ℕ → Disk
cleared d c = disk_write_sector (fat_write d c cluster_eoc) (cluster_to_lba c) zero_buf

abbrev with_dot : Disk → ℕ → Disk
with_dot d c =
    disk_write_sector (cleared d c) (cluster_to_lba c)
      (set_entry (disk_read_sector (cleared d c) (cluster_to_lba c)) 0 (dot c))

-- The disk once the new cluster holds the entries of the directory itself and its parent.
abbrev pub prepared : Disk → ℕ → Disk
prepared d c =
    disk_write_sector (with_dot d c) (cluster_to_lba c)
      (set_entry (disk_read_sector (with_dot d c) (cluster_to_lba c)) 1 (dotdot 0))

pub prepared-block : (d : Disk) (c : ℕ) → prepared d c (cluster_to_lba c) ≡ fresh_block c 0
unfolding disk_write_sector disk_read_sector
prepared-block d c =
    let here : (cluster_to_lba c == cluster_to_lba c) ≡ true = ground arith in rw here refl

pub prepared-table :
    (d : Disk) (c a : ℕ)
    → IsData c
    → a < table_entries
    → fat_read (prepared d c) a ≡ (if a == c then cluster_eoc else fat_read d a)
prepared-table d c a data_c lt =
    let l = cluster_to_lba c in
    let out : IsOutside l = inr (omega (arith, cluster_to_lba-ge c data_c)) in
    fat_read-disk_write_sector _ a l _ lt out
    ∙ fat_read-disk_write_sector _ a l _ lt out
    ∙ fat_read-disk_write_sector _ a l _ lt out
    ∙ fat_read-fat_write d a c cluster_eoc lt (omega arith)

pub prepared-Chain : (d : Disk) (c : ℕ) → IsData c → Chain (prepared d c) c (c ∷ [])
prepared-Chain d c data_c =
    (refl, data_c, refl, ground (arith, prepared-table d c c data_c (ground (arith, data_c))))

-- The entry that `fs_mkdir` makes for a path of one component.
abbrev pub made : List ℕ → ℕ → Dirent
made path c = new_entry (split_name (leaf_of path)).0 (split_name (leaf_of path)).1 attr_directory c

module _ (v : Volume) (path : List ℕ) (leaf : IsLeaf path) (root : v.cwd_is_root ≡ true)
    (new : root_entry v path ≡ none) (not_dots : is_dots (leaf_of path) ≡ false) where
  scan :
      dir_scan (cwd_dir v) (split_name (leaf_of path)).0 (split_name (leaf_of path)).1 v ≡ ok none v
  scan = dir_scan-root v (cwd_dir v) _ _ (cwd_dir-root v root) ∙ ap (λ x. ok x v) new

  -- A slot, or none.
  abbrev pub slot : Slot
  slot = first_unused true 0 (root_items (cwd_dir v) v.root root_entries 0)

  top : (if (cwd_dir v).is_root then 0 else (cwd_dir v).cluster) ≡ 0
  top = rw (cwd_dir-root v root) refl

  find-full :
      (c last : ℕ)
      → IsData c
      → slot ≡ full last
      → find_free_or_release (cwd_dir v) c (record v { disk = prepared v.disk c })
        ≡ fail (record v { disk = free_all (c ∷ []) (prepared v.disk c) })
  unfolding find_free_or_release place grow
  find-full c last data_c e =
      rw
        (
          dir_find_free-root (record v { disk = prepared v.disk c }) (cwd_dir v)
              (cwd_dir-root v root),
          find_free_or_release,
          e,
          cwd_dir-root v root,
          fat_free_chain-Chain (prepared v.disk c) c (c ∷ []) (prepared-Chain v.disk c data_c),
        )
        refl

  find-unused :
      (c : ℕ) (loc : EntryLoc)
      → slot ≡ unused loc
      → find_free_or_release (cwd_dir v) c (record v { disk = prepared v.disk c })
        ≡ ok loc (record v { disk = prepared v.disk c })
  unfolding find_free_or_release place
  find-unused c loc e =
      rw
        (
          dir_find_free-root (record v { disk = prepared v.disk c }) (cwd_dir v)
              (cwd_dir-root v root),
          find_free_or_release,
          e,
        )
        refl

  pub no_cluster : alloc_or_fail v ≡ fail v → fs_mkdir path v ≡ fail v
  unfolding fs_mkdir resolve_leaf
  no_cluster none_left =
      rw
        (
          resolve_parent-leaf v path leaf,
          length-leaf_of path leaf.some_byte,
          not_dots,
          scan,
          none_left,
        )
        refl

  pub no_entry :
      (c last : ℕ)
      → IsData c
      → alloc_or_fail v ≡ ok c (record v { disk = fat_write v.disk c cluster_eoc })
      → slot ≡ full last
      → fs_mkdir path v ≡ fail (record v { disk = free_all (c ∷ []) (prepared v.disk c) })
  unfolding fs_mkdir resolve_leaf
  no_entry c last data_c allocs e =
      rw
        (
          resolve_parent-leaf v path leaf,
          length-leaf_of path leaf.some_byte,
          not_dots,
          scan,
          allocs,
          top,
          write_entry-own (record v { disk = cleared v.disk c }) c 0 (dot c),
          write_entry-own (record v { disk = with_dot v.disk c }) c 1 (dotdot 0),
          find-full c last data_c e,
        )
        refl

  pub makes :
      (c : ℕ) (loc : EntryLoc)
      → alloc_or_fail v ≡ ok c (record v { disk = fat_write v.disk c cluster_eoc })
      → slot ≡ unused loc
      → loc.dir.is_root ≡ true
      → fs_mkdir path v ≡ ok tt (stored v loc (made path c) (prepared v.disk c))
  unfolding fs_mkdir resolve_leaf
  makes c loc allocs e in_root =
      rw
        (
          resolve_parent-leaf v path leaf,
          length-leaf_of path leaf.some_byte,
          not_dots,
          scan,
          allocs,
          top,
          write_entry-own (record v { disk = cleared v.disk c }) c 0 (dot c),
          write_entry-own (record v { disk = with_dot v.disk c }) c 1 (dotdot 0),
          find-unused c loc e,
          write_entry-root v loc (made path c) (prepared v.disk c) in_root,
        )
        refl
