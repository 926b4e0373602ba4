-- ===== src/Files/Create.antt =====
-- `fs_create` of kernel/fs.c with a name that is new in the root.
use rink_os.Prelude.{
  ℕ, ◌<◌, ◌≡◌, ◌≢◌, ◌⊎◌, ◌∙◌, sym, refl, ap, true, false, inl, inr, List, [], ◌∷◌, none, some,
  arith,
}
use rink_os.Fat.{root_entries}
use rink_os.Dirent.{Dirent, attr_normal, is_unused, fields_eq}
use rink_os.Names.{split_name}
use rink_os.Volume.{Volume, ok, fail, root_save}
use rink_os.Dir.{
  DirRef, EntryLoc, Slot, unused, full, cwd_dir, names_eq, dir_find_free, dir_scan, place, grow,
}
use rink_os.Dir.Items.{root_items}
use rink_os.Dir.FindFree.{
  first_unused, dir_find_free-first_unused, IsFree, first_unused-IsFree, find_entry-put_new,
}
use rink_os.Files.{new_entry, resolve_leaf, fs_create}
use rink_os.Files.Round.{
  IsLeaf, leaf_of, root_entry, resolve_parent-leaf, length-leaf_of, dir_scan-root, cwd_dir-root,
  write_entry-root, stored,
}

pub fields_eq_refl : (xs : List ℕ) → fields_eq xs xs ≡ true
unfolding fields_eq
fields_eq_refl [] = refl
fields_eq_refl (x ∷ xs) = ground (arith, fields_eq_refl xs)

-- The entry that `fs_create` makes for a path of one component.
abbrev pub created : List ℕ → Dirent
created path = new_entry (split_name (leaf_of path)).0 (split_name (leaf_of path)).1 attr_normal 0

pub created-names :
    (path : List ℕ)
    → names_eq (split_name (leaf_of path)).0 (split_name (leaf_of path)).1 (created path) ≡ true
unfolding new_entry
created-names path =
    rw (fields_eq_refl (split_name (leaf_of path)).0, fields_eq_refl (split_name (leaf_of path)).1)
      refl

pub dir_find_free-root :
    (v : Volume) (dir : DirRef)
    → dir.is_root ≡ true
    → dir_find_free dir v ≡ place dir (first_unused true 0 (root_items dir v.root root_entries 0)) v
dir_find_free-root v dir root = dir_find_free-first_unused v dir [] (simp root tt) ∙ simp root refl

module _ (v : Volume) (path : List ℕ) (leaf : IsLeaf path) (root : v.cwd_is_root ≡ true)
    (new : root_entry v path ≡ none) (named : is_unused (created path) ≡ false) where
  scan :
      dir_scan (cwd_dir v) (split_name (leaf_of path)).0 (split_name (leaf_of path)).1 v ≡ ok none v
  scan = dir_scan-root v (cwd_dir v) _ _ (cwd_dir-root v root) ∙ ap (λ x. ok x v) new

  -- A slot, or none.
  abbrev slot : Slot
  slot = first_unused true 0 (root_items (cwd_dir v) v.root root_entries 0)

  abbrev Created : Type 0
  Created =
      ((fs_create path v ≡ fail v) × ((i : ℕ) → i < root_entries → is_unused (v.root i) ≡ false))
      ⊎ ((w : Volume) × (loc : EntryLoc) × (fs_create path v ≡ ok tt w)
          × (is_unused (v.root loc.root_index) ≡ true)
          × (root_entry w path ≡ some (created path, loc))
          × ((i : ℕ) → i ≢ loc.root_index → w.root i ≡ v.root i))

  created-in : (s : Slot) → slot ≡ s → IsFree (cwd_dir v) v.root root_entries 0 s → Created
  unfolding fs_create resolve_leaf grow root_save cwd_dir place
  created-in (full last) e h = inl (
    rw
        (
          resolve_parent-leaf v path leaf,
          length-leaf_of path leaf.some_byte,
          scan,
          dir_find_free-root v (cwd_dir v) (cwd_dir-root v root),
          e,
          root,
        )
        refl,
    λ i lt. h i (omega arith) (omega arith),
  )
  created-in (unused loc) e h = inr (
    stored v loc (created path) v.disk,
    loc,
    rw
        (
          resolve_parent-leaf v path leaf,
          length-leaf_of path leaf.some_byte,
          scan,
          dir_find_free-root v (cwd_dir v) (cwd_dir-root v root),
          e,
          write_entry-root v loc (created path) v.disk
              (ap (λ l. l.dir.is_root) h.0 ∙ cwd_dir-root v root),
        )
        refl,
    h.3,
    find_entry-put_new _ _ (cwd_dir v) v.root root_entries 0 loc.root_index (created path) new
          (omega arith) h.2 named (created-names path)
        ∙ ap (λ l. some (created path, l)) (sym h.0),
    λ i ne. ground arith,
  )

  -- For a path of one component that names nothing in the root, the current directory, and whose
  -- entry does not begin with a mark of an unused one, fs_create fails only if all 128 entries are
  -- in use, and leaves the volume alone then; otherwise it returns 0, a scan finds the new entry
  -- at a place that was unused, and the other entries stay.
  pub fs_create-root :
      ((fs_create path v ≡ fail v) × ((i : ℕ) → i < root_entries → is_unused (v.root i) ≡ false))
      ⊎ ((w : Volume) × (loc : EntryLoc) × (fs_create path v ≡ ok tt w)
          × (is_unused (v.root loc.root_index) ≡ true)
          × (root_entry w path ≡ some (created path, loc))
          × ((i : ℕ) → i ≢ loc.root_index → w.root i ≡ v.root i))
  fs_create-root = created-in slot refl (first_unused-IsFree (cwd_dir v) v.root root_entries 0 0)
