-- ===== src/Files/Folders/Made.antt =====
-- `fs_mkdir` of kernel/fs.c with a name that is new in the root, and `fs_rmdir` of that directory.
use rink_os.Prelude.{
  ℕ, ◌<◌, ◌≡◌, ◌≢◌, ◌⊎◌, ◌∙◌, refl, sym, ap, true, false, Bool-cases, inl, inr, List, [], ◌∷◌, none,
  some, arith, ◌==◌, if◌then◌else◌,
}
use rink_os.Fat.{root_entries, first_data_cluster, end_cluster, cluster_eoc, fat_read, fat_write}
use rink_os.Fat.Alloc.{NoneFree}
use rink_os.Fat.Chain.{IsData, Chain, Chain-frame, free_all, fat_read-free_all}
use rink_os.Dirent.{is_unused}
use rink_os.Volume.{Volume, ok, fail, root_save}
use rink_os.Volume.Root.{fat_read-root_save, data-root_save}
use rink_os.Dir.{EntryLoc, Slot, unused, full, cwd_dir, alloc_or_fail}
use rink_os.Dir.Items.{dir_items}
use rink_os.Dir.Update.{put_root}
use rink_os.Dir.FindFree.{IsFree, first_unused-IsFree, find_entry-put_new}
use rink_os.Files.{new_entry}
use rink_os.Files.Round.{IsLeaf, leaf_of, root_entry, cwd_dir-root, stored}
use rink_os.Files.Create.{created, created-names}
use rink_os.Files.Folders.{is_dots, fs_mkdir}
use rink_os.Files.Folders.Remove.{all_skipped, folder}
use rink_os.Files.Folders.Block.{all_skipped-fresh_block, alloc_or_fail-cases}
use native.Mathlib.Decide.{ℕ_discrete}
use rink_os.Files.Folders.{fs_rmdir}
use rink_os.Files.Folders.Remove.{fs_rmdir-root}
use rink_os.Files.Round.{stored-cwd_is_root}
use rink_os.Files.Folders.Make.{
  prepared, prepared-block, prepared-table, prepared-Chain, made, slot, no_cluster, no_entry, makes,
}

-- A chain of the new cluster alone, released again, leaves the table as it was.
released-table :
    (v : Volume) (c a : ℕ)
    → IsData c
    → fat_read v.disk c ≡ 0
    → a < end_cluster
    → fat_read (free_all (c ∷ []) (prepared v.disk c)) a ≡ fat_read v.disk a
released-table v c a data_c free_c lt =
    let back = fat_read-free_all (c ∷ []) (prepared v.disk c) a (omega arith) in
    let one = prepared-table v.disk c a data_c (omega arith) in
    elim (Bool-cases (a == c)) [
      | inl here ↦ let q : a ≡ c = ground arith in ground (arith, back, free_c)
      | inr other ↦ ground (arith, back, one)
    ]

module _ (v : Volume) (path : List ℕ) where
  -- The clusters in use are those of before.
  abbrev pub SameTable : Volume → Type 0
  SameTable w = (a : ℕ) → a < end_cluster → fat_read w.disk a ≡ fat_read v.disk a

  -- A new directory with nothing in it, at a place that was unused, on a cluster that was free.
  pub record Made (w : Volume) : Type 0 where
    pub loc : EntryLoc
    pub cluster : ℕ
    pub was_unused : is_unused (v.root loc.root_index) ≡ true
    pub found : root_entry w path ≡ some (made path cluster, loc)
    pub others : (i : ℕ) → i ≢ loc.root_index → w.root i ≡ v.root i
    pub was_free : IsData cluster × (fat_read v.disk cluster ≡ 0)
    pub chain : Chain w.disk cluster (cluster ∷ [])
    pub table :
        (a : ℕ)
        → a < end_cluster
        → fat_read w.disk a ≡ (if a == cluster then cluster_eoc else fat_read v.disk a)
    pub in_root : w.cwd_is_root ≡ true
    pub empty : all_skipped (dir_items w (folder (made path cluster)) (cluster ∷ [])) ≡ true

  -- fs_rmdir of a new directory.
  abbrev pub Undone : Volume → Type 0
  Undone w =
      (u : Volume) × (fs_rmdir path w ≡ ok tt u)
      × SameTable u
      × ((i : ℕ)
          → (u.root i ≡ v.root i) ⊎ ((is_unused (v.root i) ≡ true) × (is_unused (u.root i) ≡ true)))

module _ (v : Volume) (path : List ℕ) (leaf : IsLeaf path) (root : v.cwd_is_root ≡ true)
    (new : root_entry v path ≡ none) (not_dots : is_dots (leaf_of path) ≡ false)
    (named : is_unused (created path) ≡ false) where
  stored-found :
      (c : ℕ) (loc : EntryLoc)
      → IsFree (cwd_dir v) v.root root_entries 0 (unused loc)
      → root_entry (stored v loc (made path c) (prepared v.disk c)) path ≡ some (made path c, loc)
  unfolding root_save cwd_dir new_entry
  stored-found c loc h =
      find_entry-put_new _ _ (cwd_dir v) v.root root_entries 0 loc.root_index (made path c) new
        (omega arith) h.2 named (created-names path)
      ∙ ap (λ l. some (made path c, l)) (sym h.0)

  stored-others :
      (c : ℕ) (loc : EntryLoc) (i : ℕ)
      → i ≢ loc.root_index
      → (stored v loc (made path c) (prepared v.disk c)).root i ≡ v.root i
  unfolding root_save
  stored-others c loc i ne = ground arith

  stored-Made :
      (c : ℕ) (loc : EntryLoc)
      → IsData c
      → fat_read v.disk c ≡ 0
      → IsFree (cwd_dir v) v.root root_entries 0 (unused loc)
      → Made v path (stored v loc (made path c) (prepared v.disk c))
  unfolding new_entry
  stored-Made c loc data_c free_c h =
      let w = record v {
        disk = prepared v.disk c;
        root = put_root v.root loc.root_index (made path c);
      } in
      record {
        loc = loc;
        cluster = c;
        was_unused = h.3;
        found = stored-found c loc h;
        others = stored-others c loc;
        was_free = (data_c, free_c);
        chain =
            Chain-frame (prepared v.disk c) (root_save w).disk c (c ∷ [])
              (λ a lt i. fat_read-root_save w a lt) (prepared-Chain v.disk c data_c);
        table = λ a lt. fat_read-root_save w a lt ∙ prepared-table v.disk c a data_c (omega arith);
        in_root = stored-cwd_is_root v loc (made path c) (prepared v.disk c) ∙ root;
        empty =
            all_skipped-fresh_block (folder (made path c)) (root_save w).disk c 0
              (omega (arith, data_c)) (omega arith)
              (data-root_save w c data_c ∙ prepared-block v.disk c);
      }

  Made-Undone : (w : Volume) → Made v path w → Undone v path w
  unfolding new_entry
  Made-Undone w m =
      elim (fs_rmdir-root w path (made path m.cluster) m.loc (m.cluster ∷ []) leaf m.in_root m.found
        not_dots refl m.chain) [
          | inl (fails, some_left) ↦ cc (some_left, m.empty)
          | inr (u, done, none_left, unused_now, others, table) ↦ (
            u,
            done,
            (λ a lt.
                let back = table a lt in
                let first = m.table a lt in
                elim (Bool-cases (a == m.cluster)) [
                  | inl here ↦
                      let q : a ≡ m.cluster = ground arith in ground (arith, back, m.was_free)
                  | inr other ↦ ground (arith, back, first)
                ]),
            λ i. elim (ℕ_discrete i m.loc.root_index) [
              | yes here ↦ inr (rw here m.was_unused, rw here unused_now)
              | no ne ↦ inl (others i ne ∙ m.others i ne)
            ],
          )
        ]

  abbrev Makes : Type 0
  Makes =
      ((fs_mkdir path v ≡ fail v) × NoneFree v.disk first_data_cluster end_cluster)
      ⊎ ((w : Volume) × (fs_mkdir path v ≡ fail w)
          × ((i : ℕ) → i < root_entries → is_unused (v.root i) ≡ false)
          × (w.root ≡ v.root)
          × SameTable v path w)
      ⊎ ((w : Volume) × (fs_mkdir path v ≡ ok tt w) × Made v path w × Undone v path w)

  made-in :
      (c : ℕ) (s : Slot)
      → slot v path leaf root new not_dots ≡ s
      → IsFree (cwd_dir v) v.root root_entries 0 s
      → alloc_or_fail v ≡ ok c (record v { disk = fat_write v.disk c cluster_eoc })
      → IsData c
      → fat_read v.disk c ≡ 0
      → Makes
  made-in c (full last) e h allocs data_c free_c = inr (
      inl (
        record v { disk = free_all (c ∷ []) (prepared v.disk c) },
        no_entry v path leaf root new not_dots c last data_c allocs e,
        (λ i lt. h i (omega arith) (omega arith)),
        refl,
        λ a lt. released-table v c a data_c free_c lt,
      ))
  made-in c (unused loc) e h allocs data_c free_c =
      let m = stored-Made c loc data_c free_c h in
      let in_root : loc.dir.is_root ≡ true = ap (λ l. l.dir.is_root) h.0 ∙ cwd_dir-root v root in
      inr (
        inr (
          stored v loc (made path c) (prepared v.disk c),
          makes v path leaf root new not_dots c loc allocs e in_root,
          m,
          Made-Undone _ m,
        ))

  -- For a path of one component that is neither dot nor dotdot, names nothing in the root, the
  -- current directory, and whose entry does not begin with a mark of an unused one: fs_mkdir fails
  -- where no data cluster is free, and leaves the volume alone; it fails where all 128 entries are
  -- in use, and leaves the root and the table as they were, so the cluster taken is given back;
  -- and otherwise it returns 0 and leaves a directory that is found, on one cluster that was free,
  -- with nothing in it, where fs_rmdir then returns 0 and leaves the table and the entries in use
  -- as they were at first.
  pub fs_mkdir-root :
      ((fs_mkdir path v ≡ fail v) × NoneFree v.disk first_data_cluster end_cluster)
      ⊎ ((w : Volume) × (fs_mkdir path v ≡ fail w)
          × ((i : ℕ) → i < root_entries → is_unused (v.root i) ≡ false)
          × (w.root ≡ v.root)
          × SameTable v path w)
      ⊎ ((w : Volume) × (fs_mkdir path v ≡ ok tt w) × Made v path w × Undone v path w)
  fs_mkdir-root = elim (alloc_or_fail-cases v) [
    | inl (fails, none_free) ↦ inl (no_cluster v path leaf root new not_dots fails, none_free)
    | inr (c, allocs, data_c, free_c) ↦
        made-in c (slot v path leaf root new not_dots) refl
          (first_unused-IsFree (cwd_dir v) v.root root_entries 0 0) allocs data_c free_c
  ]
