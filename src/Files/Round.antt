-- ===== src/Files/Round.antt =====
-- `fs_write` and `fs_read` of kernel/fs.c on a file of the current directory, where that is the
-- root.
use rink_os.Prelude.{
  ℕ, ◌≤◌, ◌≡◌, ◌≢◌, ◌∙◌, refl, ap, true, false, Bool-cases, inl, inr, List, [], ◌∷◌, none, some,
  arith, length, min, ◌==◌,
}
use rink_os.Disk.{Disk}
use rink_os.Fat.{root_entries}
use rink_os.Fat.Room.{Distinct}
use rink_os.Fat.Chain.{Chain, free_all, fat_free_chain-Chain}
use rink_os.Dirent.{Dirent, is_directory}
use rink_os.Names.{component_len, str_copy_n, split_name}
use rink_os.Volume.{Volume, ok, root_save}
use rink_os.Volume.Root.{fat_read-root_save, data-root_save}
use rink_os.Dir.{DirRef, EntryLoc, Item, cwd_dir, dir_scan, dir_write_entry}
use rink_os.Dir.Items.{root_items}
use rink_os.Dir.Scan.{find_entry, dir_scan-find_entry}
use rink_os.Dir.Update.{put_root, find_entry-FoundAt, find_entry-put_root}
use rink_os.Walk.{last_slash, resolve_parent}
use rink_os.Files.{
  scan_or_fail, resolve_leaf, free_if_any, write_entry, open_or_create, clusters_for, finish_write,
  fs_write, fs_read,
}
use rink_os.Files.Blocks.{wrote, write_loop, read_loop}
use rink_os.Files.Blocks.Write.{Written, Written-zero}
use rink_os.Files.Blocks.Total.{AllFree, write_loop-wrote}
use rink_os.Files.Blocks.Round.{FitsWord, SameFiles, Written-read_loop}

-- A path of one component.
pub record IsLeaf (path : List ℕ) : Type 0 where
  pub some_byte : length path ≢ 0
  pub no_slash : last_slash path 0 none ≡ none

abbrev pub leaf_of : List ℕ → List ℕ
leaf_of path = str_copy_n path component_len

-- The entry of the root that the path names.
abbrev pub root_entry : Volume → List ℕ → Item
root_entry v path =
    find_entry (split_name (leaf_of path)).0 (split_name (leaf_of path)).1
      (root_items (cwd_dir v) v.root root_entries 0)

pub resolve_parent-leaf :
    (v : Volume) (path : List ℕ)
    → IsLeaf path
    → resolve_parent path v ≡ ok (cwd_dir v, leaf_of path) v
unfolding resolve_parent
resolve_parent-leaf v path h =
    let ne : (length path == 0) ≡ false = ground (arith, h.some_byte) in rw (ne, h.no_slash) refl

pub length-leaf_of : (path : List ℕ) → length path ≢ 0 → (length (leaf_of path) == 0) ≡ false
length-leaf_of [] h = absurd (h refl)
length-leaf_of (c ∷ p) h = ground arith

pub dir_scan-root :
    (v : Volume) (dir : DirRef) (n x : List ℕ)
    → dir.is_root ≡ true
    → dir_scan dir n x v ≡ ok (find_entry n x (root_items dir v.root root_entries 0)) v
dir_scan-root v dir n x root = dir_scan-find_entry v dir [] n x (simp root tt) ∙ simp root refl

pub cwd_dir-root : (v : Volume) → v.cwd_is_root ≡ true → (cwd_dir v).is_root ≡ true
unfolding cwd_dir
cwd_dir-root v h = h

module _ (v : Volume) (path : List ℕ) (e : Dirent) (loc : EntryLoc) (leaf : IsLeaf path)
    (root : v.cwd_is_root ≡ true) (found : root_entry v path ≡ some (e, loc)) where
  pub scan :
      dir_scan (cwd_dir v) (split_name (leaf_of path)).0 (split_name (leaf_of path)).1 v
      ≡ ok (some (e, loc)) v
  scan = dir_scan-root v (cwd_dir v) _ _ (cwd_dir-root v root) ∙ ap (λ x. ok x v) found

  pub open_or_create-found : is_directory e ≡ false → open_or_create path v ≡ ok (e, loc) v
  unfolding open_or_create resolve_leaf
  open_or_create-found file =
      rw (resolve_parent-leaf v path leaf, length-leaf_of path leaf.some_byte, scan, file) refl

  pub fs_read-found :
      (max_size : ℕ)
      → is_directory e ≡ false
      → fs_read path max_size v
        ≡ ok
            (read_loop
              (clusters_for (min e.file_size max_size))
              e.first_cluster
              (min e.file_size max_size)
              0
              v.disk)
            v
  unfolding fs_read scan_or_fail
  fs_read-found max_size file = rw (resolve_parent-leaf v path leaf, scan, file) refl

-- The disk after the root directory has been saved has the same files.
pub root_save-SameFiles : (v : Volume) → SameFiles v.disk (root_save v).disk
root_save-SameFiles v = record { links = fat_read-root_save v; blocks = data-root_save v }

free_all-nothing :
    (d : Disk) (c : ℕ) (cs : List ℕ) → (c == 0) ≡ true → Chain d c cs → d ≡ free_all cs d
unfolding free_all
free_all-nothing d c [] z h = refl
free_all-nothing d c (x ∷ cs) z h = absurd (ground (arith, h.0, h.1.0))

pub free_if_any-Chain :
    (v : Volume) (c : ℕ) (cs : List ℕ)
    → Chain v.disk c cs
    → free_if_any c v ≡ ok tt (record v { disk = free_all cs v.disk })
unfolding free_if_any
free_if_any-Chain v c cs h = elim (Bool-cases (c == 0)) [
  | inr some_c ↦ rw (some_c, fat_free_chain-Chain v.disk c cs h) refl
  | inl no_c ↦
      rw no_c (ap (λ d. ok tt (record v { disk = d })) (free_all-nothing v.disk c cs no_c h))
]

-- The entry as `fs_write` leaves it, and the volume with it.
abbrev pub sized : Dirent → ℕ → ℕ → Dirent
sized e first size = record e { first_cluster = first; file_size = size }

abbrev pub stored : Volume → EntryLoc → Dirent → Disk → Volume
stored v loc e d = root_save (record v { disk = d; root = put_root v.root loc.root_index e })

pub stored-cwd_is_root :
    (v : Volume) (loc : EntryLoc) (e : Dirent) (d : Disk)
    → (stored v loc e d).cwd_is_root ≡ v.cwd_is_root
unfolding root_save
stored-cwd_is_root v loc e d = refl

pub write_entry-root :
    (v : Volume) (loc : EntryLoc) (e : Dirent) (d : Disk)
    → loc.dir.is_root ≡ true
    → write_entry loc e (record v { disk = d }) ≡ ok tt (stored v loc e d)
unfolding write_entry dir_write_entry
write_entry-root v loc e d h = rw h refl

pub root_entry-stored :
    (v : Volume) (path : List ℕ) (e e' : Dirent) (loc : EntryLoc) (d : Disk)
    → root_entry v path ≡ some (e, loc)
    → e'.name ≡ e.name
    → e'.ext ≡ e.ext
    → root_entry (stored v loc e' d) path ≡ some (e', loc)
unfolding root_save cwd_dir
root_entry-stored v path e e' loc d found name ext =
    let f = find_entry-FoundAt _ _ (cwd_dir v) v.root root_entries 0 e loc found in
    find_entry-put_root _ _ (cwd_dir v) v.root root_entries 0 e e' loc found (rw name f.used)
      (rw (name, ext) f.named)

module _ (v : Volume) (path bytes : List ℕ) (e : Dirent) (loc : EntryLoc) (cs room : List ℕ)
    (leaf : IsLeaf path) (root : v.cwd_is_root ≡ true) (found : root_entry v path ≡ some (e, loc))
    (file : is_directory e ≡ false) (chain : Chain v.disk e.first_cluster cs)
    (fits : FitsWord (length bytes)) (distinct : Distinct room)
    (free : AllFree (free_all cs v.disk) room)
    (enough : clusters_for (length bytes) ≤ length room) where
  loc-root : loc.dir.is_root ≡ true
  loc-root =
      ap (λ l. l.dir.is_root)
        (find_entry-FoundAt _ _ (cwd_dir v) v.root root_entries 0 e loc found).place
      ∙ cwd_dir-root v root

  -- The volume and the entry that a successful `fs_write` leaves.
  abbrev Ends : ℕ → Disk → Type 0
  Ends f d =
      (fs_write path bytes v ≡ ok tt (stored v loc (sized e f (length bytes)) d))
      × ((max_size : ℕ)
          → length bytes ≤ max_size
          → fs_read path max_size (stored v loc (sized e f (length bytes)) d)
            ≡ ok bytes (stored v loc (sized e f (length bytes)) d))

  reads_back :
      (f : ℕ) (d : Disk) (ws : List ℕ)
      → Written (clusters_for (length bytes)) 0 0 0 bytes (free_all cs v.disk) f d ws
      → (max_size : ℕ) → length bytes ≤ max_size
      → fs_read path max_size (stored v loc (sized e f (length bytes)) d)
        ≡ ok bytes (stored v loc (sized e f (length bytes)) d)
  reads_back f d ws w max_size le =
      let v' = record v {
        disk = d;
        root = put_root v.root loc.root_index (sized e f (length bytes));
      } in
      let all : min (length bytes) max_size ≡ length bytes = omega arith in
      let back =
        Written-read_loop bytes (free_all cs v.disk) d (root_save v').disk f ws fits w
          (root_save-SameFiles v') in
      fs_read-found (root_save v') path (sized e f (length bytes)) loc leaf
        (stored-cwd_is_root v loc (sized e f (length bytes)) d ∙ root)
        (root_entry-stored v path e (sized e f (length bytes)) loc d found refl refl) max_size file
      ∙ rw (all, back) refl

  wrote_nothing : (length bytes == 0) ≡ true → Ends 0 (free_all cs v.disk)
  unfolding fs_write clusters_for
  wrote_nothing z =
      let none_left : length bytes ≡ 0 = ground arith in
      let no_clusters : clusters_for (length bytes) ≡ 0 = ap clusters_for none_left in
      let w : Written (clusters_for (length bytes)) 0 0 0 bytes (free_all cs v.disk) 0
          (free_all cs v.disk) [] =
        rw no_clusters (Written-zero 0 0 0 bytes (free_all cs v.disk) (inl (refl, refl))) in
      (
        rw
            (
              open_or_create-found v path e loc leaf root found file,
              free_if_any-Chain v e.first_cluster cs chain,
              z,
              write_entry-root v loc (sized e 0 0) (free_all cs v.disk) loc-root,
              none_left,
            )
            refl,
        reads_back 0 (free_all cs v.disk) [] w,
      )

  wrote_blocks :
      (length bytes == 0) ≡ false
      → (f : ℕ) (d : Disk) (ws : List ℕ)
      → write_loop (clusters_for (length bytes)) 0 0 0 bytes (free_all cs v.disk) ≡ wrote f d
      → Written (clusters_for (length bytes)) 0 0 0 bytes (free_all cs v.disk) f d ws
      → Ends f d
  unfolding fs_write finish_write
  wrote_blocks nz f d ws done w = (
    rw
        (
          open_or_create-found v path e loc leaf root found file,
          free_if_any-Chain v e.first_cluster cs chain,
          nz,
          done,
          write_entry-root v loc (sized e f (length bytes)) d loc-root,
        )
        refl,
    reads_back f d ws w,
  )

  -- For a path of one component that names a file in the root, the current directory, whose old
  -- contents are a chain that ends: if enough distinct data clusters are free once that chain is
  -- freed, and the size plus a sector does not pass 2 ^ 32, fs_write returns 0, and then fs_read
  -- with a buffer large enough gives the bytes back and leaves the volume alone.
  pub fs_read-fs_write :
      (w : Volume) × (fs_write path bytes v ≡ ok tt w)
      × ((max_size : ℕ) → length bytes ≤ max_size → fs_read path max_size w ≡ ok bytes w)
  fs_read-fs_write = elim (Bool-cases (length bytes == 0)) [
    | inl z ↦
        let (done, back) = wrote_nothing z in
        (stored v loc (sized e 0 (length bytes)) (free_all cs v.disk), done, back)
    | inr nz ↦
        let (f, d, ws, done, w) =
          write_loop-wrote (clusters_for (length bytes)) bytes (free_all cs v.disk) room distinct
            free enough in
        let (goes, back) = wrote_blocks nz f d ws done w in
        (stored v loc (sized e f (length bytes)) d, goes, back)
  ]
