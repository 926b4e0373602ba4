-- ===== src/Files/Format/Mount.antt =====
-- A volume of kernel/fs.c that is mounted again: `fs_init` on the disk that `root_save` left.
use rink_os.Prelude.{
  ℕ, zero, suc, ◌+◌, ◌<◌, ◌≡◌, ◌∙◌, refl, ap, true, false, Bool-cases, inl, inr, List, none, some,
  arith, min,
}
use rink_os.Disk.{disk_read_sector}
use rink_os.Fat.{root_entries}
use rink_os.Dirent.{Dirent, is_unused, is_directory}
use rink_os.Dirent.Codec.{IsDirent}
use rink_os.Volume.{Volume, RootDir, ok, root_load, root_save}
use rink_os.Volume.Root.{root_load-root_save}
use rink_os.Dir.{DirRef, EntryLoc, Item, cwd_dir, names_eq}
use rink_os.Dir.Items.{root_items, root_loc}
use rink_os.Dir.Scan.{find_entry}
use rink_os.Files.{clusters_for, fs_read}
use rink_os.Files.Blocks.{read_loop}
use rink_os.Files.Format.{boot_lba, is_formatted, fs_init}
use rink_os.Files.Round.{IsLeaf, root_entry, fs_read-found}

abbrev elsewhere : DirRef → Item → Item
elsewhere dir none = none
elsewhere dir (some (e, loc)) = some (e, root_loc dir loc.root_index)

-- The same entries under another reference to the root.
find_entry-elsewhere :
    (n x : List ℕ) (dir dir' : DirRef) (r r' : RootDir) (k j : ℕ) (e : Dirent) (loc : EntryLoc)
    → ((i : ℕ) → i < j + k → r' i ≡ r i)
    → find_entry n x (root_items dir r k j) ≡ some (e, loc)
    → find_entry n x (root_items dir' r' k j) ≡ some (e, root_loc dir' loc.root_index)
unfolding find_entry root_items
find_entry-elsewhere n x dir dir' r r' zero j e loc same h = cc h
find_entry-elsewhere n x dir dir' r r' (suc k) j e loc same h =
    let here : r' j ≡ r j = same j (omega arith) in
    let later : find_entry n x (root_items dir r k (j + 1)) ≡ some (e, loc) → _ = λ h'.
      find_entry-elsewhere n x dir dir' r r' k (j + 1) e loc (λ i lt. same i (omega arith)) h' in
    elim (Bool-cases (is_unused (r j))) [
      | inl free ↦ rw (here, free) (later (rw free at h))
      | inr live ↦ elim (Bool-cases (names_eq n x (r j))) [
        | inr other ↦ rw (here, live, other) (later (rw (live, other) at h))
        | inl named ↦ rw (here, live, named) (ap (elsewhere dir') (rw (live, named) at h))
      ]
    ]

module _ (u x : Volume) (saved : x.disk ≡ (root_save u).disk)
    (formatted : is_formatted (disk_read_sector x.disk boot_lba) ≡ true)
    (sized : (i : ℕ) → i < root_entries → IsDirent (u.root i)) where
  mounted-disk : (fs_init x).disk ≡ x.disk
  unfolding fs_init root_load
  mounted-disk = rw formatted refl

  mounted-root : (i : ℕ) → i < root_entries → (fs_init x).root i ≡ u.root i
  unfolding fs_init
  mounted-root i lt = rw formatted (root_load-root_save u x i lt (sized i lt) saved)

  mounted-cwd : (fs_init x).cwd_is_root ≡ true
  unfolding fs_init
  mounted-cwd = refl

  mounted_entry :
      (path : List ℕ) (e : Dirent) (loc : EntryLoc)
      → root_entry u path ≡ some (e, loc)
      → root_entry (fs_init x) path ≡ some (e, root_loc (cwd_dir (fs_init x)) loc.root_index)
  mounted_entry path e loc found =
      find_entry-elsewhere _ _ (cwd_dir u) (cwd_dir (fs_init x)) u.root (fs_init x).root
        root_entries 0 e loc (λ i lt. mounted-root i (omega arith)) found

  saved_entry :
      (path : List ℕ) (e : Dirent) (loc : EntryLoc)
      → root_entry u path ≡ some (e, loc)
      → root_entry (root_save u) path ≡ some (e, loc)
  unfolding root_save cwd_dir
  saved_entry path e loc found = found

  saved-cwd : (root_save u).cwd_is_root ≡ u.cwd_is_root
  unfolding root_save
  saved-cwd = refl

  -- Where the root of a volume, all fields of its entries with their sizes, has been saved to a
  -- disk with the marker, and a path of one component names a file in it, the root being the
  -- current directory: whatever the variables of the file system hold when fs_init mounts that
  -- disk, a read of the path gives the bytes that it gave on the volume that was saved.
  pub fs_read-fs_init :
      (path : List ℕ) (e : Dirent) (loc : EntryLoc) (max_size : ℕ)
      → IsLeaf path
      → u.cwd_is_root ≡ true
      → root_entry u path ≡ some (e, loc)
      → is_directory e ≡ false
      → (bytes : List ℕ) × (fs_read path max_size (root_save u) ≡ ok bytes (root_save u))
        × (fs_read path max_size (fs_init x) ≡ ok bytes (fs_init x))
  fs_read-fs_init path e loc max_size leaf root found file =
      let size = min e.file_size max_size in
      let here = root_loc (cwd_dir (fs_init x)) loc.root_index in
      (
        read_loop (clusters_for size) e.first_cluster size 0 (root_save u).disk,
        fs_read-found (root_save u) path e loc leaf (saved-cwd ∙ root)
            (saved_entry path e loc found) max_size file,
        fs_read-found (fs_init x) path e here leaf mounted-cwd (mounted_entry path e loc found)
              max_size file
            ∙ ap (λ d. ok (read_loop (clusters_for size) e.first_cluster size 0 d) (fs_init x))
                (mounted-disk ∙ saved),
      )
