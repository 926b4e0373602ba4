-- ===== src/Files/Keep.antt =====
-- `fs_write` of kernel/fs.c on one file of the root, and `fs_read` on another.
use rink_os.Prelude.{
  ℕ, ◌≡◌, ◌≢◌, ◌⊎◌, ◌∙◌, refl, ap, true, false, Bool-cases, inl, inr, List, some, length, min, ◌==◌,
}
use rink_os.Disk.{Disk}
use rink_os.Fat.{root_entries}
use rink_os.Fat.Chain.{Chain, free_all}
use rink_os.Dirent.{Dirent, is_directory}
use rink_os.Volume.{Volume, ok, fail, root_save}
use rink_os.Dir.{EntryLoc, cwd_dir}
use rink_os.Dir.Update.{put_root, find_entry-FoundAt}
use rink_os.Dir.SameNames.{put_root-KeepsNames, find_entry-put_root_other}
use rink_os.Files.{clusters_for, finish_write, fs_write, fs_read}
use rink_os.Files.Blocks.{WriteEnd, wrote, disk_full, write_loop, read_loop}
use rink_os.Files.Blocks.Write.{Written}
use rink_os.Files.Blocks.Total.{WriteResult, write_loop-WriteResult}
use rink_os.Files.Round.{
  IsLeaf, root_entry, open_or_create-found, fs_read-found, free_if_any-Chain, write_entry-root,
  sized, stored, stored-cwd_is_root, cwd_dir-root, root_save-SameFiles,
}
use rink_os.Files.Others.{
  Spares, Spares-trans, read_loop-Spares, Apart, IsLinked, free_all-Spares, Written-Spares,
  Written-Apart, IsLinked-Spares,
}

module _ (v : Volume) (path : List ℕ) (e : Dirent) (loc : EntryLoc) (root : v.cwd_is_root ≡ true)
    (found : root_entry v path ≡ some (e, loc)) where
  pub found-root : loc.dir.is_root ≡ true
  found-root =
      ap (λ l. l.dir.is_root)
        (find_entry-FoundAt _ _ (cwd_dir v) v.root root_entries 0 e loc found).place
      ∙ cwd_dir-root v root

  -- Another entry of the root is found as before where the entry has been written to.
  pub root_entry-stored_other :
      (path' : List ℕ) (e₂ e' : Dirent) (loc₂ : EntryLoc) (d : Disk)
      → root_entry v path' ≡ some (e₂, loc₂)
      → loc.root_index ≢ loc₂.root_index
      → e'.name ≡ e.name
      → e'.ext ≡ e.ext
      → root_entry (stored v loc e' d) path' ≡ some (e₂, loc₂)
  unfolding root_save cwd_dir
  root_entry-stored_other path' e₂ e' loc₂ d found₂ ne name ext =
      let f = find_entry-FoundAt _ _ (cwd_dir v) v.root root_entries 0 e loc found in
      find_entry-put_root_other _ _ (cwd_dir v) v.root root_entries 0 loc.root_index e₂ e' loc₂
        found₂ ne
        (put_root-KeepsNames v.root loc.root_index e' (name ∙ ap (λ x. x.name) f.entry)
          (ext ∙ ap (λ x. x.ext) f.entry))

pub root_save-Spares : (v : Volume) (xs : List ℕ) → Spares v.disk (root_save v).disk xs
root_save-Spares v xs = record {
  links = λ a i h. (root_save-SameFiles v).links a h.1;
  blocks = λ a i h. (root_save-SameFiles v).blocks a h;
}

module _ (v : Volume) (path : List ℕ) (e : Dirent) (loc : EntryLoc) (cs : List ℕ) (other : List ℕ)
    (e₂ : Dirent) (loc₂ : EntryLoc) (xs : List ℕ) (root : v.cwd_is_root ≡ true) (leaf : IsLeaf path)
    (found : root_entry v path ≡ some (e, loc)) (file : is_directory e ≡ false)
    (chain : Chain v.disk e.first_cluster cs) (leaf₂ : IsLeaf other)
    (found₂ : root_entry v other ≡ some (e₂, loc₂)) (file₂ : is_directory e₂ ≡ false)
    (chain₂ : Chain v.disk e₂.first_cluster xs) (linked₂ : IsLinked v.disk xs) (apart : Apart cs xs)
    (distinct : loc.root_index ≢ loc₂.root_index) where
  -- What a read of the other file gives.
  abbrev contents : ℕ → Disk → List ℕ
  contents max_size d =
      read_loop (clusters_for (min e₂.file_size max_size)) e₂.first_cluster
        (min e₂.file_size max_size) 0 d

  reads_same :
      (max_size f size : ℕ) (d : Disk)
      → Spares v.disk d xs
      → fs_read other max_size (stored v loc (sized e f size) d)
        ≡ ok (contents max_size v.disk) (stored v loc (sized e f size) d)
  reads_same max_size f size d s =
      let v' = record v { disk = d; root = put_root v.root loc.root_index (sized e f size) } in
      let all : Spares v.disk (root_save v').disk xs =
        Spares-trans v.disk d (root_save v').disk xs s (root_save-Spares v' xs) in
      fs_read-found (root_save v') other e₂ loc₂ leaf₂
        (stored-cwd_is_root v loc (sized e f size) d ∙ root)
        (root_entry-stored_other v path e loc root found other e₂ (sized e f size) loc₂ d found₂
          distinct refl refl)
        max_size file₂
      ∙ ap (λ r. ok r (root_save v'))
          (read_loop-Spares (clusters_for (min e₂.file_size max_size)) e₂.first_cluster
            (min e₂.file_size max_size) 0 v.disk (root_save v').disk xs chain₂ all)

  abbrev freed : Disk
  freed = free_all cs v.disk

  freed-Spares : Spares v.disk freed xs
  freed-Spares = free_all-Spares v.disk e.first_cluster cs xs chain apart

  freed-IsLinked : IsLinked freed xs
  freed-IsLinked = IsLinked-Spares v.disk freed e₂.first_cluster xs chain₂ freed-Spares linked₂

  module _ (bytes : List ℕ) (max_size : ℕ) where
    abbrev Keeps : Type 0
    Keeps =
        (w : Volume) × ((fs_write path bytes v ≡ ok tt w) ⊎ (fs_write path bytes v ≡ fail w))
        × (fs_read other max_size v ≡ ok (contents max_size v.disk) v)
        × (fs_read other max_size w ≡ ok (contents max_size v.disk) w)

    reads_before : fs_read other max_size v ≡ ok (contents max_size v.disk) v
    reads_before = fs_read-found v other e₂ loc₂ leaf₂ root found₂ max_size file₂

    keeps_empty : (length bytes == 0) ≡ true → Keeps
    unfolding fs_write
    keeps_empty z = (
      stored v loc (sized e 0 0) freed,
      inl (
          rw
            (
              open_or_create-found v path e loc leaf root found file,
              free_if_any-Chain v e.first_cluster cs chain,
              z,
              write_entry-root v loc (sized e 0 0) freed (found-root v path e loc root found),
            )
            refl),
      reads_before,
      reads_same max_size 0 0 freed freed-Spares,
    )

    keeps_wrote :
        (length bytes == 0) ≡ false
        → (f : ℕ) (d : Disk) (ws : List ℕ)
        → write_loop (clusters_for (length bytes)) 0 0 0 bytes freed ≡ wrote f d
        → Written (clusters_for (length bytes)) 0 0 0 bytes freed f d ws
        → Keeps
    unfolding fs_write finish_write
    keeps_wrote nz f d ws done w = (
      stored v loc (sized e f (length bytes)) d,
      inl (
          rw
            (
              open_or_create-found v path e loc leaf root found file,
              free_if_any-Chain v e.first_cluster cs chain,
              nz,
              done,
              write_entry-root v loc (sized e f (length bytes)) d
                  (found-root v path e loc root found),
            )
            refl),
      reads_before,
      reads_same max_size f (length bytes) d (
          Spares-trans v.disk freed d xs freed-Spares
            (Written-Spares (clusters_for (length bytes)) bytes freed f d ws xs w freed-IsLinked)),
    )

    keeps_full :
        (length bytes == 0) ≡ false
        → (k f : ℕ) (d : Disk) (ws : List ℕ)
        → write_loop (clusters_for (length bytes)) 0 0 0 bytes freed ≡ disk_full f d
        → Written k 0 0 0 bytes freed f d ws
        → Keeps
    unfolding fs_write finish_write
    keeps_full nz k f d ws done w =
        let to_d = Written-Spares k bytes freed f d ws xs w freed-IsLinked in
        let released : Spares d (free_all ws d) xs =
          free_all-Spares d f ws xs w.chain
            (Written-Apart k bytes freed f d ws xs w freed-IsLinked) in
        let all = Spares-trans freed d (free_all ws d) xs to_d released in
        (
          stored v loc (sized e 0 0) (free_all ws d),
          inr (
              rw
                (
                  open_or_create-found v path e loc leaf root found file,
                  free_if_any-Chain v e.first_cluster cs chain,
                  nz,
                  done,
                  free_if_any-Chain (record v { disk = d }) f ws w.chain,
                  write_entry-root v loc (sized e 0 0) (free_all ws d)
                      (found-root v path e loc root found),
                )
                refl),
          reads_before,
          reads_same max_size 0 0 (free_all ws d)
              (Spares-trans v.disk freed (free_all ws d) xs freed-Spares all),
        )

    keeps_blocks :
        (length bytes == 0) ≡ false
        → (r : WriteEnd) → write_loop (clusters_for (length bytes)) 0 0 0 bytes freed ≡ r
        → WriteResult (clusters_for (length bytes)) 0 0 0 bytes freed r
        → Keeps
    keeps_blocks nz (wrote f d) done (ws, w) = keeps_wrote nz f d ws done w
    keeps_blocks nz (disk_full f d) done (k, ws, lt, w, none_free) = keeps_full nz k f d ws done w

    -- For a path of one component that names a file in the root, the current directory, whose old
    -- contents are a chain that ends, fs_write returns, with 0 or with -1; and another file of the
    -- root, whose clusters are apart from those of the first and all have a link, is read with the
    -- same result afterwards as before.
    pub fs_read-fs_write_other :
        (w : Volume) × ((fs_write path bytes v ≡ ok tt w) ⊎ (fs_write path bytes v ≡ fail w))
        × (r : List ℕ) × (fs_read other max_size v ≡ ok r v)
        × (fs_read other max_size w ≡ ok r w)
    fs_read-fs_write_other =
        let (w, ends, before, after) : Keeps = elim (Bool-cases (length bytes == 0)) [
          | inl z ↦ keeps_empty z
          | inr nz ↦
              keeps_blocks nz (write_loop (clusters_for (length bytes)) 0 0 0 bytes freed) refl (
                write_loop-WriteResult (clusters_for (length bytes)) 0 0 0 bytes freed
                  (inl (refl, refl)))
        ] in
        (w, ends, contents max_size v.disk, before, after)
