-- ===== src/Files/Append/Round.antt =====
-- `fs_append` and `fs_read` of kernel/fs.c on a file of the current directory, where that is the
-- root.
use rink_os.Prelude.{
  ℕ, ◌+◌, ◌-◌, ◌^◌, ◌%◌, ◌≤◌, ◌≡◌, ◌≢◌, ◌∙◌, refl, sym, ap, true, false, inr, List, ◌∷◌, ◌++◌, some,
  arith, length, length-append, min, ◌==◌,
}
use rink_os.Disk.{Disk}
use rink_os.Fat.{cluster_eoc, fat_read}
use rink_os.Fat.Room.{Distinct}
use rink_os.Fat.Chain.{IsData, Chain-IsData, Chain-frame}
use rink_os.Dirent.{Dirent, is_directory}
use rink_os.Volume.{Volume, ok}
use rink_os.Dir.{EntryLoc}
use rink_os.Dir.Update.{put_root}
use rink_os.Files.{clusters_for, fs_read}
use rink_os.Files.Blocks.Write.{Written}
use rink_os.Files.Blocks.Total.{AllFree, write_loop-room}
use rink_os.Files.Blocks.Read.{read_loop-Contents}
use rink_os.Files.Blocks.Round.{FitsWord, Contents-frame, clusters_for-bounds, clusters_for-least}
use rink_os.Files.Round.{
  IsLeaf, root_entry, root_entry-stored, open_or_create-found, fs_read-found, write_entry-root,
  sized, stored, stored-cwd_is_root, root_save-SameFiles,
}
use rink_os.Files.Keep.{found-root}
use rink_os.Files.Append.{appended, append_loop, fill_last, finish_append, set_extent, fs_append}
use rink_os.Files.Append.Grow.{last_of, has-last_of}
use rink_os.Files.Append.Rounds.{Takes, Takes-fuel, append_loop-write_loop}
use rink_os.Files.Append.Fill.{Filled, Holds, fill_last-Filled}
use rink_os.Files.Append.Whole.{whole-Chain, whole-Contents}

-- The clusters that the new bytes take behind the old ones.
abbrev further : List ℕ → List ℕ → List ℕ → ℕ
further old new cs = clusters_for (length (old ++ new)) - length cs

Filled-Takes :
    (d d₁ : Disk) (e : Dirent) (old new : List ℕ) (x : ℕ) (xs : List ℕ) (fill : ℕ)
    → FitsWord (length (old ++ new))
    → Holds d e old x xs
    → Filled d d₁ old new x xs fill
    → Takes new fill (further old new (x ∷ xs))
Filled-Takes d d₁ e old new x xs fill fits h filled =
    let both = length-append old new in
    let hi = clusters_for-bounds (length (old ++ new)) fits in
    let lo = clusters_for-least (length (old ++ new)) fits in
    record {
      inside = filled.inside;
      enough = omega (arith, both, hi, filled.upto);
      needed = λ ne. omega (arith, both, lo, hi, filled.upto, ne);
    }

length-whole :
    (d : Disk) (e : Dirent) (old new : List ℕ) (x : ℕ) (xs ws : List ℕ)
    → FitsWord (length (old ++ new))
    → Holds d e old x xs
    → length ws ≡ further old new (x ∷ xs)
    → length (x ∷ xs ++ ws) ≡ clusters_for (length (old ++ new))
length-whole d e old new x xs ws fits h count =
    let both = length-append old new in
    let split = length-append (x ∷ xs) ws in
    omega (arith, both, split, count, h.needed, clusters_for-bounds (length (old ++ new)) fits)

module _ (v : Volume) (path old new : List ℕ) (e : Dirent) (loc : EntryLoc) (x : ℕ)
    (xs room : List ℕ) (leaf : IsLeaf path) (root : v.cwd_is_root ≡ true)
    (found : root_entry v path ≡ some (e, loc)) (file : is_directory e ≡ false)
    (holds : Holds v.disk e old x xs) (end : fat_read v.disk (last_of (x ∷ xs)) ≡ cluster_eoc)
    (some_new : length new ≢ 0) (fits : FitsWord (length (old ++ new))) (distinct : Distinct room)
    (free : AllFree v.disk room)
    (enough : clusters_for (length (old ++ new)) ≤ length (x ∷ xs) + length room) where
  abbrev after : Disk → Volume
  after d = stored v loc (sized e e.first_cluster (length (old ++ new))) d

  first-IsData : IsData e.first_cluster
  first-IsData = rw holds.chain.0 holds.chain.1

  -- The bytes on the disk are the old ones with the new ones behind them.
  reads_both :
      (d₁ d₂ : Disk) (fill f : ℕ) (ws : List ℕ)
      → Filled v.disk d₁ old new x xs fill
      → Written (further old new (x ∷ xs)) e.first_cluster (last_of (x ∷ xs)) fill new d₁ f d₂ ws
      → (max_size : ℕ) → length (old ++ new) ≤ max_size
      → fs_read path max_size (after d₂) ≡ ok (old ++ new) (after d₂)
  reads_both d₁ d₂ fill f ws filled w max_size le =
      let bytes = old ++ new in
      let e' = sized e e.first_cluster (length bytes) in
      let same =
        root_save-SameFiles (record v { disk = d₂; root = put_root v.root loc.root_index e' }) in
      let n = further old new (x ∷ xs) in
      let count = length-whole v.disk e old new x xs ws fits holds w.count in
      let chain =
        Chain-frame d₂ (after d₂).disk e.first_cluster (x ∷ xs ++ ws) (λ a lt i. same.links a lt)
          (whole-Chain v.disk d₁ d₂ e old new x xs ws fill n f holds end filled w) in
      let held =
        Contents-frame d₂ (after d₂).disk bytes e.first_cluster 0 (x ∷ xs ++ ws) same
          (whole-Chain v.disk d₁ d₂ e old new x xs ws fill n f holds end filled w)
          (whole-Contents v.disk d₁ d₂ e old new x xs ws fill n f holds end filled w) in
      let back =
        read_loop-Contents bytes (after d₂).disk (x ∷ xs ++ ws) e.first_cluster 0 chain held
          (omega arith) (omega (arith, count, clusters_for-bounds (length bytes) fits)) in
      let all : min (length bytes) max_size ≡ length bytes = omega arith in
      fs_read-found (after d₂) path e' loc leaf (stored-cwd_is_root v loc e' d₂ ∙ root)
        (root_entry-stored v path e e' loc d₂ found refl refl) max_size file
      ∙ rw (all, sym count, back) refl

  appends :
      (d₁ d₂ : Disk) (fill : ℕ)
      → fill_last e new v ≡ ok (last_of (x ∷ xs), fill) (record v { disk = d₁ })
      → append_loop (length new) e.first_cluster (last_of (x ∷ xs)) fill new d₁
        ≡ appended e.first_cluster (length new) d₂
      → fs_append path new v ≡ ok tt (after d₂)
  unfolding fs_append finish_append set_extent
  appends d₁ d₂ fill fills loops =
      let nz : (length new == 0) ≡ false = ground arith in
      let size : (e.file_size + length new) % 2 ^ 32 ≡ length (old ++ new) =
        omega (arith, holds.size, length-append old new) in
      rw
        (
          open_or_create-found v path e loc leaf root found file,
          nz,
          fills,
          loops,
          size,
          write_entry-root v loc (sized e e.first_cluster (length (old ++ new))) d₂
              (found-root v path e loc root found),
        )
        refl

  -- For a path of one component that names a file in the root, the current directory, where the
  -- file is not empty and its bytes stand in a chain of as many clusters as they take, of which
  -- the last has the mark of an end: if enough distinct data clusters are free, and the size of
  -- all bytes plus a sector does not pass 2 ^ 32, fs_append of at least one byte returns 0, and
  -- then fs_read with a buffer large enough gives the old bytes with the new ones behind them and
  -- leaves the volume alone.
  pub fs_read-fs_append :
      (w : Volume) × (fs_append path new v ≡ ok tt w)
      × ((max_size : ℕ)
          → length (old ++ new) ≤ max_size
          → fs_read path max_size w ≡ ok (old ++ new) w)
  fs_read-fs_append =
      let (fill, d₁, fills, filled) = fill_last-Filled v e old new x xs holds in
      let takes = Filled-Takes v.disk d₁ e old new x xs fill fits holds filled in
      let n = further old new (x ∷ xs) in
      let some_first : e.first_cluster ≢ 0 = omega (arith, first-IsData) in
      let data_last =
        Chain-IsData v.disk e.first_cluster (x ∷ xs) (last_of (x ∷ xs)) holds.chain
          (has-last_of x xs) in
      let free₁ : AllFree d₁ room =
        λ a i. let (da, z) = free a i in (da, filled.table a (ground (arith, da)) ∙ z) in
      let (f, d₂, ws, loops, w) =
        write_loop-room n e.first_cluster (last_of (x ∷ xs)) fill new d₁ room
          (inr (
            some_first,
            data_last,
            filled.table (last_of (x ∷ xs)) (ground (arith, data_last)) ∙ end,
          ))
          distinct free₁ (omega (arith, enough)) in
      let same_first : f ≡ e.first_cluster = w.start some_first in
      let done =
        append_loop-write_loop n (length new) e.first_cluster (last_of (x ∷ xs)) fill new d₁ f d₂
          takes (Takes-fuel new fill n takes) some_first (omega (arith, data_last)) loops in
      (
        after d₂,
        appends d₁ d₂ fill fills (done ∙ ap (λ c. appended c (length new) d₂) same_first),
        reads_both d₁ d₂ fill f ws filled w,
      )
