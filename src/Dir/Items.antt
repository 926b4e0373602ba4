-- ===== src/Dir/Items.antt =====
-- The entries that the iterator of kernel/fs.c goes through, as a list.
use rink_os.Prelude.{
  Bool-cases, inl, inr, ℕ, zero, suc, ◌+◌, ◌*◌, ◌<◌, ◌≡◌, refl, ap, true, false, List, [], ◌∷◌,
  ◌++◌, none, some, arith, length, length-append, leb, if◌then◌else◌,
}
use rink_os.Disk.{Disk, disk_read_sector}
use rink_os.Fat.{root_entries, in_chain, cluster_to_lba, fat_read}
use rink_os.Fat.Chain.{Chain, length-Chain}
use rink_os.Dirent.{Dirent, entry_at}
use rink_os.Volume.{Volume, RootDir}
use rink_os.Dir.{
  DirRef, EntryLoc, DirIter, dir_iter_start, dir_iter_next, next_in_root, next_in_chain,
  entries_per_cluster, max_steps,
}

abbrev pub Items : Type 0
Items = List (Dirent × EntryLoc)

-- From `it` on the iterator gives `items` and then ends.
abbrev pub Iterates : Volume → DirIter → Items → Type 0
Iterates v it [] = (dir_iter_next v it).0 ≡ none
Iterates v it (x ∷ xs) =
    ((dir_iter_next v it).0 ≡ some x)
    × ((dir_iter_next v it).1.dir ≡ it.dir)
    × Iterates v (dir_iter_next v it).1 xs

abbrev pub root_loc : DirRef → ℕ → EntryLoc
root_loc dir i = record { dir = dir; root_index = i; entry_cluster = 0; entry_index = 0 }

-- `n` entries of the root from index `i` on
unfoldable pub root_items : DirRef → RootDir → ℕ → ℕ → Items
root_items dir r zero i = []
root_items dir r (suc n) i = (r i, root_loc dir i) ∷ root_items dir r n (i + 1)

abbrev pub chain_loc : DirRef → ℕ → ℕ → EntryLoc
chain_loc dir c i = record { dir = dir; root_index = 0; entry_cluster = c; entry_index = i }

-- `n` entries of the cluster `c` from index `i` on
unfoldable pub cluster_items : DirRef → Disk → ℕ → ℕ → ℕ → Items
cluster_items dir d c zero i = []
cluster_items dir d c (suc n) i =
    (entry_at (d (cluster_to_lba c)) i, chain_loc dir c i) ∷ cluster_items dir d c n (i + 1)

unfoldable pub chain_items : DirRef → Disk → List ℕ → Items
chain_items dir d [] = []
chain_items dir d (c ∷ cs) = cluster_items dir d c entries_per_cluster 0 ++ chain_items dir d cs

abbrev pub iter : DirRef → ℕ → ℕ → ℕ → DirIter
iter dir root_index cluster i = record {
  dir = dir;
  root_index = root_index;
  cluster = cluster;
  in_cluster_index = i;
  done = false;
}

module _ (v : Volume) (dir : DirRef) (i c j : ℕ) where
  next-root :
      dir.is_root ≡ true
      → leb root_entries i ≡ false
      → dir_iter_next v (iter dir i c j) ≡ (some (v.root i, root_loc dir i), iter dir (i + 1) c j)
  unfolding dir_iter_next next_in_root
  next-root root more = simp (root, more)

  next-root_end :
      dir.is_root ≡ true → leb root_entries i ≡ true → (dir_iter_next v (iter dir i c j)).0 ≡ none
  unfolding dir_iter_next next_in_root
  next-root_end root last = simp (root, last)

  next-chain :
      dir.is_root ≡ false
      → in_chain c ≡ true
      → leb entries_per_cluster (j + 1) ≡ false
      → dir_iter_next v (iter dir i c j)
        ≡ (some (entry_at (v.disk (cluster_to_lba c)) j, chain_loc dir c j), iter dir i c (j + 1))
  unfolding dir_iter_next next_in_chain disk_read_sector
  next-chain sub live more = simp (sub, live, more)

  next-chain_last :
      dir.is_root ≡ false
      → in_chain c ≡ true
      → leb entries_per_cluster (j + 1) ≡ true
      → dir_iter_next v (iter dir i c j) ≡ (
        some (entry_at (v.disk (cluster_to_lba c)) j, chain_loc dir c j),
        iter dir i (fat_read v.disk c) 0,
      )
  unfolding dir_iter_next next_in_chain disk_read_sector
  next-chain_last sub live last = simp (sub, live, last)

  next-chain_end :
      dir.is_root ≡ false → in_chain c ≡ false → (dir_iter_next v (iter dir i c j)).0 ≡ none
  unfolding dir_iter_next next_in_chain
  next-chain_end sub dead = simp (sub, dead)

root_items-Iterates :
    (v : Volume) (dir : DirRef) (n i c j : ℕ)
    → dir.is_root ≡ true
    → i + n ≡ root_entries
    → Iterates v (iter dir i c j) (root_items dir v.root n i)
unfolding root_items
root_items-Iterates v dir zero i c j root e = next-root_end v dir i c j root (ground arith)
root_items-Iterates v dir (suc n) i c j root e =
    rw (next-root v dir i c j root (ground arith))
      (refl, refl, root_items-Iterates v dir n (i + 1) c j root (omega arith))

cluster_items-Iterates :
    (v : Volume) (dir : DirRef) (n i c : ℕ) (rest : Items)
    → dir.is_root ≡ false
    → in_chain c ≡ true
    → i + suc n ≡ entries_per_cluster
    → Iterates v (iter dir 0 (fat_read v.disk c) 0) rest
    → Iterates v (iter dir 0 c i) (cluster_items dir v.disk c (suc n) i ++ rest)
unfolding cluster_items
cluster_items-Iterates v dir zero i c rest sub live e h =
    rw (next-chain_last v dir 0 c i sub live (ground arith)) (refl, refl, h)
cluster_items-Iterates v dir (suc n) i c rest sub live e h =
    rw (next-chain v dir 0 c i sub live (ground arith))
      (refl, refl, cluster_items-Iterates v dir n (i + 1) c rest sub live (omega arith) h)

chain_items-Iterates :
    (v : Volume) (dir : DirRef) (c : ℕ) (cs : List ℕ)
    → dir.is_root ≡ false
    → Chain v.disk c cs
    → Iterates v (iter dir 0 c 0) (chain_items dir v.disk cs)
unfolding chain_items
chain_items-Iterates v dir c [] sub h = next-chain_end v dir 0 c 0 sub h
chain_items-Iterates v dir c (x ∷ cs) sub h =
    let live : in_chain x ≡ true = ground arith in
    rw h.0 (
      cluster_items-Iterates v dir 15 0 x (chain_items dir v.disk cs) sub live refl
        (chain_items-Iterates v dir (fat_read v.disk x) cs sub h.3))

-- The entries of a directory: those of the root, or of the clusters `cs` of a subdirectory.
abbrev pub dir_items : Volume → DirRef → List ℕ → Items
dir_items v dir cs =
    if dir.is_root then root_items dir v.root root_entries 0 else chain_items dir v.disk cs

-- `cs` are the clusters of `dir`, where it is a subdirectory.
abbrev pub DirChain : Volume → DirRef → List ℕ → Type 0
DirChain v dir cs = if dir.is_root then Unit {0} else Chain v.disk dir.cluster cs

-- The iterator goes through the entries of the directory in order and ends.
pub dir_iter-Iterates :
    (v : Volume) (dir : DirRef) (cs : List ℕ)
    → DirChain v dir cs
    → Iterates v (dir_iter_start dir) (dir_items v dir cs)
unfolding dir_iter_start
dir_iter-Iterates v dir cs h = elim (Bool-cases dir.is_root) [
  | inl root ↦ simp root (root_items-Iterates v dir root_entries 0 0 0 root refl)
  | inr sub ↦ simp sub (chain_items-Iterates v dir dir.cluster cs sub (simp sub at h))
]

length-cluster_items :
    (dir : DirRef) (d : Disk) (c n i : ℕ) → length (cluster_items dir d c n i) ≡ n
unfolding cluster_items
length-cluster_items dir d c zero i = refl
length-cluster_items dir d c (suc n) i = ap suc (length-cluster_items dir d c n (i + 1))

length-chain_items :
    (dir : DirRef) (d : Disk) (cs : List ℕ)
    → length (chain_items dir d cs) ≡ entries_per_cluster * length cs
unfolding chain_items
length-chain_items dir d [] = refl
length-chain_items dir d (c ∷ cs) = omega (
  arith,
  length-append {0} (cluster_items dir d c entries_per_cluster 0) (chain_items dir d cs),
  length-cluster_items dir d c entries_per_cluster 0,
  length-chain_items dir d cs,
)

length-root_items : (dir : DirRef) (r : RootDir) (n i : ℕ) → length (root_items dir r n i) ≡ n
unfolding root_items
length-root_items dir r zero i = refl
length-root_items dir r (suc n) i = ap suc (length-root_items dir r n (i + 1))

-- A loop over a directory has fuel enough.
pub length-dir_items :
    (v : Volume) (dir : DirRef) (cs : List ℕ)
    → DirChain v dir cs
    → length (dir_items v dir cs) < max_steps
unfolding max_steps
length-dir_items v dir cs h = elim (Bool-cases dir.is_root) [
  | inl root ↦ simp root (omega (arith, length-root_items dir v.root root_entries 0))
  | inr sub ↦
      let ch : Chain v.disk dir.cluster cs = simp sub at h in
      simp sub
        (omega (arith, length-chain_items dir v.disk cs, length-Chain v.disk dir.cluster cs ch))
]
