-- ===== src/Files/Folders/Count.antt =====
-- `fs_debug_stats` and `fat_alloc_cluster` of kernel/fs.c.
use rink_os.Prelude.{ℕ, zero, suc, ◌+◌, ◌≤◌, ◌<◌, ◌≡◌, ◌≢◌, ◌⊎◌, refl, inl, inr, arith}
use native.Mathlib.Decide.{ℕ_discrete}
use rink_os.Disk.{Disk}
use rink_os.Fat.{
  total_data_clusters, first_data_cluster, end_cluster, cluster_free, cluster_eoc, fat_read,
  fat_write, fat_alloc_cluster,
}
use rink_os.Fat.Entry.{fat_read-fat_write}
use rink_os.Fat.Alloc.{NoneFree, Allocated, fat_alloc_cluster-Allocated}
use rink_os.Volume.{Volume}
use rink_os.Files.Folders.{free_from, fs_debug_stats}

free_from-after :
    (n c r : ℕ) (d : Disk)
    → r < c
    → c + n ≤ end_cluster
    → free_from n c (fat_write d r cluster_eoc) ≡ free_from n c d
unfolding free_from
free_from-after zero c r d lt top = refl
free_from-after (suc n) c r d lt top =
    let same : fat_read (fat_write d r cluster_eoc) c ≡ fat_read d c =
      ground (arith, fat_read-fat_write d c r cluster_eoc) in
    rw (same, free_from-after n (c + 1) r d (omega arith) (omega arith)) refl

free_from-taken :
    (n c r : ℕ) (d : Disk)
    → c ≤ r
    → r < c + n
    → c + n ≤ end_cluster
    → fat_read d r ≡ cluster_free
    → free_from n c d ≡ free_from n c (fat_write d r cluster_eoc) + 1
unfolding free_from
free_from-taken zero c r d lo hi top free = absurd (omega arith)
free_from-taken (suc n) c r d lo hi top free = elim (ℕ_discrete c r) [
  | yes e ↦
      let after = free_from-after n (c + 1) r d (omega arith) (omega arith) in
      let new = fat_read-fat_write d c r cluster_eoc (omega arith) (omega arith) in
      let here : fat_read d c ≡ 0 = rw e free in ground arith
  | no ne ↦
      let ih = free_from-taken n (c + 1) r d (omega arith) (omega arith) (omega arith) free in
      let same : fat_read (fat_write d r cluster_eoc) c ≡ fat_read d c =
        ground (arith, fat_read-fat_write d c r cluster_eoc) in
      rw (same, ih) (omega arith)
]

free_from-NoneFree : (n c : ℕ) (d : Disk) → NoneFree d c (c + n) → free_from n c d ≡ 0
unfolding free_from
free_from-NoneFree zero c d h = refl
free_from-NoneFree (suc n) c d h =
    let ih = free_from-NoneFree n (c + 1) d (λ a lo hi. h a (omega arith) (omega arith)) in
    let taken = h c (omega arith) (omega arith) in ground arith

-- fat_alloc_cluster fails only if fs_debug_stats counts no free cluster, and otherwise the count
-- is one less afterwards.
pub fs_debug_stats-fat_alloc_cluster :
    (v : Volume)
    → (((fat_alloc_cluster v.disk).0 ≡ 0) × ((fs_debug_stats v).1 ≡ 0))
      ⊎ (((fat_alloc_cluster v.disk).0 ≢ 0)
          × ((fs_debug_stats v).1
              ≡ (fs_debug_stats (record v { disk = (fat_alloc_cluster v.disk).1 })).1 + 1))
unfolding fs_debug_stats
fs_debug_stats-fat_alloc_cluster v =
    go (fat_alloc_cluster v.disk) (fat_alloc_cluster-Allocated v.disk)
  where
    go :
        (r : ℕ × Disk)
        → Allocated v.disk first_data_cluster end_cluster r
        → ((r.0 ≡ 0) × (free_from total_data_clusters first_data_cluster v.disk ≡ 0))
          ⊎ ((r.0 ≢ 0)
              × (free_from total_data_clusters first_data_cluster v.disk
                  ≡ free_from total_data_clusters first_data_cluster r.1 + 1))
    go (c, d) (inl (z, same, none_free)) =
        inl (z, free_from-NoneFree total_data_clusters first_data_cluster v.disk none_free)
    go (c, d) (inr (lo, hi, free, below, same)) = inr (
      omega arith,
      rw same (
          free_from-taken total_data_clusters first_data_cluster c v.disk lo hi (omega arith) free),
    )
