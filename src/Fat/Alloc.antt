-- ===== src/Fat/Alloc.antt =====
-- `fat_alloc_cluster` of kernel/fs.c.
use rink_os.Prelude.{
  ℕ, zero, suc, ◌+◌, ◌≤◌, ◌<◌, ◌≡◌, ◌≢◌, ◌⊎◌, inl, inr, refl, arith, ◌==◌, Bool-cases,
}
use rink_os.Disk.{Disk}
use rink_os.Fat.{
  total_data_clusters, first_data_cluster, end_cluster, cluster_free, cluster_eoc, fat_read,
  fat_write, alloc_from, fat_alloc_cluster,
}

-- No entry from `lo` up to `hi` is free.
abbrev pub NoneFree : Disk → ℕ → ℕ → Type 0
NoneFree d lo hi = (a : ℕ) → lo ≤ a → a < hi → fat_read d a ≢ cluster_free

-- What a scan from `lo` to `hi` returns.
abbrev pub Allocated : Disk → ℕ → ℕ → ℕ × Disk → Type 0
Allocated d lo hi (r, d') =
    ((r ≡ 0) × (d' ≡ d) × NoneFree d lo hi)
    ⊎ ((lo ≤ r)
        × (r < hi)
        × (fat_read d r ≡ cluster_free)
        × NoneFree d lo r
        × (d' ≡ fat_write d r cluster_eoc))

alloc_from-step :
    (d : Disk) (c hi : ℕ) (r : ℕ × Disk)
    → fat_read d c ≢ cluster_free
    → Allocated d (c + 1) hi r
    → Allocated d c hi r
alloc_from-step d c hi r h (inl (e, f, none_free)) =
    inl (e, f, λ a lo lt. ground (arith, h, none_free a))
alloc_from-step d c hi r h (inr (lo', hi', e, below, f)) =
    inr (omega arith, hi', e, (λ a lo lt. ground (arith, h, below a)), f)

alloc_from-Allocated : (d : Disk) (n c hi : ℕ) → c + n ≡ hi → Allocated d c hi (alloc_from n c d)
unfolding alloc_from
alloc_from-Allocated d zero c hi e = inl (refl, refl, λ a lo lt. absurd (omega arith))
alloc_from-Allocated d (suc n) c hi e = elim (Bool-cases (fat_read d c == 0)) [
  | inl free ↦
      rw free
        (inr (omega arith, omega arith, ground arith, (λ a lo lt. absurd (omega arith)), refl))
  | inr taken ↦
      rw taken (
        alloc_from-step d c hi _ (ground arith) (alloc_from-Allocated d n (c + 1) hi (omega arith)))
]

-- fat_alloc_cluster takes the first free data cluster and marks it as the end of a chain; it
-- returns 0 and leaves the disk alone only if no data cluster is free.
pub fat_alloc_cluster-Allocated :
    (d : Disk) → Allocated d first_data_cluster end_cluster (fat_alloc_cluster d)
unfolding fat_alloc_cluster
fat_alloc_cluster-Allocated d =
    alloc_from-Allocated d total_data_clusters first_data_cluster end_cluster refl
