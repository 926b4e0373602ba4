-- ===== src/Heap/Limit.antt =====
-- `kmalloc_stats` of kernel/mm.c, and the largest requests.
use rink_os.Prelude.{
  ℕ, ◌+◌, ◌*◌, ◌%◌, ◌≤◌, ◌<◌, ◌≡◌, true, some, List, [], ◌∷◌, Bool-cases, inl, inr, arith, length,
}
use rink_os.Heap.{
  Block, Stats, header, u32, stack_limit, kmalloc, align4, stats_from, kmalloc_stats,
}
use rink_os.Heap.Tiling.{Tiles, lo-le-hi}

stats_from-Tiles :
    (lo hi : ℕ) (s : Stats) (bs : List Block)
    → hi ≤ stack_limit
    → Tiles lo hi bs
    → s.total ≤ lo
    → s.used + s.free_bytes ≤ lo
    → ((stats_from s bs).total + header * length bs + lo ≡ s.total + hi)
      × ((stats_from s bs).used + (stats_from s bs).free_bytes + header * length bs + lo
          ≡ s.used + s.free_bytes + hi)
unfolding stats_from
stats_from-Tiles lo hi s [] small t a b = omega arith
stats_from-Tiles lo hi s (b ∷ bs) small t h₁ h₂ =
    let top = lo-le-hi (lo + header + b.size) hi bs t.1 in
    elim (Bool-cases b.free) [
      | inl free ↦
          let ih =
            stats_from-Tiles (lo + header + b.size) hi
              (record s {
                total = (s.total + b.size) % u32;
                free_bytes = (s.free_bytes + b.size) % u32;
              })
              bs small t.1 (omega arith) (omega arith) in
          rw free (omega arith)
      | inr used ↦
          let ih =
            stats_from-Tiles (lo + header + b.size) hi
              (record s { total = (s.total + b.size) % u32; used = (s.used + b.size) % u32 }) bs
              small t.1 (omega arith) (omega arith) in
          rw used (omega arith)
    ]

-- The figures of kmalloc_stats account for every byte of a tiled heap that ends at most at
-- 0x90000: the total and the headers fill it, and what is used and what is free make up the total.
pub kmalloc_stats-Tiles :
    (lo hi : ℕ) (bs : List Block)
    → hi ≤ stack_limit
    → Tiles lo hi bs
    → ((kmalloc_stats bs).total + header * length bs + lo ≡ hi)
      × ((kmalloc_stats bs).used + (kmalloc_stats bs).free_bytes ≡ (kmalloc_stats bs).total)
unfolding kmalloc_stats
kmalloc_stats-Tiles lo hi bs small t =
    let sums =
      stats_from-Tiles lo hi (record { total = 0; used = 0; free_bytes = 0 }) bs small t
        (omega arith) (omega arith) in
    omega arith

-- A request within three bytes of 2 ^ 32 wraps to size 0 and is met by a free first block, though
-- that is smaller than the request.
pub kmalloc-wraps :
    (n : ℕ) (b : Block) (bs : List Block)
    → u32 ≤ n + 3
    → n < u32
    → b.free ≡ true
    → b.size < n
    → (kmalloc n (b ∷ bs)).0 ≡ some (b.addr + header)
unfolding kmalloc
kmalloc-wraps n b bs wraps lt free small =
    let rounded : align4 n ≡ 0 = omega arith in ground (arith, rounded)
