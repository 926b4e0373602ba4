-- ===== src/Tests/Heap.antt =====
-- The allocator of kernel/mm.c on a small heap.
use rink_os.Prelude.{ℕ, ◌≡◌, ◌⊎◌, refl, true, false, some, none, List, [], ◌∷◌, arith}
use rink_os.Heap.{
  Block, MmapEntry, align4, find_heap_end, kmalloc, kfree, best_end, alloc_from, split_block,
  mark_used, mark_free, coalesce, coalesce_from,
}
use rink_os.Heap.Tiling.{Tiles}
use rink_os.Heap.Alloc.{live, Spread, NoneFits, Adds, kmalloc-some, kmalloc-none}
use rink_os.Heap.Free.{kfree-kmalloc}
use rink_os.Heap.Limit.{kmalloc-wraps}

abbrev block : ℕ → ℕ → Block
block addr size = record { addr = addr; size = size; free = true }

abbrev in_use : ℕ → ℕ → Block
in_use addr size = record { addr = addr; size = size; free = false }

-- A heap of 256 bytes, and after a request for 30.
abbrev fresh : List Block
fresh = block 4096 244 ∷ []

abbrev taken : List Block
taken = in_use 4096 32 ∷ block 4140 200 ∷ []

fresh-Tiles : Tiles 4096 4352 fresh
fresh-Tiles = (refl, refl)

taken-Tiles : Tiles 4096 4352 taken
taken-Tiles = (refl, (refl, refl))

kmalloc_run : kmalloc 30 fresh ≡ (some 4108, taken)
unfolding kmalloc alloc_from split_block mark_used
kmalloc_run = refl

kmalloc_refused : kmalloc 300 fresh ≡ (none, fresh)
unfolding kmalloc alloc_from split_block mark_used
kmalloc_refused = refl

kfree_run : kfree 4108 taken ≡ some fresh
unfolding kfree mark_free coalesce coalesce_from
kfree_run = refl

-- A map with a region of 1 MiB of usable memory around the heap.
abbrev memory_map : List MmapEntry
memory_map = record { base = 0; length = 0x100000; type_code = 1 } ∷ []

top_is_limit : find_heap_end 0x20000 memory_map ≡ 0x90000
unfolding find_heap_end best_end
top_is_limit = refl

kmalloc-some_example : Adds 30 4108 fresh taken × Spread 4096 4352 (live taken)
kmalloc-some_example =
    kmalloc-some 4096 4352 30 4108 fresh taken (omega arith) fresh-Tiles (omega arith) kmalloc_run

kmalloc-none_example : (fresh ≡ fresh) × (◌≡◌ {A = ℕ} 300 0 ⊎ NoneFits (align4 300) fresh)
kmalloc-none_example = kmalloc-none 300 fresh fresh kmalloc_refused

kfree-kmalloc_example : kfree 4108 taken ≡ some fresh
kfree-kmalloc_example =
    kfree-kmalloc 4096 4352 30 4108 fresh taken (omega arith) fresh-Tiles (refl, tt) kmalloc_run

kmalloc-wraps_example : (kmalloc 0xFFFFFFFE fresh).0 ≡ some 4108
kmalloc-wraps_example =
    kmalloc-wraps 0xFFFFFFFE (block 4096 244) [] (omega arith) (omega arith) refl (omega arith)
