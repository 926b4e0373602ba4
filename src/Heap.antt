-- ===== src/Heap.antt =====
-- The allocator of kernel/mm.c. The linked list of headers is the list of blocks in its order, each
-- with the address of its header; the empty list is `heap_start == NULL`.
pub mod Tiling
pub mod Alloc
pub mod Free
pub mod Limit
pub mod Dump
use rink_os.Prelude.{
  ℕ, zero, suc, ◌+◌, ◌-◌, ◌*◌, ◌/◌, ◌%◌, ◌^◌, Bool, true, false, ◌&&◌, not, Option, none, some,
  List, [], ◌∷◌, ltb, leb, ◌==◌, if◌then◌else◌,
}

abbrev pub u32 : ℕ
u32 = 2 ^ 32

-- `mmap_entry_t`, of a map that the boot loader leaves behind
pub record MmapEntry : Type 0 where
  pub base : ℕ
  pub length : ℕ
  pub type_code : ℕ

-- `sizeof(block_header_t)`
abbrev pub header : ℕ
header = 12

-- `block_header_t`; `addr` is where the header stands.
pub record Block : Type 0 where
  pub addr : ℕ
  pub size : ℕ
  pub free : Bool

-- The bound for the end of the heap.
abbrev pub stack_limit : ℕ
stack_limit = 0x90000

unfoldable pub best_end : ℕ → List MmapEntry → ℕ → ℕ
best_end heap_start [] best = best
best_end heap_start (e ∷ es) best =
    let region_end = (e.base + e.length) % 2 ^ 64 % u32 in
    let skip = not (e.type_code == 1) in
    let high = ltb 0xFFFFFFFF e.base in
    let holds = leb e.base heap_start && ltb heap_start region_end in
    let better = holds && ltb best region_end in
    best_end heap_start es
      (if skip then best else if high then best else if better then region_end else best)

unfoldable pub find_heap_end : ℕ → List MmapEntry → ℕ
unfolding best_end
find_heap_end heap_start entries =
    let best = best_end heap_start entries ((heap_start + 0x10000) % u32) in
    if ltb stack_limit best then stack_limit else best

-- Subtraction in `uint32_t`, of numbers below 2 ^ 32
abbrev pub sub32 : ℕ → ℕ → ℕ
sub32 a b = (a + u32 - b) % u32

unfoldable pub kmalloc_init : ℕ → List MmapEntry → List Block
kmalloc_init heap_start entries =
    record {
      addr = heap_start;
      size = sub32 (sub32 (find_heap_end heap_start entries) heap_start) header;
      free = true;
    }
    ∷ []

-- A block and those behind it, the first split if the remainder is worth a header.
unfoldable pub split_block : Block → ℕ → List Block → List Block
split_block block size next =
    let new_block : Block = record {
      addr = block.addr + header + size;
      size = sub32 (sub32 block.size size) header;
      free = true;
    } in
    if leb ((size + header + 4) % u32) block.size
    then record block { size = size } ∷ new_block ∷ next
    else block ∷ next

-- `curr->free = 0`
unfoldable pub mark_used : List Block → List Block
mark_used [] = []
mark_used (b ∷ bs) = record b { free = false } ∷ bs

-- `(size + 3) & ~3`
abbrev pub align4 : ℕ → ℕ
align4 size = (size + 3) % u32 / 4 * 4

-- The loop of `kmalloc`, with the size aligned.
unfoldable pub alloc_from : ℕ → List Block → Option ℕ × List Block
unfolding split_block mark_used
alloc_from size [] = (none, [])
alloc_from size (b ∷ bs) =
    let (ptr, rest) = alloc_from size bs in
    if b.free && leb size b.size
    then (some (b.addr + header), mark_used (split_block b size bs))
    else (ptr, b ∷ rest)

-- The address of the memory, `none` for NULL, and the new heap
unfoldable pub kmalloc : ℕ → List Block → Option ℕ × List Block
unfolding alloc_from
kmalloc size blocks = if size == 0 then (none, blocks) else alloc_from (align4 size) blocks

-- `coalesce` from the block `curr` on
unfoldable pub coalesce_from : Block → List Block → List Block
coalesce_from curr [] = curr ∷ []
coalesce_from curr (b ∷ bs) =
    let joined : Block = record curr { size = (curr.size + (header + b.size)) % u32 } in
    elim (curr.free && b.free) [
      | true ↦ coalesce_from joined bs
      | false ↦ curr ∷ coalesce_from b bs
    ]

unfoldable pub coalesce : List Block → List Block
unfolding coalesce_from
coalesce [] = []
coalesce (b ∷ bs) = coalesce_from b bs

-- `block->free = 1` at the header at `addr`; `none` if no header stands there, where the code would
-- write to memory of another use.
unfoldable pub mark_free : ℕ → List Block → Option (List Block)
mark_free addr [] = none
mark_free addr (b ∷ bs) =
    let rest = mark_free addr bs in
    if b.addr == addr
    then some (record b { free = true } ∷ bs)
    else elim rest [ none ↦ none | some bs' ↦ some (b ∷ bs') ]

-- `ptr` is not NULL.
unfoldable pub kfree : ℕ → List Block → Option (List Block)
unfolding mark_free coalesce
kfree ptr blocks = elim (mark_free (ptr - header) blocks) [
  | none ↦ none
  | some bs ↦ some (coalesce bs)
]

pub record Stats : Type 0 where
  pub total : ℕ
  pub used : ℕ
  pub free_bytes : ℕ

unfoldable pub stats_from : Stats → List Block → Stats
stats_from s [] = s
stats_from s (b ∷ bs) =
    stats_from
      (if b.free
        then record s {
          total = (s.total + b.size) % u32;
          free_bytes = (s.free_bytes + b.size) % u32;
        }
        else record s { total = (s.total + b.size) % u32; used = (s.used + b.size) % u32 })
      bs

unfoldable pub kmalloc_stats : List Block → Stats
unfolding stats_from
kmalloc_stats blocks = stats_from (record { total = 0; used = 0; free_bytes = 0 }) blocks
