-- ===== src/Heap/Tiling.antt =====
-- The blocks of the heap of kernel/mm.c as a tiling.
use rink_os.Prelude.{
  ℕ, ◌+◌, ◌-◌, ◌%◌, ◌≤◌, ◌≡◌, inl, inr, refl, ◌&&◌, Option, none, some, List, [], ◌∷◌, Bool-cases,
  Option-cases, arith, leb, ltb, ◌==◌, if◌then◌else◌,
}
use rink_os.Heap.{
  Block, MmapEntry, header, u32, stack_limit, best_end, find_heap_end, kmalloc_init, split_block,
  mark_used, alloc_from, kmalloc, align4, coalesce_from, coalesce, mark_free, kfree,
}

-- Each block with its header ends where the next one begins.
abbrev pub Tiles : ℕ → ℕ → List Block → Type 0
Tiles lo hi [] = lo ≡ hi
Tiles lo hi (b ∷ bs) = (b.addr ≡ lo) × Tiles (lo + header + b.size) hi bs

pub lo-le-hi : (lo hi : ℕ) (bs : List Block) → Tiles lo hi bs → lo ≤ hi
lo-le-hi lo hi [] t = omega arith
lo-le-hi lo hi (b ∷ bs) t = omega (arith, lo-le-hi (lo + header + b.size) hi bs t.1)

pub find_heap_end-le :
    (start : ℕ) (entries : List MmapEntry) → find_heap_end start entries ≤ stack_limit
unfolding find_heap_end
find_heap_end-le start entries = le_cap (best_end start entries ((start + 0x10000) % u32))
  where
    le_cap : (best : ℕ) → (if ltb stack_limit best then stack_limit else best) ≤ stack_limit
    le_cap best = ground arith

pub Tiles-at : {lo lo' : ℕ} (hi : ℕ) (bs : List Block) → lo ≡ lo' → Tiles lo hi bs → Tiles lo' hi bs
Tiles-at hi bs e t = rw e at t

-- The heap that kmalloc_init sets up is one block from the end of the kernel to the end found,
-- which is at most 0x90000, if that leaves room for a header.
pub kmalloc_init-Tiles :
    (start : ℕ) (entries : List MmapEntry)
    → start + header ≤ find_heap_end start entries
    → Tiles start (find_heap_end start entries) (kmalloc_init start entries)
      × (find_heap_end start entries ≤ stack_limit)
unfolding kmalloc_init
kmalloc_init-Tiles start entries h =
    let top : find_heap_end start entries ≤ stack_limit = find_heap_end-le start entries in
    ((refl, omega arith), top)

split_block-Tiles :
    (lo hi size : ℕ) (b : Block) (bs : List Block)
    → hi ≤ stack_limit
    → size ≤ b.size
    → Tiles lo hi (b ∷ bs)
    → Tiles lo hi (mark_used (split_block b size bs))
unfolding split_block mark_used
split_block-Tiles lo hi size b bs small le t =
    let top : lo + header + b.size ≤ hi = lo-le-hi (lo + header + b.size) hi bs t.1 in
    elim (Bool-cases (leb ((size + header + 4) % u32) b.size)) [
      | inl yes' ↦ rw yes' (t.0, (omega arith, Tiles-at hi bs (ground arith) t.1))
      | inr no' ↦ rw no' t
    ]

pub alloc_from-Tiles :
    (lo hi size : ℕ) (bs : List Block)
    → hi ≤ stack_limit
    → Tiles lo hi bs
    → Tiles lo hi (alloc_from size bs).1
unfolding alloc_from
alloc_from-Tiles lo hi size [] small t = t
alloc_from-Tiles lo hi size (b ∷ bs) small t = elim (Bool-cases (b.free && leb size b.size)) [
  | inl fits ↦ rw fits (split_block-Tiles lo hi size b bs small (ground arith) t)
  | inr not' ↦ rw not' (t.0, alloc_from-Tiles (lo + header + b.size) hi size bs small t.1)
]

-- kmalloc keeps the blocks tiling the heap, if that ends at most at 0x90000.
pub kmalloc-Tiles :
    (lo hi size : ℕ) (bs : List Block)
    → hi ≤ stack_limit
    → Tiles lo hi bs
    → Tiles lo hi (kmalloc size bs).1
unfolding kmalloc
kmalloc-Tiles lo hi size bs small t = ground (arith, alloc_from-Tiles lo hi (align4 size) bs)

coalesce_from-Tiles :
    (lo hi : ℕ) (b : Block) (bs : List Block)
    → hi ≤ stack_limit
    → Tiles lo hi (b ∷ bs)
    → Tiles lo hi (coalesce_from b bs)
unfolding coalesce_from
coalesce_from-Tiles lo hi b [] small t = t
coalesce_from-Tiles lo hi b (c ∷ bs) small t = elim (Bool-cases (b.free && c.free)) [
  | inl both ↦
      let top = lo-le-hi (lo + header + b.size + header + c.size) hi bs t.1.1 in
      rw (both, coalesce_from)
        (coalesce_from-Tiles lo hi _ bs small (t.0, Tiles-at hi bs (omega arith) t.1.1))
  | inr not' ↦
      rw (not', coalesce_from) (t.0, coalesce_from-Tiles (lo + header + b.size) hi c bs small t.1)
]

-- The same of a heap that a call may fail to return.
abbrev TilesIfSome : ℕ → ℕ → Option (List Block) → Type 0
TilesIfSome lo hi none = Unit
TilesIfSome lo hi (some bs) = Tiles lo hi bs

mark_free-Tiles :
    (lo hi addr : ℕ) (bs : List Block) → Tiles lo hi bs → TilesIfSome lo hi (mark_free addr bs)
unfolding mark_free
mark_free-Tiles lo hi addr [] t = tt
mark_free-Tiles lo hi addr (b ∷ bs) t = elim (Bool-cases (b.addr == addr)) [
  | inl here ↦ rw here t
  | inr further ↦ elim (Option-cases (mark_free addr bs)) [
    | inl missing ↦ rw (further, missing) tt
    | inr (cs, found) ↦
        rw (further, found)
          (t.0, rw found at (mark_free-Tiles (lo + header + b.size) hi addr bs t.1))
  ]
]

coalesce-Tiles :
    (lo hi : ℕ) (bs : List Block) → hi ≤ stack_limit → Tiles lo hi bs → Tiles lo hi (coalesce bs)
unfolding coalesce
coalesce-Tiles lo hi [] small t = t
coalesce-Tiles lo hi (b ∷ bs) small t = coalesce_from-Tiles lo hi b bs small t

kfree-TilesIfSome :
    (lo hi ptr : ℕ) (bs : List Block)
    → hi ≤ stack_limit
    → Tiles lo hi bs
    → TilesIfSome lo hi (kfree ptr bs)
unfolding kfree
kfree-TilesIfSome lo hi ptr bs small t = elim (Option-cases (mark_free (ptr - header) bs)) [
  | inl missing ↦ rw (missing, kfree) tt
  | inr (cs, found) ↦
      rw (found, kfree)
        (coalesce-Tiles lo hi cs small (rw found at (mark_free-Tiles lo hi (ptr - header) bs t)))
]

-- kfree of a block of the heap that ends at most at 0x90000 keeps the blocks tiling it.
pub kfree-Tiles :
    (lo hi ptr : ℕ) (bs bs' : List Block)
    → hi ≤ stack_limit
    → Tiles lo hi bs
    → kfree ptr bs ≡ some bs'
    → Tiles lo hi bs'
kfree-Tiles lo hi ptr bs bs' small t e = rw e at (kfree-TilesIfSome lo hi ptr bs small t)
