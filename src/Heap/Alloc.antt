-- ===== src/Heap/Alloc.antt =====
-- `kmalloc` of kernel/mm.c.
use rink_os.Prelude.{
  ℕ, ◌+◌, ◌%◌, ◌≤◌, ◌<◌, ◌≡◌, ◌⊎◌, inl, inr, refl, ap, true, false, ◌&&◌, Option, none, some, ◌≢◌,
  sym, ◌∙◌, List, [], ◌∷◌, ◌++◌, Bool-cases, arith, leb, if◌then◌else◌,
}
use mathlib.Core.Path.{subst}
use native.Mathlib.Decide.{ℕ_discrete}
use rink_os.Heap.{
  Block, header, u32, stack_limit, split_block, mark_used, alloc_from, kmalloc, align4,
}
use rink_os.Heap.Tiling.{Tiles, Tiles-at, kmalloc-Tiles}

-- The blocks in use.
abbrev pub live : List Block → List Block
live [] = []
live (b ∷ bs) = if b.free then live bs else b ∷ live bs

-- The blocks lie in the order of their addresses from `lo` to `hi`, with no overlap.
abbrev pub Spread : ℕ → ℕ → List Block → Type 0
Spread lo hi [] = lo ≤ hi
Spread lo hi (b ∷ bs) = (lo ≤ b.addr) × Spread (b.addr + header + b.size) hi bs

Spread-widen : (lo lo' hi : ℕ) (bs : List Block) → lo' ≤ lo → Spread lo hi bs → Spread lo' hi bs
Spread-widen lo lo' hi [] le s = omega arith
Spread-widen lo lo' hi (b ∷ bs) le s = (omega arith, s.1)

-- In a tiled heap the live blocks do not overlap.
pub live-Spread : (lo hi : ℕ) (bs : List Block) → Tiles lo hi bs → Spread lo hi (live bs)
live-Spread lo hi [] t = omega arith
live-Spread lo hi (b ∷ bs) t = elim (Bool-cases b.free) [
  | inl free ↦ rw free (
      Spread-widen (lo + header + b.size) lo hi (live bs) (omega arith)
        (live-Spread (lo + header + b.size) hi bs t.1))
  | inr used ↦
      rw used (
        omega arith,
        live-Spread (b.addr + header + b.size) hi bs (Tiles-at hi bs (omega arith) t.1),
      )
]

-- No free block has room for `size` bytes.
abbrev pub NoneFits : ℕ → List Block → Type 0
NoneFits size [] = Unit
NoneFits size (b ∷ bs) = ((b.free && leb size b.size) ≡ false) × NoneFits size bs

-- After an allocation of `n` bytes at `p` the live blocks are those of before and one more.
abbrev pub Adds : ℕ → ℕ → List Block → List Block → Type 0
Adds n p bs bs' =
    (before : List Block) × (new : Block) × (behind : List Block) × (live bs ≡ before ++ behind)
    × (live bs' ≡ before ++ new ∷ behind)
    × (new.addr + header ≡ p)
    × (n ≤ new.size)

-- The two outcomes of a request for `n` bytes.
abbrev pub Served : ℕ → List Block → Option ℕ × List Block → Type 0
Served n bs (none, bs') = (bs' ≡ bs) × NoneFits n bs
Served n bs (some p, bs') = Adds n p bs bs'

Served-here :
    (size : ℕ) (b : Block) (bs : List Block)
    → b.free ≡ true
    → size ≤ b.size
    → Adds size (b.addr + header) (b ∷ bs) (mark_used (split_block b size bs))
unfolding split_block mark_used
Served-here size b bs free le = elim (Bool-cases (leb ((size + header + 4) % u32) b.size)) [
  | inl split ↦
      rw split
        ([], record b { size = size; free = false }, live bs, rw free, refl, refl, omega arith)
  | inr whole ↦ rw whole ([], record b { free = false }, live bs, rw free, refl, refl, omega arith)
]

Served-skip :
    (n : ℕ) (b : Block) (bs : List Block) (r : Option ℕ × List Block)
    → (b.free && leb n b.size) ≡ false
    → Served n bs r
    → Served n (b ∷ bs) (r.0, b ∷ r.1)
Served-skip n b bs (none, bs') h (e, f) = (ap (◌∷◌ b) e, (h, f))
Served-skip n b bs (some p, bs') h (before, new, behind, was, is, at, le) =
    elim (Bool-cases b.free) [
      | inl free ↦ (before, new, behind, rw free was, rw free is, at, le)
      | inr used ↦
          (b ∷ before, new, behind, simp used (ap (◌∷◌ b) was), simp used (ap (◌∷◌ b) is), at, le)
    ]

alloc_from-Served : (size : ℕ) (bs : List Block) → Served size bs (alloc_from size bs)
unfolding alloc_from
alloc_from-Served size [] = (refl, tt)
alloc_from-Served size (b ∷ bs) = elim (Bool-cases (b.free && leb size b.size)) [
  | inl fits ↦ rw fits (Served-here size b bs (ground arith) (ground arith))
  | inr not' ↦ rw not' (Served-skip size b bs (alloc_from size bs) not' (alloc_from-Served size bs))
]

-- A request that does not wrap is not rounded down.
align4-ge : (n : ℕ) → n + 3 < u32 → n ≤ align4 n
align4-ge n h = omega arith

Adds-le : (m n p : ℕ) (bs bs' : List Block) → n ≤ m → Adds m p bs bs' → Adds n p bs bs'
Adds-le m n p bs bs' le (before, new, behind, was, is, at, fits) =
    (before, new, behind, was, is, at, omega arith)

pub kmalloc-of_pos : (n : ℕ) (bs : List Block) → n ≢ 0 → kmalloc n bs ≡ alloc_from (align4 n) bs
unfolding kmalloc
kmalloc-of_pos n bs h = ground arith

pub kmalloc-zero : (bs : List Block) → kmalloc 0 bs ≡ (none, bs)
unfolding kmalloc
kmalloc-zero bs = refl

-- In a tiled heap that ends at most at 0x90000, a request below 2 ^ 32 - 3 that kmalloc meets gets
-- a new live block of at least its size, all other live blocks stay, and no two live blocks
-- overlap or leave the heap.
pub kmalloc-some :
    (lo hi n p : ℕ) (bs bs' : List Block)
    → hi ≤ stack_limit
    → Tiles lo hi bs
    → n + 3 < u32
    → kmalloc n bs ≡ (some p, bs')
    → Adds n p bs bs' × Spread lo hi (live bs')
kmalloc-some lo hi n p bs bs' small t fits e = elim (ℕ_discrete n 0) [
  | yes z ↦ ground (arith, kmalloc-zero bs)
  | no nz ↦
      let r : alloc_from (align4 n) bs ≡ (some p, bs') = sym (kmalloc-of_pos n bs nz) ∙ e in
      let s : Served (align4 n) bs (some p, bs') = rw r at (alloc_from-Served (align4 n) bs) in
      (
        Adds-le (align4 n) n p bs bs' (align4-ge n fits) s,
        live-Spread lo hi bs' (ap_snd e (kmalloc-Tiles lo hi n bs small t)),
      )
]
  where
    ap_snd : kmalloc n bs ≡ (some p, bs') → Tiles lo hi (kmalloc n bs).1 → Tiles lo hi bs'
    ap_snd q h = subst (λ r. Tiles lo hi r.1) q h

-- kmalloc refuses a request only if it is empty or no free block is as large as its size rounded
-- up, in 32 bits, to a multiple of four, and then the heap stays as it is.
pub kmalloc-none :
    (n : ℕ) (bs bs' : List Block)
    → kmalloc n bs ≡ (none, bs')
    → (bs' ≡ bs) × ((n ≡ 0) ⊎ NoneFits (align4 n) bs)
kmalloc-none n bs bs' e = elim (ℕ_discrete n 0) [
  | yes z ↦ (ground (arith, kmalloc-zero bs), inl z)
  | no nz ↦
      let r : alloc_from (align4 n) bs ≡ (none, bs') = sym (kmalloc-of_pos n bs nz) ∙ e in
      let s : Served (align4 n) bs (none, bs') = rw r at (alloc_from-Served (align4 n) bs) in
      (s.0, inr s.1)
]
