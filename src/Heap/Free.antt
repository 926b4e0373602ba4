-- ===== src/Heap/Free.antt =====
-- `kfree` of kernel/mm.c.
use rink_os.Prelude.{
  ℕ, ◌+◌, ◌-◌, ◌%◌, ◌≤◌, ◌≡◌, ◌≢◌, sym, ◌∙◌, inl, inr, refl, ap, Bool, true, false, ◌&&◌, Option,
  none, some, List, [], ◌∷◌, Bool-cases, Option-cases, arith, leb, ◌==◌,
}
use mathlib.Core.Path.{subst}
use native.Mathlib.Decide.{ℕ_discrete}
use rink_os.Heap.{
  Block, header, u32, stack_limit, split_block, mark_used, alloc_from, kmalloc, align4,
  coalesce_from, coalesce, mark_free, kfree,
}
use rink_os.Heap.Tiling.{Tiles, lo-le-hi}
use rink_os.Heap.Alloc.{kmalloc-of_pos, kmalloc-zero}

abbrev pub head_free : List Block → Bool
head_free [] = false
head_free (b ∷ bs) = b.free

-- No two free blocks stand side by side.
abbrev pub Coalesced : List Block → Type 0
Coalesced [] = Unit
Coalesced (b ∷ bs) = ((b.free && head_free bs) ≡ false) × Coalesced bs

head_free-coalesce_from : (b : Block) (bs : List Block) → head_free (coalesce_from b bs) ≡ b.free
unfolding coalesce_from
head_free-coalesce_from b [] = refl
head_free-coalesce_from b (c ∷ bs) = elim (Bool-cases (b.free && c.free)) [
  | inl both ↦
      rw (both, coalesce_from)
        (head_free-coalesce_from (record b { size = (b.size + (header + c.size)) % u32 }) bs)
  | inr not' ↦ rw (not', coalesce_from)
]

coalesce_from-Coalesced : (b : Block) (bs : List Block) → Coalesced (coalesce_from b bs)
unfolding coalesce_from
coalesce_from-Coalesced b [] = (ground arith, tt)
coalesce_from-Coalesced b (c ∷ bs) = elim (Bool-cases (b.free && c.free)) [
  | inl both ↦
      rw (both, coalesce_from)
        (coalesce_from-Coalesced (record b { size = (b.size + (header + c.size)) % u32 }) bs)
  | inr not' ↦
      rw (not', coalesce_from)
        (rw (head_free-coalesce_from c bs) not', coalesce_from-Coalesced c bs)
]

-- After `coalesce` no two free blocks stand side by side.
coalesce-Coalesced : (bs : List Block) → Coalesced (coalesce bs)
unfolding coalesce
coalesce-Coalesced [] = tt
coalesce-Coalesced (b ∷ bs) = coalesce_from-Coalesced b bs

coalesce_from-skip :
    (b : Block) (bs : List Block)
    → (b.free && head_free bs) ≡ false
    → coalesce_from b bs ≡ b ∷ coalesce bs
unfolding coalesce_from coalesce
coalesce_from-skip b [] h = refl
coalesce_from-skip b (c ∷ bs) h = rw (h, coalesce_from)

coalesce-cons : (b : Block) (bs : List Block) → coalesce (b ∷ bs) ≡ coalesce_from b bs
unfolding coalesce
coalesce-cons b bs = refl

coalesce-nil : coalesce [] ≡ []
unfolding coalesce
coalesce-nil = refl

-- On a coalesced heap `coalesce` changes nothing.
coalesce_self : (bs : List Block) → Coalesced bs → coalesce bs ≡ bs
coalesce_self [] h = coalesce-nil
coalesce_self (b ∷ bs) h =
    coalesce-cons b bs ∙ coalesce_from-skip b bs h.0 ∙ ap (◌∷◌ b) (coalesce_self bs h.1)

coalesce_from-join :
    (b c : Block) (bs : List Block)
    → b.free ≡ true
    → c.free ≡ true
    → coalesce_from b (c ∷ bs)
      ≡ coalesce_from (record b { size = (b.size + (header + c.size)) % u32 }) bs
unfolding coalesce_from
coalesce_from-join b c bs hb hc =
    let both : (b.free && c.free) ≡ true = ground arith in rw (both, coalesce_from)

mark_free-here :
    (b : Block) (bs : List Block) (a : ℕ)
    → b.addr ≡ a
    → mark_free a (b ∷ bs) ≡ some (record b { free = true } ∷ bs)
unfolding mark_free
mark_free-here b bs a e = let hit : (b.addr == a) ≡ true = ground arith in rw hit

mark_free-further :
    (b : Block) (bs bs' : List Block) (a : ℕ)
    → b.addr ≢ a
    → mark_free a bs ≡ some bs'
    → mark_free a (b ∷ bs) ≡ some (b ∷ bs')
unfolding mark_free
mark_free-further b bs bs' a ne e = let miss : (b.addr == a) ≡ false = ground arith in rw (miss, e)

-- Freeing what an allocation returned leads back to `bs`.
abbrev Restores : ℕ → List Block → Option ℕ × List Block → Type 0
Restores lo bs (none, bs') = Unit
Restores lo bs (some p, bs') =
    (marked : List Block) × (mark_free (p - header) bs' ≡ some marked)
    × (coalesce marked ≡ bs)
    × (head_free marked ≡ head_free bs)
    × (lo + header ≤ p)

Block-eq : (b : Block) (n : ℕ) → b.free ≡ true → n ≡ b.size → record b { size = n; free = true } ≡ b
Block-eq b n f e = ground arith

Restores-here :
    (lo hi size : ℕ) (b : Block) (bs : List Block)
    → hi ≤ stack_limit
    → b.free ≡ true
    → size ≤ b.size
    → Tiles lo hi (b ∷ bs)
    → Coalesced (b ∷ bs)
    → Restores lo (b ∷ bs) (some (b.addr + header), mark_used (split_block b size bs))
unfolding split_block mark_used
Restores-here lo hi size b bs small free le t co =
    let top : lo + header + b.size ≤ hi = lo-le-hi (lo + header + b.size) hi bs t.1 in
    let same : coalesce (b ∷ bs) ≡ b ∷ bs = coalesce_self (b ∷ bs) co in
    elim (Bool-cases (leb ((size + header + 4) % u32) b.size)) [
      | inl split ↦ rw split (
        _,
        mark_free-here _ _ (b.addr + header - header) (omega arith),
        coalesce-cons _ _
            ∙ coalesce_from-join _ _ bs refl refl
            ∙ ap (λ c. coalesce_from c bs) (Block-eq b _ free (ground arith))
            ∙ sym (coalesce-cons b bs)
            ∙ same,
        sym free,
        omega arith,
      )
      | inr whole ↦ rw whole (
        _,
        mark_free-here _ bs (b.addr + header - header) (omega arith),
        ap (λ c. coalesce (c ∷ bs)) (Block-eq b b.size free refl) ∙ same,
        sym free,
        omega arith,
      )
    ]

Restores-skip :
    (lo : ℕ) (b : Block) (bs : List Block) (r : Option ℕ × List Block)
    → b.addr ≡ lo
    → Coalesced (b ∷ bs)
    → Restores (lo + header + b.size) bs r
    → Restores lo (b ∷ bs) (r.0, b ∷ r.1)
Restores-skip lo b bs (none, bs') at co h = tt
Restores-skip lo b bs (some p, bs') at co (marked, m, c, f, le) = (
  b ∷ marked,
  mark_free-further b bs' marked (p - header) (omega arith) m,
  coalesce-cons b marked ∙ coalesce_from-skip b marked (rw f co.0) ∙ ap (◌∷◌ b) c,
  refl,
  omega arith,
)

alloc_from-Restores :
    (lo hi size : ℕ) (bs : List Block)
    → hi ≤ stack_limit
    → Tiles lo hi bs
    → Coalesced bs
    → Restores lo bs (alloc_from size bs)
unfolding alloc_from
alloc_from-Restores lo hi size [] small t co = tt
alloc_from-Restores lo hi size (b ∷ bs) small t co = elim (Bool-cases (b.free && leb size b.size)) [
  | inl fits ↦ rw fits (Restores-here lo hi size b bs small (ground arith) (ground arith) t co)
  | inr not' ↦ rw not' (
      Restores-skip lo b bs (alloc_from size bs) t.0 co
        (alloc_from-Restores (lo + header + b.size) hi size bs small t.1 co.1))
]

kfree_of_marked :
    (ptr : ℕ) (bs marked : List Block)
    → mark_free (ptr - header) bs ≡ some marked
    → kfree ptr bs ≡ some (coalesce marked)
unfolding kfree
kfree_of_marked ptr bs marked e = rw (e, kfree)

kfree_of_missing :
    (ptr : ℕ) (bs : List Block) → mark_free (ptr - header) bs ≡ none → kfree ptr bs ≡ none
unfolding kfree
kfree_of_missing ptr bs e = rw (e, kfree)

-- kfree of the memory that kmalloc has just handed out gives back the heap of before, if that is
-- tiled, ends at most at 0x90000, and no two free blocks of it stood side by side.
pub kfree-kmalloc :
    (lo hi n p : ℕ) (bs bs' : List Block)
    → hi ≤ stack_limit
    → Tiles lo hi bs
    → Coalesced bs
    → kmalloc n bs ≡ (some p, bs')
    → kfree p bs' ≡ some bs
kfree-kmalloc lo hi n p bs bs' small t co e = elim (ℕ_discrete n 0) [
  | yes z ↦ ground (arith, kmalloc-zero bs)
  | no nz ↦
      let r : alloc_from (align4 n) bs ≡ (some p, bs') = sym (kmalloc-of_pos n bs nz) ∙ e in
      let s : Restores lo bs (some p, bs') =
        rw r at (alloc_from-Restores lo hi (align4 n) bs small t co) in
      kfree_of_marked p bs' s.0 s.1 ∙ ap some s.2
]

-- After kfree no two free blocks stand side by side.
pub kfree-Coalesced : (ptr : ℕ) (bs bs' : List Block) → kfree ptr bs ≡ some bs' → Coalesced bs'
kfree-Coalesced ptr bs bs' e = elim (Option-cases (mark_free (ptr - header) bs)) [
  | inl missing ↦ cc (kfree_of_missing ptr bs missing)
  | inr (marked, found) ↦
      let q : coalesce marked ≡ bs' = cc (kfree_of_marked ptr bs marked found) in
      subst Coalesced q (coalesce-Coalesced marked)
]
