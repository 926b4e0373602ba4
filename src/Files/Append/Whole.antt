-- ===== src/Files/Append/Whole.antt =====
-- The chain and the blocks that `fs_append` of kernel/fs.c leaves.
use rink_os.Prelude.{
  ℕ, ◌+◌, ◌≡◌, ◌≢◌, ◌∙◌, refl, sym, true, false, Bool-cases, inl, inr, List, [], ◌∷◌, ◌++◌, arith,
  length, ◌==◌,
}
use rink_os.Disk.{Disk}
use rink_os.Fat.{cluster_eoc, cluster_to_lba, fat_read}
use rink_os.Fat.Room.{has, Distinct}
use rink_os.Fat.Chain.{IsData, Chain, Chain-IsData}
use rink_os.Dirent.{Dirent}
use rink_os.Files.Blocks.Step.{cluster_to_lba-ne}
use rink_os.Files.Blocks.Write.{Contents, Written}
use rink_os.Files.Others.{Apart, IsLinked}
use rink_os.Files.Append.Grow.{last_of, has-last_of, Chain-append}
use rink_os.Files.Append.Blocks.{Contents-right, Contents-append, Contents-grown}
use rink_os.Files.Append.Fill.{Filled, Holds}

pub Chain-Distinct : (d : Disk) (c : ℕ) (cs : List ℕ) → Chain d c cs → Distinct cs
Chain-Distinct d c [] ch = tt
Chain-Distinct d c (x ∷ cs) ch = (ch.2, Chain-Distinct d (fat_read d x) cs ch.3)

-- A chain that ends with the mark of an end has no free cluster.
pub Chain-IsLinked :
    (d : Disk) (c x : ℕ) (xs : List ℕ)
    → Chain d c (x ∷ xs)
    → fat_read d (last_of (x ∷ xs)) ≡ cluster_eoc
    → IsLinked d (x ∷ xs)
Chain-IsLinked d c x [] ch end a i = let q : a ≡ x = ground arith in rw q (omega (arith, end))
Chain-IsLinked d c x (y ∷ xs) ch end a i = elim (Bool-cases (a == x)) [
  | inl here ↦ let q : a ≡ x = ground arith in rw q (omega (arith, ch.3.0, ch.3.1.0))
  | inr other ↦ Chain-IsLinked d (fat_read d x) y xs ch.3 end a (ground arith)
]

module _ (d d₁ d₂ : Disk) (e : Dirent) (old new : List ℕ) (x : ℕ) (xs ws : List ℕ) (fill n f : ℕ)
    (h : Holds d e old x xs) (end : fat_read d (last_of (x ∷ xs)) ≡ cluster_eoc)
    (filled : Filled d d₁ old new x xs fill)
    (w : Written n e.first_cluster (last_of (x ∷ xs)) fill new d₁ f d₂ ws) where
  old-IsData : (a : ℕ) → has a (x ∷ xs) ≡ true → IsData a
  old-IsData a i = Chain-IsData d e.first_cluster (x ∷ xs) a h.chain i

  old-Apart : Apart ws (x ∷ xs)
  old-Apart a i = elim (Bool-cases (has a ws)) [
    | inr gone ↦ gone
    | inl here ↦
        let linked = Chain-IsLinked d e.first_cluster x xs h.chain end a i in
        absurd (linked (sym (filled.table a (ground (arith, old-IsData a i))) ∙ w.fresh a here))
  ]

  some_first : (e.first_cluster == 0) ≡ false
  some_first = ground (arith, h.chain.0, h.chain.1)

  pub whole-Chain : Chain d₂ e.first_cluster (x ∷ xs ++ ws)
  whole-Chain =
      Chain-append d d₂ e.first_cluster (x ∷ xs) ws (λ q. absurd (omega arith)) h.chain
        (λ a i ne.
          let da = old-IsData a i in
          w.table a (ground (arith, da)) (old-Apart a i) ne ∙ filled.table a (ground (arith, da)))
        (rw some_first at w.chain) old-Apart

  keeps :
      (a : ℕ)
      → has a (x ∷ xs) ≡ true
      → a ≢ last_of (x ∷ xs)
      → d₂ (cluster_to_lba a) ≡ d (cluster_to_lba a)
  keeps a i ne =
      w.sectors a (old-IsData a i) (old-Apart a i)
      ∙ filled.rest (cluster_to_lba a) (
          cluster_to_lba-ne a (last_of (x ∷ xs)) (old-IsData a i) (old-IsData _ (has-last_of x xs))
            ne)

  pub whole-Contents : Contents d₂ (old ++ new) 0 (x ∷ xs ++ ws)
  whole-Contents =
      let last_in = has-last_of x xs in
      let last = w.sectors (last_of (x ∷ xs)) (old-IsData _ last_in) (old-Apart _ last_in) in
      Contents-append d₂ (old ++ new) 0 (length old + fill) (x ∷ xs) ws (omega arith)
        (omega (arith, filled.upto))
        (Contents-grown d d₂ old new 0 (length xs) x xs refl
          (Chain-Distinct d e.first_cluster (x ∷ xs) h.chain) (omega (arith, h.needed)) keeps
          (last ∙ filled.end_block) h.contents)
        (Contents-right d₂ old new fill ws w.contents)
