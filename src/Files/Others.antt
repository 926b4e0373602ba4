-- ===== src/Files/Others.antt =====
-- Chains that `fs_write` of kernel/fs.c does not use.
use rink_os.Prelude.{
  ℕ, zero, suc, ◌+◌, ◌-◌, ◌≡◌, ◌≢◌, ◌∙◌, sym, refl, true, false, Bool-cases, inl, inr, List, [],
  ◌∷◌, arith, min,
}
use rink_os.Disk.{Disk}
use rink_os.Fat.{
  bytes_per_sector, end_cluster, cluster_free, in_chain, cluster_to_lba, fat_read, fat_write,
}
use rink_os.Fat.Entry.{IsOutside, fat_write-outside}
use rink_os.Fat.Room.{has, AllBelow}
use rink_os.Fat.Chain.{IsData, Chain, free_all, fat_read-free_all, Chain-IsData, Chain-AllBelow}
use rink_os.Files.Blocks.{read_loop}
use rink_os.Files.Blocks.Write.{Written}

-- The clusters have in `e` the links and the blocks that they have in `d`.
pub record Spares (d e : Disk) (xs : List ℕ) : Type 0 where
  pub links : (a : ℕ) → has a xs ≡ true → IsData a → fat_read e a ≡ fat_read d a
  pub blocks : (a : ℕ) → has a xs ≡ true → IsData a → e (cluster_to_lba a) ≡ d (cluster_to_lba a)

pub Spares-trans : (d e f : Disk) (xs : List ℕ) → Spares d e xs → Spares e f xs → Spares d f xs
Spares-trans d e f xs s t = record {
  links = λ a i h. t.links a i h ∙ s.links a i h;
  blocks = λ a i h. t.blocks a i h ∙ s.blocks a i h;
}

Spares-tail : (d e : Disk) (x : ℕ) (xs : List ℕ) → Spares d e (x ∷ xs) → Spares d e xs
Spares-tail d e x xs s = record {
  links = λ a i. s.links a (ground arith);
  blocks = λ a i. s.blocks a (ground arith);
}

-- A file reads the same where its clusters are spared.
pub read_loop-Spares :
    (k c size w : ℕ) (d e : Disk) (xs : List ℕ)
    → Chain d c xs
    → Spares d e xs
    → read_loop k c size w e ≡ read_loop k c size w d
unfolding read_loop
read_loop-Spares zero c size w d e xs ch s = refl
read_loop-Spares (suc k) c size w d e [] ch s = rw ch refl
read_loop-Spares (suc k) c size w d e (x ∷ xs) ch s =
    let live : in_chain x ≡ true = ground arith in
    let next = s.links x (ground arith) ch.1 in
    let here = s.blocks x (ground arith) ch.1 in
    let rest =
      read_loop-Spares k (fat_read d x) size (w + min (size - w) bytes_per_sector) d e xs ch.3
        (Spares-tail d e x xs s) in
    rw (ch.0, live, next, here, rest) refl

free_all-outside :
    (cs : List ℕ) (d : Disk) (l : ℕ) → AllBelow end_cluster cs → IsOutside l → free_all cs d l ≡ d l
unfolding free_all
free_all-outside [] d l h out = refl
free_all-outside (x ∷ cs) d l h out =
    free_all-outside cs (fat_write d x cluster_free) l h.1 out
    ∙ fat_write-outside d x cluster_free l (omega (arith, h.0)) out

data-IsOutside : (a : ℕ) → IsData a → IsOutside (cluster_to_lba a)
unfolding cluster_to_lba
data-IsOutside a h = inr (omega arith)

-- No cluster of `ys` is in `xs`.
abbrev pub Apart : List ℕ → List ℕ → Type 0
Apart xs ys = (a : ℕ) → has a ys ≡ true → has a xs ≡ false

-- Freeing a chain spares the chains apart from it.
pub free_all-Spares :
    (d : Disk) (c : ℕ) (cs xs : List ℕ) → Chain d c cs → Apart cs xs → Spares d (free_all cs d) xs
free_all-Spares d c cs xs ch apart = record {
  links = λ a i h. let gone = apart a i in ground (arith, fat_read-free_all cs d a (omega arith));
  blocks = λ a i h.
      free_all-outside cs d (cluster_to_lba a) (Chain-AllBelow d c cs ch) (data-IsOutside a h);
}

-- Every cluster of a chain in use has a link, since the last one has the end mark.
abbrev pub IsLinked : Disk → List ℕ → Type 0
IsLinked d xs = (a : ℕ) → has a xs ≡ true → fat_read d a ≢ cluster_free

module _ (n : ℕ) (bytes : List ℕ) (d : Disk) (f : ℕ) (d' : Disk) (ws xs : List ℕ)
    (w : Written n 0 0 0 bytes d f d' ws) (linked : IsLinked d xs) where
  pub Written-Apart : Apart ws xs
  Written-Apart a i = elim (Bool-cases (has a ws)) [
    | inl there ↦ absurd (linked a i (w.fresh a there))
    | inr gone ↦ gone
  ]

  -- Writing new clusters spares the chains in use.
  pub Written-Spares : Spares d d' xs
  Written-Spares = record {
    links = λ a i h. w.table a h.1 (Written-Apart a i) (omega arith);
    blocks = λ a i h. w.sectors a h (Written-Apart a i);
  }

pub IsLinked-Spares :
    (d e : Disk) (c : ℕ) (xs : List ℕ)
    → Chain d c xs
    → Spares d e xs
    → IsLinked d xs
    → IsLinked e xs
IsLinked-Spares d e c xs ch s linked a i =
    let same = s.links a i (Chain-IsData d c xs a ch i) in
    let old = linked a i in λ z. old (sym same ∙ z)
