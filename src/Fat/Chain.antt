-- ===== src/Fat/Chain.antt =====
-- The functions of kernel/fs.c that follow a chain in the allocation table.
use rink_os.Prelude.{
  Bool-cases, inl, inr, ◌==◌, ℕ, zero, suc, ◌≤◌, ◌<◌, ◌≡◌, true, false, some, List, [], ◌∷◌, refl,
  arith, length, get_or, if◌then◌else◌,
}
use rink_os.Disk.{Disk}
use rink_os.Fat.{
  first_data_cluster, end_cluster, cluster_free, fat_read, fat_write, in_chain, free_from,
  max_links, fat_free_chain, cluster_at_index,
}
use rink_os.Fat.Entry.{fat_read-fat_write, table_entries}
use rink_os.Fat.Room.{has, Distinct, AllBelow, length-le_of_Distinct}

abbrev pub IsData : ℕ → Type 0
IsData c = (first_data_cluster ≤ c) × (c < end_cluster)

-- From `c` the links lead through the distinct data clusters `xs` to a value that ends a chain.
abbrev pub Chain : Disk → ℕ → List ℕ → Type 0
Chain d c [] = in_chain c ≡ false
Chain d c (x ∷ xs) = (c ≡ x) × IsData x × (has x xs ≡ false) × Chain d (fat_read d x) xs

unfoldable pub free_all : List ℕ → Disk → Disk
free_all [] d = d
free_all (x ∷ xs) d = free_all xs (fat_write d x cluster_free)

pub Chain-Distinct : (d : Disk) (c : ℕ) (xs : List ℕ) → Chain d c xs → Distinct xs
Chain-Distinct d c [] h = tt
Chain-Distinct d c (x ∷ xs) h = (h.2, Chain-Distinct d (fat_read d x) xs h.3)

pub Chain-AllBelow : (d : Disk) (c : ℕ) (xs : List ℕ) → Chain d c xs → AllBelow end_cluster xs
Chain-AllBelow d c [] h = tt
Chain-AllBelow d c (x ∷ xs) h = (h.1.1, Chain-AllBelow d (fat_read d x) xs h.3)

-- A chain survives any change of the table that spares its own clusters.
pub Chain-frame :
    (d e : Disk) (c : ℕ) (xs : List ℕ)
    → ((a : ℕ) → a < end_cluster → has a xs ≡ true → fat_read e a ≡ fat_read d a)
    → Chain d c xs
    → Chain e c xs
Chain-frame d e c [] same h = h
Chain-frame d e c (x ∷ xs) same h = (
  h.0,
  h.1,
  h.2,
  rw (same x h.1.1 (ground arith))
      (Chain-frame d e (fat_read d x) xs (λ a lt i. same a lt (ground arith)) h.3),
)

pub length-Chain : (d : Disk) (c : ℕ) (xs : List ℕ) → Chain d c xs → length xs ≤ end_cluster
length-Chain d c xs h =
    length-le_of_Distinct end_cluster xs (Chain-Distinct d c xs h) (Chain-AllBelow d c xs h)

free_from-Chain :
    (k : ℕ) (d : Disk) (c : ℕ) (xs : List ℕ)
    → length xs < k
    → Chain d c xs
    → free_from k c d ≡ some (free_all xs d)
unfolding free_from free_all
free_from-Chain zero d c xs lt h = absurd (omega arith)
free_from-Chain (suc k) d c [] lt h = ground arith
free_from-Chain (suc k) d c (x ∷ xs) lt h =
    let rest =
      Chain-frame d (fat_write d x cluster_free) (fat_read d x) xs
        (λ a lt i. ground (arith, fat_read-fat_write d a x cluster_free)) h.3 in
    rw h.0 (
      ground (
        arith,
        free_from-Chain k (fat_write d x cluster_free) (fat_read d x) xs (omega arith) rest,
      ))

pub fat_read-free_all :
    (xs : List ℕ) (d : Disk) (a : ℕ)
    → a < table_entries
    → fat_read (free_all xs d) a ≡ (if has a xs then cluster_free else fat_read d a)
unfolding free_all
fat_read-free_all [] d a h = refl
fat_read-free_all (x ∷ xs) d a h = ground (
  arith,
  fat_read-free_all xs (fat_write d x cluster_free) a h,
  fat_read-fat_write d a x cluster_free h,
)

pub fat_free_chain-Chain :
    (d : Disk) (c : ℕ) (xs : List ℕ) → Chain d c xs → fat_free_chain c d ≡ some (free_all xs d)
unfolding fat_free_chain max_links
fat_free_chain-Chain d c xs h =
    free_from-Chain 65536 d c xs (omega (arith, length-Chain d c xs h)) h

-- On a chain of distinct data clusters that ends, fat_free_chain returns, the clusters of the
-- chain are free afterwards, and every other entry of the table is as it was.
pub fat_free_chain-frees :
    (d : Disk) (c : ℕ) (xs : List ℕ)
    → Chain d c xs
    → (d' : Disk) × (fat_free_chain c d ≡ some d')
      × ((a : ℕ)
          → a < table_entries
          → fat_read d' a ≡ (if has a xs then cluster_free else fat_read d a))
fat_free_chain-frees d c xs h =
    (free_all xs d, fat_free_chain-Chain d c xs h, λ a lt. fat_read-free_all xs d a lt)

-- On a chain of distinct data clusters that ends, cluster_at_index at an index that the chain has
-- is the cluster at that place of the chain.
pub cluster_at_index-Chain :
    (d : Disk) (c i : ℕ) (xs : List ℕ)
    → i < length xs
    → Chain d c xs
    → cluster_at_index d c i ≡ get_or xs i 0
unfolding cluster_at_index
cluster_at_index-Chain d c i [] lt h = absurd (omega arith)
cluster_at_index-Chain d c zero (x ∷ xs) lt h = h.0
cluster_at_index-Chain d c (suc i) (x ∷ xs) lt h =
    ground (arith, cluster_at_index-Chain d (fat_read d x) i xs)

pub Chain-IsData :
    (d : Disk) (c : ℕ) (xs : List ℕ) (a : ℕ) → Chain d c xs → has a xs ≡ true → IsData a
Chain-IsData d c [] a h i = cc
Chain-IsData d c (x ∷ xs) a h i = elim (Bool-cases (a == x)) [
  | inl here ↦ ground arith
  | inr other ↦ Chain-IsData d (fat_read d x) xs a h.3 (ground arith)
]
