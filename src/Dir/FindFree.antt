-- ===== src/Dir/FindFree.antt =====
-- `dir_find_free` of kernel/fs.c over the entries of a directory.
use rink_os.Prelude.{
  ℕ, zero, suc, ◌+◌, ◌≤◌, ◌<◌, ◌≡◌, refl, ap, Bool, true, false, Bool-cases, inl, inr, List, [],
  ◌∷◌, none, some, arith, length, ◌==◌, if◌then◌else◌,
}
use native.Mathlib.Decide.{ℕ_discrete}
use rink_os.Dirent.{Dirent, is_unused}
use rink_os.Volume.{Volume, RootDir}
use rink_os.Dir.{
  DirRef, DirIter, Slot, unused, full, dir_iter_start, dir_iter_next, max_steps, names_eq,
  free_loop, place, dir_find_free,
}
use rink_os.Dir.Items.{
  Items, Iterates, DirChain, dir_items, dir_iter-Iterates, length-dir_items, root_items, root_loc,
}
use rink_os.Dir.Scan.{find_entry}
use rink_os.Dir.Update.{put_root}

-- The first unused entry, or the cluster of the last entry; `last` where there is none.
unfoldable pub first_unused : Bool → ℕ → Items → Slot
first_unused is_root last [] = full last
first_unused is_root last ((e, loc) ∷ xs) =
    if is_unused e
    then unused loc
    else first_unused is_root (if is_root then last else loc.entry_cluster) xs

free_loop-first_unused :
    (k : ℕ) (v : Volume) (it : DirIter) (last : ℕ) (xs : Items)
    → length xs < k
    → Iterates v it xs
    → free_loop k v it last ≡ some (first_unused it.dir.is_root last xs)
unfolding free_loop first_unused
free_loop-first_unused zero v it last xs lt h = absurd (omega arith)
free_loop-first_unused (suc k) v it last [] lt h = rw (h, free_loop)
free_loop-first_unused (suc k) v it last ((e, loc) ∷ xs) lt h =
    let last' = if it.dir.is_root then last else loc.entry_cluster in
    let ih = free_loop-first_unused k v (dir_iter_next v it).1 last' xs (omega arith) h.2 in
    elim (Bool-cases (is_unused e)) [
      | inl free ↦ rw (h.0, free_loop, free) refl
      | inr used ↦ rw (h.0, free_loop, used) (rw h.1 at ih)
    ]

-- `dir_find_free` returns the first unused entry and leaves the volume alone; without one it goes on
-- as `grow` does from the last cluster.
pub dir_find_free-first_unused :
    (v : Volume) (dir : DirRef) (cs : List ℕ)
    → DirChain v dir cs
    → dir_find_free dir v
      ≡ place dir
          (first_unused dir.is_root (if dir.is_root then 0 else dir.cluster) (dir_items v dir cs))
          v
unfolding dir_find_free dir_iter_start
dir_find_free-first_unused v dir cs h =
    let last = if dir.is_root then 0 else dir.cluster in
    let found =
      free_loop-first_unused max_steps v (dir_iter_start dir) last (dir_items v dir cs)
        (length-dir_items v dir cs h) (dir_iter-Iterates v dir cs h) in
    rw found refl

-- A slot found in `k` entries of the root from `j` on is an unused entry there, and without one
-- every entry there is in use.
abbrev pub IsFree : DirRef → RootDir → ℕ → ℕ → Slot → Type 0
IsFree dir r k j (full last) = (i : ℕ) → j ≤ i → i < j + k → is_unused (r i) ≡ false
IsFree dir r k j (unused loc) =
    (loc ≡ root_loc dir loc.root_index)
    × (j ≤ loc.root_index)
    × (loc.root_index < j + k)
    × (is_unused (r loc.root_index) ≡ true)

IsFree-later :
    (dir : DirRef) (r : RootDir) (k j : ℕ) (s : Slot)
    → is_unused (r j) ≡ false
    → IsFree dir r k (j + 1) s
    → IsFree dir r (suc k) j s
IsFree-later dir r k j (full last) used h =
    λ i lo hi. elim (ℕ_discrete i j) [ yes e ↦ rw e used | no ne ↦ h i (omega arith) (omega arith) ]
IsFree-later dir r k j (unused loc) used h = (h.0, omega arith, omega arith, h.3)

pub first_unused-IsFree :
    (dir : DirRef) (r : RootDir) (k j last : ℕ)
    → IsFree dir r k j (first_unused true last (root_items dir r k j))
unfolding first_unused root_items
first_unused-IsFree dir r zero j last = λ i lo hi. absurd (omega arith)
first_unused-IsFree dir r (suc k) j last = elim (Bool-cases (is_unused (r j))) [
  | inl free ↦ rw free (refl, omega arith, omega arith, free)
  | inr used ↦ rw used (IsFree-later dir r k j _ used (first_unused-IsFree dir r k (j + 1) last))
]

-- A name that no entry had is found where an entry with it has been put.
pub find_entry-put_new :
    (n x : List ℕ) (dir : DirRef) (r : RootDir) (k j i : ℕ) (e : Dirent)
    → find_entry n x (root_items dir r k j) ≡ none
    → j ≤ i
    → i < j + k
    → is_unused e ≡ false
    → names_eq n x e ≡ true
    → find_entry n x (root_items dir (put_root r i e) k j) ≡ some (e, root_loc dir i)
unfolding find_entry root_items
find_entry-put_new n x dir r zero j i e miss lo hi used named = absurd (omega arith)
find_entry-put_new n x dir r (suc k) j i e miss lo hi used named = elim (Bool-cases (j == i)) [
  | inl here ↦
      let q : j ≡ i = ground arith in rw (here, used, named) (ap (λ a. some (e, root_loc dir a)) q)
  | inr before ↦
      let later : find_entry n x (root_items dir r k (j + 1)) ≡ none → _ =
        λ h. find_entry-put_new n x dir r k (j + 1) i e h (ground arith) (omega arith) used named in
      elim (Bool-cases (is_unused (r j))) [
        | inl gone ↦ rw (before, gone) (later (rw gone at miss))
        | inr live ↦ elim (Bool-cases (names_eq n x (r j))) [
          | inr other ↦ rw (before, live, other) (later (rw (live, other) at miss))
          | inl same ↦ cc (rw (live, same) at miss)
        ]
      ]
]
