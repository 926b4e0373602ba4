-- ===== src/Dir/SameNames.antt =====
-- `dir_scan` of kernel/fs.c in a root of which the names stay.
use rink_os.Prelude.{
  ℕ, zero, suc, ◌+◌, ◌≡◌, ◌≢◌, ◌∙◌, sym, refl, ap, false, Bool-cases, inl, inr, List, none, some,
  arith, ◌==◌,
}
use rink_os.Dirent.{Dirent, is_unused}
use rink_os.Volume.{RootDir}
use rink_os.Dir.{DirRef, EntryLoc, Item, names_eq}
use rink_os.Dir.Items.{root_items}
use rink_os.Dir.Scan.{find_entry}
use rink_os.Dir.Update.{put_root, find_entry-FoundAt}

abbrev pub KeepsNames : RootDir → RootDir → Type 0
KeepsNames r r' = (i : ℕ) → ((r' i).name ≡ (r i).name) × ((r' i).ext ≡ (r i).ext)

-- The entry found, as it stands in another root.
abbrev onto : RootDir → Item → Item
onto r none = none
onto r (some (e, loc)) = some (r loc.root_index, loc)

find_entry-onto :
    (n x : List ℕ) (dir : DirRef) (r r' : RootDir) (k j : ℕ)
    → KeepsNames r r'
    → find_entry n x (root_items dir r' k j) ≡ onto r' (find_entry n x (root_items dir r k j))
unfolding find_entry root_items
find_entry-onto n x dir r r' zero j same = refl
find_entry-onto n x dir r r' (suc k) j same =
    let ih = find_entry-onto n x dir r r' k (j + 1) same in
    let u : is_unused (r' j) ≡ is_unused (r j) = rw (same j).0 refl in
    let m : names_eq n x (r' j) ≡ names_eq n x (r j) = rw ((same j).0, (same j).1) refl in
    elim (Bool-cases (is_unused (r j))) [
      | inl free ↦ rw (u, free) ih
      | inr used ↦ elim (Bool-cases (names_eq n x (r j))) [
        | inl named ↦ rw (u, m, used, named) refl
        | inr other ↦ rw (u, m, used, other) ih
      ]
    ]

pub put_root-KeepsNames :
    (r : RootDir) (i : ℕ) (e : Dirent)
    → e.name ≡ (r i).name
    → e.ext ≡ (r i).ext
    → KeepsNames r (put_root r i e)
put_root-KeepsNames r i e name ext j = elim (Bool-cases (j == i)) [
  | inl here ↦ let q : j ≡ i = ground arith in rw (here, q) (name, ext)
  | inr other ↦ rw other (refl, refl)
]

-- Another entry, found before, is found as it was.
pub find_entry-put_root_other :
    (n x : List ℕ) (dir : DirRef) (r : RootDir) (k j i : ℕ) (e e' : Dirent) (loc : EntryLoc)
    → find_entry n x (root_items dir r k j) ≡ some (e, loc)
    → i ≢ loc.root_index
    → KeepsNames r (put_root r i e')
    → find_entry n x (root_items dir (put_root r i e') k j) ≡ some (e, loc)
find_entry-put_root_other n x dir r k j i e e' loc found ne same =
    let f = find_entry-FoundAt n x dir r k j e loc found in
    let miss : (loc.root_index == i) ≡ false = ground arith in
    find_entry-onto n x dir r (put_root r i e') k j same
    ∙ ap (onto (put_root r i e')) found
    ∙ rw miss (ap (λ a. some (a, loc)) (sym f.entry))
