-- ===== src/Dir/Update.antt =====
-- An entry that `dir_scan` has found in the root, changed in place by `dir_write_entry`.
use rink_os.Prelude.{
  ℕ, zero, suc, ◌+◌, ◌≤◌, ◌<◌, ◌≡◌, ◌∙◌, sym, refl, ap, true, false, Bool-cases, inl, inr, List,
  none, some, arith, ◌==◌, if◌then◌else◌,
}
use rink_os.Dirent.{Dirent, is_unused}
use rink_os.Volume.{RootDir}
use rink_os.Dir.{DirRef, EntryLoc, Item, names_eq}
use rink_os.Dir.Items.{root_items, root_loc}
use rink_os.Dir.Scan.{find_entry}

abbrev pub put_root : RootDir → ℕ → Dirent → RootDir
put_root r i e j = if j == i then e else r j

root_items-put_after :
    (dir : DirRef) (r : RootDir) (k j i : ℕ) (e : Dirent)
    → i < j
    → root_items dir (put_root r i e) k j ≡ root_items dir r k j
unfolding root_items
root_items-put_after dir r zero j i e lt = refl
root_items-put_after dir r (suc k) j i e lt =
    let ne : (j == i) ≡ false = ground arith in
    rw (ne, root_items-put_after dir r k (j + 1) i e (omega arith)) refl

-- The entry `i` of the root is what a scan of the root has found.
pub record FoundAt (n x : List ℕ) (dir : DirRef) (r : RootDir) (k j : ℕ) (e : Dirent)
    (loc : EntryLoc) : Type 0 where
  pub place : loc ≡ root_loc dir loc.root_index
  pub entry : e ≡ r loc.root_index
  pub lo : j ≤ loc.root_index
  pub hi : loc.root_index < j + k
  pub used : is_unused e ≡ false
  pub named : names_eq n x e ≡ true

FoundAt-later :
    (n x : List ℕ) (dir : DirRef) (r : RootDir) (k j : ℕ) (e : Dirent) (loc : EntryLoc)
    → FoundAt n x dir r k (j + 1) e loc
    → FoundAt n x dir r (suc k) j e loc
FoundAt-later n x dir r k j e loc h = record {
  place = h.place;
  entry = h.entry;
  lo = omega (arith, h.lo);
  hi = omega (arith, h.hi);
  used = h.used;
  named = h.named;
}

abbrev FoundIf : List ℕ → List ℕ → DirRef → RootDir → ℕ → ℕ → Item → Type 0
FoundIf n x dir r k j none = Unit
FoundIf n x dir r k j (some (e, loc)) = FoundAt n x dir r k j e loc

FoundIf-later :
    (n x : List ℕ) (dir : DirRef) (r : RootDir) (k j : ℕ) (found : Item)
    → FoundIf n x dir r k (j + 1) found
    → FoundIf n x dir r (suc k) j found
FoundIf-later n x dir r k j none h = tt
FoundIf-later n x dir r k j (some (e, loc)) h = FoundAt-later n x dir r k j e loc h

find_entry-FoundIf :
    (n x : List ℕ) (dir : DirRef) (r : RootDir) (k j : ℕ)
    → FoundIf n x dir r k j (find_entry n x (root_items dir r k j))
unfolding find_entry root_items
find_entry-FoundIf n x dir r zero j = tt
find_entry-FoundIf n x dir r (suc k) j =
    let later = FoundIf-later n x dir r k j _ (find_entry-FoundIf n x dir r k (j + 1)) in
    elim (Bool-cases (is_unused (r j))) [
      | inl free ↦ rw free later
      | inr used ↦ elim (Bool-cases (names_eq n x (r j))) [
        | inr other ↦ rw (used, other) later
        | inl named ↦
            rw (used, named)
              (record {
                place = refl;
                entry = refl;
                lo = omega arith;
                hi = omega arith;
                used = used;
                named = named;
              })
      ]
    ]

pub find_entry-FoundAt :
    (n x : List ℕ) (dir : DirRef) (r : RootDir) (k j : ℕ) (e : Dirent) (loc : EntryLoc)
    → find_entry n x (root_items dir r k j) ≡ some (e, loc)
    → FoundAt n x dir r k j e loc
find_entry-FoundAt n x dir r k j e loc h = rw h at (find_entry-FoundIf n x dir r k j)

abbrev index_of : Item → ℕ
index_of none = 0
index_of (some (e, loc)) = loc.root_index

-- The entry that a scan has found, replaced by one with its name, is what a scan then finds.
pub find_entry-put_root :
    (n x : List ℕ) (dir : DirRef) (r : RootDir) (k j : ℕ) (e e' : Dirent) (loc : EntryLoc)
    → find_entry n x (root_items dir r k j) ≡ some (e, loc)
    → is_unused e' ≡ false
    → names_eq n x e' ≡ true
    → find_entry n x (root_items dir (put_root r loc.root_index e') k j) ≡ some (e', loc)
unfolding find_entry root_items
find_entry-put_root n x dir r zero j e e' loc h used named = absurd (
    omega (
      arith,
      (find_entry-FoundAt n x dir r 0 j e loc h).lo,
      (find_entry-FoundAt n x dir r 0 j e loc h).hi,
    ))
find_entry-put_root n x dir r (suc k) j e e' loc h used named =
    let f = find_entry-FoundAt n x dir r (suc k) j e loc h in
    elim (Bool-cases (j == loc.root_index)) [
      | inl here ↦
          let q : j ≡ loc.root_index = ground arith in
          rw (here, used, named) (ap (λ l. some (e', l)) (ap (root_loc dir) q ∙ sym f.place))
      | inr before ↦
          let later : find_entry n x (root_items dir r k (j + 1)) ≡ some (e, loc) → _ =
            λ h'. find_entry-put_root n x dir r k (j + 1) e e' loc h' used named in
          elim (Bool-cases (is_unused (r j))) [
            | inl free ↦ rw (before, free) (later (rw free at h))
            | inr live ↦ elim (Bool-cases (names_eq n x (r j))) [
              | inr other ↦ rw (before, live, other) (later (rw (live, other) at h))
              | inl same ↦
                  let q : j ≡ loc.root_index = ap index_of (rw (live, same) at h) in
                  absurd (ground arith)
            ]
          ]
    ]
