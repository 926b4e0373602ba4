-- ===== src/Files/Folders/Change.antt =====
-- `fs_chdir` of kernel/fs.c into a directory of the root and back.
use rink_os.Prelude.{
  ℕ, zero, suc, ◌+◌, ◌≤◌, ◌<◌, ◌≡◌, ◌≢◌, ◌∙◌, refl, sym, ap, true, false, Bool-cases, inl, inr,
  List, [], ◌∷◌, none, some, arith, length, get_or, ◌==◌,
}
use rink_os.Fat.Chain.{Chain}
use rink_os.Dirent.{Dirent, is_directory}
use rink_os.Names.{
  component_len, str_copy_n, str_eq_local, split_name, dirent_to_display, dotdot_name, empty_ext,
}
use rink_os.Volume.{Volume, ok}
use rink_os.Dir.{DirRef, EntryLoc, cwd_dir, dir_scan}
use rink_os.Dir.Items.{dir_items}
use rink_os.Dir.Scan.{find_entry, dir_scan-find_entry}
use rink_os.Walk.{
  slash, cwd_path_len, last_slash, component, skip_slashes, walk_up, walk_down, walk_loop,
  walk_path, path_append, path_trim_last,
}
use rink_os.Walk.Display.{NoSlash, take-all, length-path_append, path_trim_last-path_append}
use rink_os.Files.Round.{IsLeaf, leaf_of, root_entry, scan}
use rink_os.Files.Folders.{is_dots, fs_chdir}
use rink_os.Files.Folders.Remove.{folder}

last_slash-some : (path : List ℕ) (i j : ℕ) → last_slash path i (some j) ≢ none
unfolding last_slash
last_slash-some [] i j h = cc h
last_slash-some (c ∷ p) i j h = elim (Bool-cases (c == slash)) [
  | inl here ↦ last_slash-some p (i + 1) i (rw here at h)
  | inr other ↦ last_slash-some p (i + 1) j (rw other at h)
]

-- A path without a slash is one component, and nothing is behind it.
component-all :
    (n : ℕ) (path : List ℕ) (i : ℕ)
    → length path ≤ n
    → last_slash path i none ≡ none
    → component n path ≡ (path, [])
unfolding component last_slash
component-all zero [] i le h = refl
component-all zero (c ∷ p) i le h = absurd (omega arith)
component-all (suc n) [] i le h = refl
component-all (suc n) (c ∷ p) i le h = elim (Bool-cases (c == slash)) [
  | inl here ↦ absurd (last_slash-some p (i + 1) i (rw here at h))
  | inr other ↦ rw (component-all n p (i + 1) (omega arith) (rw other at h), other) refl
]

no_slash_first :
    (path : List ℕ) → last_slash path 0 none ≡ none → (get_or path 0 0 == slash) ≡ false
unfolding last_slash
no_slash_first [] h = refl
no_slash_first (c ∷ p) h = elim (Bool-cases (c == slash)) [
  | inl here ↦ absurd (last_slash-some p 1 0 (rw here at h))
  | inr other ↦ other
]

abbrev pub parent_name : List ℕ
parent_name = b'.' ∷ b'.' ∷ []

-- Where the name is one component, the walk takes one step down.
walk_loop-down :
    (c : ℕ) (p : List ℕ) (dir : DirRef) (b : List ℕ) (v : Volume) (e : Dirent) (l : EntryLoc)
    → length (c ∷ p) < component_len
    → last_slash (c ∷ p) 0 none ≡ none
    → is_dots (c ∷ p) ≡ false
    → dir_scan dir (split_name (c ∷ p)).0 (split_name (c ∷ p)).1 v ≡ ok (some (e, l)) v
    → is_directory e ≡ true
    → walk_loop (length (c ∷ p)) (c ∷ p) dir (some b) cwd_path_len v
      ≡ ok (folder e, some (path_append b cwd_path_len e)) v
unfolding walk_loop walk_down skip_slashes
walk_loop-down c p dir b v e l short no_slash not_dots found directory =
    let some_byte : (length (c ∷ p) == 0) ≡ false = ground arith in
    let all = component-all 12 (c ∷ p) 0 (omega arith) no_slash in
    let no_dot : str_eq_local (c ∷ p) (b'.' ∷ []) ≡ false = ground (arith, not_dots) in
    let no_parent : str_eq_local (c ∷ p) parent_name ≡ false = ground (arith, not_dots) in
    rw (all, some_byte, no_dot, no_parent, found, directory) refl

-- In a directory of the root, the walk of two dots takes one step up, to the root.
walk_loop-up :
    (here : Dirent) (b : List ℕ) (v : Volume) (e : Dirent) (l : EntryLoc)
    → dir_scan (folder here) dotdot_name empty_ext v ≡ ok (some (e, l)) v
    → e.first_cluster ≡ 0
    → walk_loop 2 parent_name (folder here) (some b) cwd_path_len v
      ≡ ok (record { is_root = true; cluster = here.first_cluster }, some (path_trim_last b)) v
unfolding walk_loop walk_up skip_slashes component str_eq_local
walk_loop-up here b v e l found top =
    let in_root : (e.first_cluster == 0) ≡ true = ground arith in rw (found, in_root) refl

module _ (v : Volume) (path : List ℕ) (e : Dirent) (loc : EntryLoc) (leaf : IsLeaf path)
    (root : v.cwd_is_root ≡ true) (found : root_entry v path ≡ some (e, loc))
    (short : length path < component_len) (not_dots : is_dots path ≡ false)
    (directory : is_directory e ≡ true) (top : v.cwd_path ≡ slash ∷ []) where
  -- The volume with the directory as the current one.
  abbrev pub inside : Volume
  inside = record v {
    cwd_is_root = false;
    cwd_cluster = e.first_cluster;
    cwd_path = str_copy_n (path_append (slash ∷ []) cwd_path_len e) cwd_path_len;
  }

  walks-down :
      (p : List ℕ)
      → path ≡ p
      → walk_loop (length p) p (cwd_dir v) (some (slash ∷ [])) cwd_path_len v
        ≡ ok (folder e, some (path_append (slash ∷ []) cwd_path_len e)) v
  walks-down [] q = absurd (leaf.some_byte (ap length q))
  walks-down (c ∷ p) q =
      let all : leaf_of (c ∷ p) ≡ c ∷ p = take-all (c ∷ p) 12 (omega (arith, ap length q)) in
      let here : dir_scan (cwd_dir v) (split_name (leaf_of (c ∷ p))).0
            (split_name (leaf_of (c ∷ p))).1 v
          ≡ ok (some (e, loc)) v =
        rw q at (scan v path e loc leaf root found) in
      walk_loop-down c p (cwd_dir v) (slash ∷ []) v e loc (rw q at short) (rw q at leaf.no_slash)
        (rw q at not_dots) (rw all at here) directory

  goes_in : fs_chdir path v ≡ ok tt inside
  unfolding fs_chdir walk_path
  goes_in =
      let own : str_copy_n v.cwd_path cwd_path_len ≡ slash ∷ [] =
        ap (λ p. str_copy_n p cwd_path_len) top in
      rw (own, no_slash_first path leaf.no_slash, walks-down path refl) refl

  module _ (cs : List ℕ) (e₂ : Dirent) (l₂ : EntryLoc) (chain : Chain v.disk e.first_cluster cs)
      (up : find_entry dotdot_name empty_ext (dir_items v (folder e) cs) ≡ some (e₂, l₂))
      (to_root : e₂.first_cluster ≡ 0) (plain : NoSlash (dirent_to_display e))
      (shown : length (dirent_to_display e) ≢ 0)
      (fits : length (dirent_to_display e) + 2 < cwd_path_len) where
    -- The volume with the root as the current directory again.
    abbrev back : Volume
    back = record v { cwd_cluster = e.first_cluster }

    same_path :
        str_copy_n
          (path_trim_last (
            str_copy_n
              (str_copy_n (path_append (slash ∷ []) cwd_path_len e) cwd_path_len)
              cwd_path_len))
          cwd_path_len
        ≡ slash ∷ []
    same_path =
        let p = path_append (slash ∷ []) cwd_path_len e in
        let lt : length p < cwd_path_len =
          length-path_append (slash ∷ []) cwd_path_len e (omega arith) in
        let whole : str_copy_n p cwd_path_len ≡ p = take-all p 127 (omega arith) in
        let trimmed =
          path_trim_last-path_append (slash ∷ []) cwd_path_len e (inl refl) plain shown
            (omega (arith, fits)) in
        rw (whole, whole, trimmed) refl

    goes_out :
        fs_chdir parent_name inside
        ≡ ok tt (record back { cwd_is_root = true; cwd_path = slash ∷ [] })
    unfolding fs_chdir walk_path cwd_dir
    goes_out =
        let parent : dir_scan (folder e) dotdot_name empty_ext inside ≡ ok (some (e₂, l₂)) inside =
          dir_scan-find_entry inside (folder e) cs dotdot_name empty_ext chain
          ∙ ap (λ x. ok x inside) up in
        rw (walk_loop-up e _ inside e₂ l₂ parent to_root, same_path) refl

    -- For a path of one component that is neither dot nor dotdot, fits a component and names a
    -- directory in the root, the current directory, with the display path of a single slash, where
    -- the directory's clusters are a chain that ends, its entry for the parent leads to the root,
    -- and its displayed name is not empty, has no slash and fits the display path: fs_chdir to the
    -- path makes that directory the current one, and fs_chdir to two dots from there the root
    -- again with its display path; neither changes the disk or the entries of the root.
    pub fs_chdir-root :
        (w : Volume) × (u : Volume) × (fs_chdir path v ≡ ok tt w)
        × (cwd_dir w ≡ folder e)
        × (w.disk ≡ v.disk)
        × (w.root ≡ v.root)
        × (fs_chdir parent_name w ≡ ok tt u)
        × (u.cwd_is_root ≡ true)
        × (u.cwd_path ≡ v.cwd_path)
        × (u.disk ≡ v.disk)
        × (u.root ≡ v.root)
    unfolding cwd_dir
    fs_chdir-root = (
      inside,
      record back { cwd_is_root = true; cwd_path = slash ∷ [] },
      goes_in,
      refl,
      refl,
      refl,
      goes_out,
      refl,
      sym top,
      refl,
      refl,
    )
