-- ===== src/Dir/Scan.antt =====
-- `dir_scan` of kernel/fs.c over the entries of a directory.
use rink_os.Prelude.{
  ℕ, zero, suc, ◌<◌, ◌≡◌, List, [], ◌∷◌, none, some, arith, length, if◌then◌else◌,
}
use rink_os.Dirent.{is_unused}
use rink_os.Volume.{Volume, ok}
use rink_os.Dir.{
  DirRef, DirIter, Item, dir_iter_start, dir_iter_next, names_eq, max_steps, scan_loop, dir_scan,
}
use rink_os.Dir.Items.{Items, Iterates, DirChain, dir_items, dir_iter-Iterates, length-dir_items}

-- The first entry in use with the name.
unfoldable pub find_entry : List ℕ → List ℕ → Items → Item
find_entry n e [] = none
find_entry n e (x ∷ xs) =
    if is_unused x.0
    then find_entry n e xs
    else if names_eq n e x.0
    then some x
    else find_entry n e xs

scan_loop-find_entry :
    (k : ℕ) (v : Volume) (n e : List ℕ) (it : DirIter) (xs : Items)
    → length xs < k
    → Iterates v it xs
    → scan_loop k v n e it ≡ some (find_entry n e xs)
unfolding scan_loop find_entry
scan_loop-find_entry zero v n e it xs lt h = absurd (omega arith)
scan_loop-find_entry (suc k) v n e it [] lt h = rw (h, scan_loop)
scan_loop-find_entry (suc k) v n e it (x ∷ xs) lt h =
    let ih = scan_loop-find_entry k v n e (dir_iter_next v it).1 xs (omega arith) h.2 in
    rw (h.0, scan_loop, ih) (ground arith)

-- In the root, or in a subdirectory whose chain ends, dir_scan returns, leaves the volume alone,
-- and finds the first entry in use with the name.
pub dir_scan-find_entry :
    (v : Volume) (dir : DirRef) (cs : List ℕ) (n e : List ℕ)
    → DirChain v dir cs
    → dir_scan dir n e v ≡ ok (find_entry n e (dir_items v dir cs)) v
unfolding dir_scan
dir_scan-find_entry v dir cs n e h =
    let found =
      scan_loop-find_entry max_steps v n e (dir_iter_start dir) (dir_items v dir cs)
        (length-dir_items v dir cs h) (dir_iter-Iterates v dir cs h) in
    rw (found, dir_scan)
