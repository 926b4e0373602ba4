-- ===== src/Files/Folders/Block.antt =====
-- The cluster that `fs_mkdir` of kernel/fs.c prepares for a directory.
use rink_os.Prelude.{
  ℕ, zero, suc, ◌+◌, ◌^◌, ◌<◌, ◌≡◌, ◌⊎◌, refl, true, false, inl, inr, [], ◌∷◌, ◌++◌, arith, ◌==◌,
}
use native.Mathlib.Decide.{ℕ_discrete}
use rink_os.Disk.{Buf, Disk, zero_buf}
use rink_os.Fat.{
  first_data_cluster, end_cluster, cluster_eoc, cluster_to_lba, fat_read, fat_write,
  fat_alloc_cluster,
}
use rink_os.Fat.Alloc.{NoneFree, fat_alloc_cluster-Allocated}
use rink_os.Fat.Chain.{IsData}
use rink_os.Dirent.{Dirent, attr_directory, entry_at, set_entry, bytes_at, is_unused, fields_eq}
use rink_os.Dirent.Codec.{IsDirent, entry_at-set_entry_self, entry_at-set_entry_ne}
use rink_os.Names.{dot_name, dotdot_name, empty_ext}
use rink_os.Volume.{Volume, ok, fail}
use rink_os.Dir.{DirRef, entries_per_cluster, alloc_or_fail}
use rink_os.Dir.Items.{Items, cluster_items, chain_items}
use rink_os.Files.{new_entry}
use rink_os.Files.Folders.{is_skipped}
use rink_os.Files.Folders.Remove.{all_skipped}

abbrev pub dot : ℕ → Dirent
dot c = new_entry dot_name empty_ext attr_directory c

abbrev pub dotdot : ℕ → Dirent
dotdot c = new_entry dotdot_name empty_ext attr_directory c

abbrev pub fresh_block : ℕ → ℕ → Buf
fresh_block c up = set_entry (set_entry zero_buf 0 (dot c)) 1 (dotdot up)

dot-IsDirent : (c : ℕ) → c < 2 ^ 16 → IsDirent (dot c)
unfolding new_entry
dot-IsDirent c lt = record {
  name_len = refl;
  ext_len = refl;
  reserved_len = refl;
  time_lt = omega arith;
  date_lt = omega arith;
  first_cluster_lt = lt;
  file_size_lt = omega arith;
}

dotdot-IsDirent : (c : ℕ) → c < 2 ^ 16 → IsDirent (dotdot c)
unfolding new_entry
dotdot-IsDirent c lt = record {
  name_len = refl;
  ext_len = refl;
  reserved_len = refl;
  time_lt = omega arith;
  date_lt = omega arith;
  first_cluster_lt = lt;
  file_size_lt = omega arith;
}

zero_buf-unused : (i : ℕ) → is_unused (entry_at zero_buf i) ≡ true
unfolding entry_at bytes_at
zero_buf-unused i = refl

fresh_block-skipped :
    (c up : ℕ)
    → c < 2 ^ 16
    → up < 2 ^ 16
    → (i : ℕ) → is_skipped (entry_at (fresh_block c up) i) ≡ true
unfolding fields_eq new_entry
fresh_block-skipped c up lt lt' i = elim (ℕ_discrete 1 i) [
  | yes one ↦
      let e =
        entry_at-set_entry_self (set_entry zero_buf 0 (dot c)) 1 (dotdot up)
          (dotdot-IsDirent up lt') in
      rw⁻¹ one (rw e refl)
  | no other ↦
      let e = entry_at-set_entry_ne (set_entry zero_buf 0 (dot c)) 1 (dotdot up) i other in
      elim (ℕ_discrete 0 i) [
        | yes z ↦
            let e' = entry_at-set_entry_self zero_buf 0 (dot c) (dot-IsDirent c lt) in
            rw e (rw⁻¹ z (rw e' refl))
        | no later ↦
            let e' = entry_at-set_entry_ne zero_buf 0 (dot c) i later in
            rw (e, e', zero_buf-unused i) refl
      ]
]

all_skipped-cluster_items :
    (dir : DirRef) (d : Disk) (c n i : ℕ)
    → ((j : ℕ) → is_skipped (entry_at (d (cluster_to_lba c)) j) ≡ true)
    → all_skipped (cluster_items dir d c n i) ≡ true
unfolding cluster_items
all_skipped-cluster_items dir d c zero i h = refl
all_skipped-cluster_items dir d c (suc n) i h =
    rw (h i) (all_skipped-cluster_items dir d c n (i + 1) h)

all_skipped-append :
    (xs ys : Items) → all_skipped xs ≡ true → all_skipped ys ≡ true → all_skipped (xs ++ ys) ≡ true
all_skipped-append [] ys h h' = h'
all_skipped-append (x ∷ xs) ys h h' = ground (arith, all_skipped-append xs ys)

-- A directory of a fresh cluster has nothing in it.
pub all_skipped-fresh_block :
    (dir : DirRef) (d : Disk) (c up : ℕ)
    → c < 2 ^ 16
    → up < 2 ^ 16
    → d (cluster_to_lba c) ≡ fresh_block c up
    → all_skipped (chain_items dir d (c ∷ [])) ≡ true
unfolding chain_items
all_skipped-fresh_block dir d c up lt lt' block =
    all_skipped-append (cluster_items dir d c entries_per_cluster 0) []
      (all_skipped-cluster_items dir d c entries_per_cluster 0
        (rw block (fresh_block-skipped c up lt lt')))
      refl

-- alloc_or_fail
pub alloc_or_fail-cases :
    (v : Volume)
    → ((alloc_or_fail v ≡ fail v) × NoneFree v.disk first_data_cluster end_cluster)
      ⊎ ((c : ℕ) × (alloc_or_fail v ≡ ok c (record v { disk = fat_write v.disk c cluster_eoc }))
          × IsData c
          × (fat_read v.disk c ≡ 0))
unfolding alloc_or_fail
alloc_or_fail-cases v = elim (fat_alloc_cluster-Allocated v.disk) [
  | inl (z, same, none_free) ↦ inl (rw (z, same) refl, none_free)
  | inr (lo, hi, free, below, same) ↦
      let some_c : ((fat_alloc_cluster v.disk).0 == 0) ≡ false = ground arith in
      inr ((fat_alloc_cluster v.disk).0, rw (some_c, same) refl, (lo, hi), free)
]
