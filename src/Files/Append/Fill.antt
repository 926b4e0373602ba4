-- ===== src/Files/Append/Fill.antt =====
-- How `fs_append` of kernel/fs.c fills up the last cluster of a file.
use rink_os.Prelude.{
  ℕ, zero, suc, ◌+◌, ◌-◌, ◌*◌, ◌/◌, ◌%◌, ◌≤◌, ◌<◌, ◌≡◌, ◌≢◌, ◌∙◌, refl, sym, ap, true, false,
  Bool-cases, inl, inr, List, [], ◌∷◌, ◌++◌, arith, length, length-append, get_or, min, ◌==◌,
}
use rink_os.Disk.{Disk, disk_read_sector, disk_write_sector}
use rink_os.Fat.{bytes_per_sector, cluster_to_lba, cluster_at_index, fat_read}
use rink_os.Fat.Entry.{table_entries, fat_read-disk_write_sector}
use rink_os.Fat.Chain.{IsData, Chain, Chain-IsData, cluster_at_index-Chain}
use rink_os.Dirent.{Dirent}
use rink_os.Volume.{Volume, ok}
use rink_os.Files.Blocks.{block}
use rink_os.Files.Blocks.Step.{cluster_to_lba-ge}
use rink_os.Files.Blocks.Write.{chunk_at, Contents}
use rink_os.Files.Append.{overlay, fill_last}
use rink_os.Files.Append.Grow.{last_of, has-last_of}
use rink_os.Files.Append.Blocks.{block-left, overlay-block}

get_or-last_of : (x : ℕ) (xs : List ℕ) → get_or (x ∷ xs) (length xs) 0 ≡ last_of (x ∷ xs)
get_or-last_of x [] = refl
get_or-last_of x (y ∷ xs) = get_or-last_of y xs

Contents-last :
    (d : Disk) (bytes : List ℕ) (w n x : ℕ) (xs : List ℕ)
    → length xs ≡ n
    → w + bytes_per_sector * n < length bytes
    → Contents d bytes w (x ∷ xs)
    → d (cluster_to_lba (last_of (x ∷ xs)))
      ≡ block bytes (w + bytes_per_sector * n) (chunk_at bytes (w + bytes_per_sector * n))
Contents-last d bytes w n x [] size lt h =
    let q : w ≡ w + bytes_per_sector * n = omega (arith, size) in
    h.0 ∙ ap (λ v. block bytes v (chunk_at bytes v)) q
Contents-last d bytes w zero x (y ∷ xs) size lt h = absurd (omega (arith, size))
Contents-last d bytes w (suc n) x (y ∷ xs) size lt h =
    let k : chunk_at bytes w ≡ 512 = omega arith in
    let q : w + 512 + bytes_per_sector * n ≡ w + bytes_per_sector * suc n = omega arith in
    Contents-last d bytes (w + 512) n y xs (omega (arith, size)) (omega arith) (rw k at h.1)
    ∙ ap (λ v. block bytes v (chunk_at bytes v)) q

-- The place that is filled up to, and the disk with the last cluster filled up.
pub record Filled (d d' : Disk) (old new : List ℕ) (x : ℕ) (xs : List ℕ) (fill : ℕ) : Type 0 where
  pub inside : fill ≤ length new
  pub upto : length old + fill ≡ min (length (old ++ new)) (bytes_per_sector * length (x ∷ xs))
  pub end_block :
      d' (cluster_to_lba (last_of (x ∷ xs)))
      ≡ block
          (old ++ new)
          (0 + bytes_per_sector * length xs)
          (chunk_at (old ++ new) (0 + bytes_per_sector * length xs))
  pub rest : (l : ℕ) → l ≢ cluster_to_lba (last_of (x ∷ xs)) → d' l ≡ d l
  pub table : (a : ℕ) → a < table_entries → fat_read d' a ≡ fat_read d a

-- A file as `fs_write` leaves it: its chain is as long as it has to be and holds its bytes.
pub record Holds (d : Disk) (e : Dirent) (bytes : List ℕ) (x : ℕ) (xs : List ℕ) : Type 0 where
  pub size : e.file_size ≡ length bytes
  pub chain : Chain d e.first_cluster (x ∷ xs)
  pub contents : Contents d bytes 0 (x ∷ xs)
  pub needed : bytes_per_sector * length xs < length bytes
  pub enough : length bytes ≤ bytes_per_sector * length (x ∷ xs)

module _ (v : Volume) (e : Dirent) (old new : List ℕ) (x : ℕ) (xs : List ℕ)
    (h : Holds v.disk e old x xs) where
  last-IsData : IsData (last_of (x ∷ xs))
  last-IsData =
      Chain-IsData v.disk e.first_cluster (x ∷ xs) (last_of (x ∷ xs)) h.chain (has-last_of x xs)

  at_last :
      cluster_at_index v.disk e.first_cluster ((length old - 1) / bytes_per_sector)
      ≡ last_of (x ∷ xs)
  at_last =
      let q : (length old - 1) / bytes_per_sector ≡ length xs = omega (arith, h.needed, h.enough) in
      rw q (
        cluster_at_index-Chain v.disk e.first_cluster (length xs) (x ∷ xs) (omega arith) h.chain
        ∙ get_or-last_of x xs)

  old_end :
      v.disk (cluster_to_lba (last_of (x ∷ xs)))
      ≡ block old
          (0 + bytes_per_sector * length xs)
          (chunk_at old (0 + bytes_per_sector * length xs))
  old_end = Contents-last v.disk old 0 (length xs) x xs refl (omega (arith, h.needed)) h.contents

  -- Where the last block is full, it is already the block of all the bytes.
  full_block :
      length old % bytes_per_sector ≡ 0
      → v.disk (cluster_to_lba (last_of (x ∷ xs)))
        ≡ block
            (old ++ new)
            (0 + bytes_per_sector * length xs)
            (chunk_at (old ++ new) (0 + bytes_per_sector * length xs))
  full_block whole =
      let both = length-append old new in
      let w = 0 + bytes_per_sector * length xs in
      let k : chunk_at old w ≡ 512 = omega (arith, h.needed, h.enough) in
      let k' : chunk_at (old ++ new) w ≡ 512 = omega (arith, both, h.needed, h.enough) in
      old_end
      ∙ ap (block old w) k
      ∙ block-left old new w 512 (omega (arith, h.needed, h.enough))
      ∙ ap (block (old ++ new) w) (sym k')

  -- Where it is not, the overlay makes it that.
  part_block :
      (off : ℕ)
      → off ≡ length old % bytes_per_sector
      → off ≢ 0
      → overlay
          (v.disk (cluster_to_lba (last_of (x ∷ xs))))
          off
          new
          (min (length new) (bytes_per_sector - off))
        ≡ block
            (old ++ new)
            (0 + bytes_per_sector * length xs)
            (chunk_at (old ++ new) (0 + bytes_per_sector * length xs))
  part_block off is_off part =
      let both = length-append old new in
      let w = 0 + bytes_per_sector * length xs in
      let chunk = min (length new) (bytes_per_sector - off) in
      let k : chunk_at old w ≡ off = omega (arith, h.needed, h.enough) in
      let k' : off + chunk ≡ chunk_at (old ++ new) w = omega (arith, both, h.needed, h.enough) in
      ap (λ b. overlay b off new chunk) (old_end ∙ ap (block old w) k)
      ∙ overlay-block old new w off chunk (omega (arith, h.needed, h.enough))
      ∙ ap (block (old ++ new) w) k'

  pub fill_last-Filled :
      (fill : ℕ) × (d' : Disk) × (fill_last e new v
        ≡ ok (last_of (x ∷ xs), fill) (record v { disk = d' }))
      × Filled v.disk d' old new x xs fill
  unfolding fill_last disk_write_sector disk_read_sector
  fill_last-Filled =
      let off = length old % bytes_per_sector in
      let both = length-append old new in
      let some_bytes : (length old == 0) ≡ false = ground (arith, h.needed) in
      let here : (cluster_to_lba (last_of (x ∷ xs)) == cluster_to_lba (last_of (x ∷ xs))) ≡ true =
        ground arith in
      let some_last : (last_of (x ∷ xs) == 0) ≡ false = ground (arith, last-IsData) in
      elim (Bool-cases (length old % bytes_per_sector == 0)) [
        | inl whole_blocks ↦
            let whole : length old % bytes_per_sector ≡ 0 = ground arith in
            (
              0,
              v.disk,
              rw (h.size, some_bytes, at_last, some_last, whole_blocks) refl,
              record {
                inside = omega arith;
                upto = omega (arith, both, h.needed, h.enough, whole);
                end_block = full_block whole;
                rest = λ l ne. refl;
                table = λ a lt. refl;
              },
            )
        | inr part ↦
            let not_whole : off ≢ 0 = ground arith in
            (
              min (length new) (bytes_per_sector - off),
              disk_write_sector v.disk (cluster_to_lba (last_of (x ∷ xs))) (
                  overlay (disk_read_sector v.disk (cluster_to_lba (last_of (x ∷ xs)))) off new
                    (min (length new) (bytes_per_sector - off))),
              rw (h.size, some_bytes, at_last, some_last, part) refl,
              record {
                inside = omega arith;
                upto = omega (arith, both, h.needed, h.enough, not_whole);
                end_block = rw here (part_block off refl not_whole);
                rest = λ l ne. ground arith;
                table = λ a lt.
                    fat_read-disk_write_sector v.disk a (cluster_to_lba (last_of (x ∷ xs)))
                      (overlay (v.disk (cluster_to_lba (last_of (x ∷ xs)))) off new
                        (min (length new) (bytes_per_sector - off)))
                      lt (inr (omega (arith, cluster_to_lba-ge (last_of (x ∷ xs)) last-IsData)));
              },
            )
      ]
