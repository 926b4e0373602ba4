-- ===== src/Files/Blocks/Step.antt =====
-- One round of the loop of `fs_write` of kernel/fs.c.
use rink_os.Prelude.{ℕ, ◌-◌, ◌≤◌, ◌<◌, ◌≡◌, ◌≢◌, ◌⊎◌, inr, ◌∙◌, List, arith, length, min}
use rink_os.Disk.{Disk, disk_write_sector}
use rink_os.Fat.{
  bytes_per_sector, fat1_lba, root_lba, data_lba, cluster_eoc, cluster_to_lba, fat_read, fat_write,
}
use rink_os.Fat.Entry.{
  table_entries, IsOutside, fat_read-fat_write, fat_write-outside, fat_read-disk_write_sector,
}
use rink_os.Fat.Chain.{IsData}
use rink_os.Files.Blocks.{block, link, put_block}

-- Either nothing is written yet, or `prev` is the last cluster of the chain that starts at `first`.
abbrev pub PrevOk : Disk → ℕ → ℕ → Type 0
PrevOk d first prev =
    ((first ≡ 0) × (prev ≡ 0)) ⊎ ((first ≢ 0) × IsData prev × (fat_read d prev ≡ cluster_eoc))

-- Sectors of neither the table nor the data area: the boot sector and the root directory.
abbrev pub IsSystem : ℕ → Type 0
IsSystem l = (l < fat1_lba) ⊎ ((root_lba ≤ l) × (l < data_lba))

pub cluster_to_lba-ge : (c : ℕ) → IsData c → data_lba ≤ cluster_to_lba c
unfolding cluster_to_lba
cluster_to_lba-ge c h = omega arith

pub cluster_to_lba-ne :
    (a c : ℕ) → IsData a → IsData c → a ≢ c → cluster_to_lba a ≢ cluster_to_lba c
unfolding cluster_to_lba
cluster_to_lba-ne a c ha hc ne = omega arith

module _ (d : Disk) (first prev c : ℕ) (bytes : List ℕ) (written : ℕ) (ok : PrevOk d first prev)
    (data_c : IsData c) (free_c : fat_read d c ≡ 0) where
  abbrev allocated : Disk
  allocated = fat_write d c cluster_eoc

  abbrev pub stepped : Disk
  stepped = put_block c bytes written (link first prev c allocated)

  -- The table after the round.
  fat_read-link :
      (a : ℕ) → a < table_entries → fat_read stepped a ≡ fat_read (link first prev c allocated) a
  unfolding put_block
  fat_read-link a ha =
      fat_read-disk_write_sector (link first prev c allocated) a (cluster_to_lba c) _ ha
        (inr (omega (arith, cluster_to_lba-ge c data_c)))

  pub stepped-other :
      (a : ℕ) → a < table_entries → a ≢ c → a ≢ prev → fat_read stepped a ≡ fat_read d a
  unfolding link
  stepped-other a ha nc np =
      fat_read-link a ha
      ∙ ground (arith, fat_read-fat_write allocated a prev c, fat_read-fat_write d a c cluster_eoc)

  pub stepped-new : fat_read stepped c ≡ cluster_eoc
  unfolding link
  stepped-new =
      fat_read-link c (omega arith)
      ∙ ground (arith, fat_read-fat_write allocated c prev c, fat_read-fat_write d c c cluster_eoc)

  pub stepped-prev : first ≢ 0 → fat_read stepped prev ≡ c
  unfolding link
  stepped-prev ne =
      fat_read-link prev (ground arith) ∙ ground (arith, fat_read-fat_write allocated prev prev c)

  link-outside : (l : ℕ) → IsOutside l → link first prev c allocated l ≡ d l
  unfolding link
  link-outside l out =
      ground (arith, fat_write-outside allocated prev c l, fat_write-outside d c cluster_eoc l)

  pub stepped-block :
      stepped (cluster_to_lba c)
      ≡ block bytes written (min (length bytes - written) bytes_per_sector)
  unfolding put_block disk_write_sector
  stepped-block = ground arith

  stepped-at : (l : ℕ) → IsOutside l → l ≢ cluster_to_lba c → stepped l ≡ d l
  unfolding put_block disk_write_sector
  stepped-at l out ne = ground (arith, link-outside l out)

  pub stepped-sector :
      (a : ℕ) → IsData a → a ≢ c → stepped (cluster_to_lba a) ≡ d (cluster_to_lba a)
  stepped-sector a da ne =
      stepped-at (cluster_to_lba a) (inr (omega (arith, cluster_to_lba-ge a da)))
        (cluster_to_lba-ne a c da data_c ne)

  pub stepped-system : (l : ℕ) → IsSystem l → stepped l ≡ d l
  stepped-system l sys = stepped-at l (ground arith) (omega (arith, cluster_to_lba-ge c data_c))
