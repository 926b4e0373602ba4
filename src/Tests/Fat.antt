-- ===== src/Tests/Fat.antt =====
-- The allocation table of kernel/fs.c on a small table.
use rink_os.Prelude.{ℕ, ◌<◌, ◌≡◌, refl, some, [], ◌∷◌, arith, if◌then◌else◌}
use rink_os.Disk.{Disk}
use rink_os.Fat.{
  cluster_to_lba, first_data_cluster, end_cluster, cluster_free, fat_read, fat_write, alloc_from,
  fat_alloc_cluster, fat_free_chain,
}
use rink_os.Fat.Entry.{table_entries, fat_read-fat_write}
use rink_os.Fat.Alloc.{Allocated, fat_alloc_cluster-Allocated}
use rink_os.Fat.Room.{has}
use rink_os.Fat.Chain.{Chain, fat_free_chain-frees}

abbrev pub blank : Disk
blank lba offset = 0

-- A chain of the clusters 2 and 3.
abbrev pub two_links : Disk
two_links = fat_write (fat_write blank 2 3) 3 0xFFFF

pub two_links-Chain : Chain two_links 2 (2 ∷ 3 ∷ [])
unfolding fat_read fat_write
two_links-Chain =
    (refl, (omega arith, omega arith), refl, (refl, (omega arith, omega arith), refl, refl))

-- Below the first data cluster the difference wraps.
wraps_below : cluster_to_lba 1 ≡ 434
unfolding cluster_to_lba
wraps_below = refl

link_back : fat_read two_links 2 ≡ 3
unfolding fat_read fat_write
link_back = refl

third_is_free : (fat_alloc_cluster two_links).0 ≡ 4
unfolding fat_alloc_cluster alloc_from fat_read fat_write
third_is_free = refl

fat_read-fat_write_example : fat_read (fat_write two_links 300 0xFFFF) 300 ≡ 0xFFFF
fat_read-fat_write_example = fat_read-fat_write two_links 300 300 0xFFFF (omega arith) (omega arith)

fat_alloc_cluster-Allocated_example :
    Allocated two_links first_data_cluster end_cluster (fat_alloc_cluster two_links)
fat_alloc_cluster-Allocated_example = fat_alloc_cluster-Allocated two_links

fat_free_chain-frees_example :
    (d' : Disk) × (fat_free_chain 2 two_links ≡ some d')
    × ((a : ℕ)
        → a < table_entries
        → fat_read d' a ≡ (if has a (2 ∷ 3 ∷ []) then cluster_free else fat_read two_links a))
fat_free_chain-frees_example = fat_free_chain-frees two_links 2 (2 ∷ 3 ∷ []) two_links-Chain
