-- ===== src/Files/Append/Fuel.antt =====
-- The loop of `fs_append` of kernel/fs.c.
use rink_os.Prelude.{
  ℕ, zero, suc, ◌+◌, ◌-◌, ◌≤◌, ◌<◌, ◌≡◌, refl, false, Bool-cases, inl, inr, List, arith, length,
  ltb, min, ◌==◌, if◌then◌else◌,
}
use rink_os.Disk.{Disk, disk_write_sector}
use rink_os.Fat.{bytes_per_sector, cluster_to_lba, fat_write, fat_alloc_cluster}
use rink_os.Files.Blocks.{block}
use rink_os.Files.Append.{append_loop}

-- The loop of fs_append has ended after one round for each byte left: a further round changes
-- nothing.
pub append_loop-suc :
    (k first prev written : ℕ) (bytes : List ℕ) (d : Disk)
    → length bytes ≤ written + k
    → append_loop (suc k) first prev written bytes d ≡ append_loop k first prev written bytes d
unfolding append_loop
append_loop-suc zero first prev written bytes d le =
    let done : ltb written (length bytes) ≡ false = ground arith in rw done refl
append_loop-suc (suc k) first prev written bytes d le =
    elim (Bool-cases (ltb written (length bytes))) [
      | inl more ↦
          let c = (fat_alloc_cluster d).0 in
          let d₁ = (fat_alloc_cluster d).1 in
          let d₂ = if first == 0 then d₁ else if prev == 0 then d₁ else fat_write d₁ prev c in
          let chunk = min (length bytes - written) bytes_per_sector in
          let d₃ = disk_write_sector d₂ (cluster_to_lba c) (block bytes written chunk) in
          let goes : written < length bytes = ground arith in
          let ih =
            append_loop-suc k (if first == 0 then c else first) c (written + chunk) bytes d₃
              (omega arith) in
          rw (more, ih) refl
      | inr done ↦ rw done refl
    ]
