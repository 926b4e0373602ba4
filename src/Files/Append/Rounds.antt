-- ===== src/Files/Append/Rounds.antt =====
-- The loop of `fs_append` of kernel/fs.c against that of `fs_write`, behind the last cluster.
use rink_os.Prelude.{
  ℕ, zero, suc, ◌+◌, ◌-◌, ◌*◌, ◌≤◌, ◌<◌, ◌≡◌, ◌≢◌, ◌∙◌, ap, true, false, Bool-cases, inl, inr, List,
  arith, length, ltb, min, ◌==◌,
}
use rink_os.Disk.{Disk}
use rink_os.Fat.{bytes_per_sector, fat_write, fat_alloc_cluster}
use rink_os.Files.Blocks.{WriteEnd, wrote, disk_full, link, put_block, write_loop}
use rink_os.Files.Append
use rink_os.Files.Append.{AppendEnd, appended, append_loop}

-- How many clusters the bytes from `written` on take.
pub record Takes (bytes : List ℕ) (written n : ℕ) : Type 0 where
  pub inside : written ≤ length bytes
  pub enough : length bytes ≤ written + bytes_per_sector * n
  pub needed : n ≢ 0 → written + bytes_per_sector * n < length bytes + bytes_per_sector

Takes-next :
    (bytes : List ℕ) (written n : ℕ)
    → Takes bytes written (suc n)
    → Takes bytes (written + min (length bytes - written) bytes_per_sector) n
Takes-next bytes written n t =
    let needed : written + bytes_per_sector * suc n < length bytes + bytes_per_sector =
      t.needed (λ e. absurd (omega arith)) in
    record {
      inside = omega (arith, t.inside);
      enough = omega (arith, t.inside, t.enough);
      needed = λ ne. omega (arith, t.inside, needed, ne);
    }

-- A round for each byte is enough.
pub Takes-fuel : (bytes : List ℕ) (written n : ℕ) → Takes bytes written n → n ≤ length bytes
Takes-fuel bytes written zero t = omega arith
Takes-fuel bytes written (suc n) t =
    let needed : written + bytes_per_sector * suc n < length bytes + bytes_per_sector =
      t.needed (λ e. absurd (omega arith)) in
    omega (arith, needed)

abbrev as_append : ℕ → WriteEnd → AppendEnd
as_append n (wrote f d) = appended f n d
as_append n (disk_full f d) = Append.disk_full f n d

all_written : (bytes : List ℕ) (written : ℕ) → Takes bytes written 0 → written ≡ length bytes
all_written bytes written t = omega (arith, t.inside, t.enough)

-- Where the loop of fs_write succeeds, that of fs_append with a round for each byte does the same.
pub append_loop-write_loop :
    (n k first prev written : ℕ) (bytes : List ℕ) (d : Disk) (f : ℕ) (d' : Disk)
    → Takes bytes written n
    → n ≤ k
    → first ≢ 0
    → prev ≢ 0
    → write_loop n first prev written bytes d ≡ wrote f d'
    → append_loop k first prev written bytes d ≡ appended f (length bytes) d'
unfolding append_loop write_loop put_block link
append_loop-write_loop zero zero first prev written bytes d f d' t le nf np e =
    ap (λ n. appended first n d) (all_written bytes written t) ∙ ap (as_append (length bytes)) e
append_loop-write_loop zero (suc k) first prev written bytes d f d' t le nf np e =
    let all = all_written bytes written t in
    let stop : ltb written (length bytes) ≡ false = ground (arith, all) in
    rw stop (ap (λ n. appended first n d) all ∙ ap (as_append (length bytes)) e)
append_loop-write_loop (suc n) zero first prev written bytes d f d' t le nf np e =
    absurd (omega arith)
append_loop-write_loop (suc n) (suc k) first prev written bytes d f d' t le nf np e =
    let needed : written + bytes_per_sector * suc n < length bytes + bytes_per_sector =
      t.needed (λ e. absurd (omega arith)) in
    let more : ltb written (length bytes) ≡ true = ground (arith, needed) in
    let old : (first == 0) ≡ false = ground arith in
    let linked : (prev == 0) ≡ false = ground arith in
    let c = (fat_alloc_cluster d).0 in
    let chunk = min (length bytes - written) bytes_per_sector in
    elim (Bool-cases (c == 0)) [
      | inl full ↦ cc (rw (old, full) at e)
      | inr new ↦
          rw (more, new, old, linked)
            (append_loop-write_loop n k first c (written + chunk) bytes
              (put_block c bytes written (fat_write (fat_alloc_cluster d).1 prev c)) f d'
              (Takes-next bytes written n t) (omega arith) nf (ground arith) (rw (new, old) at e))
    ]
