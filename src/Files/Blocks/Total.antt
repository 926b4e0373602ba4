-- ===== src/Files/Blocks/Total.antt =====
-- How the loop of `fs_write` of kernel/fs.c ends.
use rink_os.Prelude.{
  ℕ, zero, suc, ◌+◌, ◌≤◌, ◌<◌, ◌≡◌, ◌≢◌, inl, inr, refl, ap, ◌∙◌, true, false, List, [], ◌∷◌, arith,
  length, ◌==◌, if◌then◌else◌,
}
use rink_os.Disk.{Disk}
use rink_os.Fat.{first_data_cluster, end_cluster, fat_read, fat_alloc_cluster}
use rink_os.Fat.Alloc.{NoneFree, Allocated, fat_alloc_cluster-Allocated}
use rink_os.Fat.Room.{has, Distinct, fresh_number}
use rink_os.Fat.Chain.{IsData}
use rink_os.Files.Blocks.{WriteEnd, wrote, disk_full, link, put_block, write_loop}
use rink_os.Files.Blocks.Step.{PrevOk, stepped, stepped-new}
use rink_os.Files.Blocks.Write.{chunk_at, Written, Written-zero, Written-suc}

-- All `n` rounds are done, or some of them and then no cluster is free.
abbrev pub WriteResult : ℕ → ℕ → ℕ → ℕ → List ℕ → Disk → WriteEnd → Type 0
WriteResult n first prev written bytes d (wrote f d') =
    (cs : List ℕ) × Written n first prev written bytes d f d' cs
WriteResult n first prev written bytes d (disk_full f d') =
    (k : ℕ) × (cs : List ℕ) × (k < n)
    × Written k first prev written bytes d f d' cs
    × NoneFree d' first_data_cluster end_cluster

WriteResult-suc :
    (n first prev c : ℕ) (bytes : List ℕ) (written : ℕ) (d : Disk) (r : WriteEnd)
    → (ok : PrevOk d first prev) → (data_c : IsData c) → (free_c : fat_read d c ≡ 0)
    → WriteResult n
        (if first == 0 then c else first)
        c
        (written + chunk_at bytes written)
        bytes
        (stepped d first prev c bytes written ok data_c free_c)
        r
    → WriteResult (suc n) first prev written bytes d r
WriteResult-suc n first prev c bytes written d (wrote f d') ok data_c free_c (cs, w) =
    (c ∷ cs, Written-suc n first prev c bytes written d d' f cs ok data_c free_c w)
WriteResult-suc n first prev c bytes written d (disk_full f d') ok data_c free_c
      (k, cs, lt, w, none_free) =
    (
      suc k,
      c ∷ cs,
      omega arith,
      Written-suc k first prev c bytes written d d' f cs ok data_c free_c w,
      none_free,
    )

-- Started with nothing written, or behind the last cluster of a chain, the loop of fs_write either
-- builds a chain of as many new clusters as it was asked for, holding the bytes in blocks, or
-- stops when no cluster is free with such a chain for the rounds done; every other entry of the
-- table but that of the cluster chained from, every other data block, the boot sector and the root
-- directory stay.
pub write_loop-WriteResult :
    (n first prev written : ℕ) (bytes : List ℕ) (d : Disk)
    → PrevOk d first prev
    → WriteResult n first prev written bytes d (write_loop n first prev written bytes d)
unfolding write_loop
write_loop-WriteResult zero first prev written bytes d ok =
    ([], Written-zero first prev written bytes d ok)
write_loop-WriteResult (suc n) first prev written bytes d ok =
    go (fat_alloc_cluster d) (fat_alloc_cluster-Allocated d) (λ c data_c free_c.
      write_loop-WriteResult n (if first == 0 then c else first) c
        (written + chunk_at bytes written) bytes
        (stepped d first prev c bytes written ok data_c free_c)
        (inr (ground arith, data_c, stepped-new d first prev c bytes written ok data_c free_c)))
  where
    go :
        (r : ℕ × Disk)
        → Allocated d first_data_cluster end_cluster r
        → ((c : ℕ)
            → (data_c : IsData c) → (free_c : fat_read d c ≡ 0)
            → WriteResult n
                (if first == 0 then c else first)
                c
                (written + chunk_at bytes written)
                bytes
                (stepped d first prev c bytes written ok data_c free_c)
                (write_loop n
                  (if first == 0 then c else first)
                  c
                  (written + chunk_at bytes written)
                  bytes
                  (stepped d first prev c bytes written ok data_c free_c)))
        → WriteResult (suc n) first prev written bytes d (
            if r.0 == 0
            then disk_full first r.1
            else write_loop n
                (if first == 0 then r.0 else first)
                r.0
                (written + chunk_at bytes written)
                bytes
                (put_block r.0 bytes written (link first prev r.0 r.1)))
    go (c, d') (inl (zero_c, same, none_free)) ih =
        rw (zero_c, same)
          (0, [], omega arith, Written-zero first prev written bytes d ok, none_free)
    go (c, d') (inr (lo, hi, free_c, below, same)) ih =
        let data_c : IsData c = (lo, hi) in
        let nz : (c == 0) ≡ false = ground arith in
        let r =
          write_loop n (if first == 0 then c else first) c (written + chunk_at bytes written) bytes
            (stepped d first prev c bytes written ok data_c free_c) in
        rw (nz, same)
          (WriteResult-suc n first prev c bytes written d r ok data_c free_c (ih c data_c free_c))

-- Distinct free data clusters of the disk.
abbrev pub AllFree : Disk → List ℕ → Type 0
AllFree d xs = (a : ℕ) → has a xs ≡ true → IsData a × (fat_read d a ≡ 0)

-- With `n` free clusters the loop does not fail.
pub write_loop-room :
    (n first prev written : ℕ) (bytes : List ℕ) (d : Disk) (room : List ℕ)
    → PrevOk d first prev
    → Distinct room
    → AllFree d room
    → n ≤ length room
    → (f : ℕ) × (d' : Disk) × (cs : List ℕ) × (write_loop n first prev written bytes d ≡ wrote f d')
      × Written n first prev written bytes d f d' cs
write_loop-room n first prev written bytes d room ok distinct free enough =
    go (write_loop n first prev written bytes d) refl
      (write_loop-WriteResult n first prev written bytes d ok)
  where
    not_prev : (x : ℕ) → IsData x → fat_read d x ≡ 0 → PrevOk d first prev → x ≢ prev
    not_prev x data_x free_x (inl (z, p)) e = absurd (omega arith)
    not_prev x data_x free_x (inr (ne, data_p, last)) e =
        let q : fat_read d x ≡ fat_read d prev = ap (fat_read d) e in absurd (omega arith)

    go :
        (r : WriteEnd)
        → write_loop n first prev written bytes d ≡ r
        → WriteResult n first prev written bytes d r
        → (f : ℕ) × (d' : Disk) × (cs : List ℕ) × (write_loop n first prev written bytes d
            ≡ wrote f d')
          × Written n first prev written bytes d f d' cs
    go (wrote f d') e (cs, w) = (f, d', cs, e, w)
    go (disk_full f d') e (k, cs, lt, w, none_free) =
        let (x, x_in, x_out) = fresh_number room cs distinct (omega (arith, w.count)) in
        let (data_x, free_x) = free x x_in in
        absurd (
          none_free x data_x.0 data_x.1
            (w.table x data_x.1 x_out (not_prev x data_x free_x ok) ∙ free_x))

-- The same for the first run of the loop, from nothing written.
pub write_loop-wrote :
    (n : ℕ) (bytes : List ℕ) (d : Disk) (room : List ℕ)
    → Distinct room
    → AllFree d room
    → n ≤ length room
    → (f : ℕ) × (d' : Disk) × (cs : List ℕ) × (write_loop n 0 0 0 bytes d ≡ wrote f d')
      × Written n 0 0 0 bytes d f d' cs
write_loop-wrote n bytes d room distinct free enough =
    write_loop-room n 0 0 0 bytes d room (inl (refl, refl)) distinct free enough
