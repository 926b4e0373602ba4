-- ===== src/Dirent/Codec.antt =====
-- `fs_dirent_t` of kernel/scr/fs.h read from and written to a sector.
use rink_os.Prelude.{
  ℕ, zero, suc, ◌+◌, ◌-◌, ◌*◌, ◌/◌, ◌%◌, ◌^◌, ◌<◌, ◌≡◌, ◌≢◌, refl, sym, ap, ap₂, ◌∙◌, List, [], ◌∷◌,
  arith, length, get_or,
}
use rink_os.Disk.{Buf}
use rink_os.Dirent.{Dirent, dirent_byte, bytes_at, entry_at, set_entry}

-- The fields have the sizes of the C type.
pub record IsDirent (d : Dirent) : Type 0 where
  pub name_len : length d.name ≡ 8
  pub ext_len : length d.ext ≡ 3
  pub reserved_len : length d.reserved ≡ 10
  pub time_lt : d.time < 2 ^ 16
  pub date_lt : d.date < 2 ^ 16
  pub first_cluster_lt : d.first_cluster < 2 ^ 16
  pub file_size_lt : d.file_size < 2 ^ 32

length-bytes_at : (buf : Buf) (off n : ℕ) → length (bytes_at buf off n) ≡ n
unfolding bytes_at
length-bytes_at buf off zero = refl
length-bytes_at buf off (suc n) = omega (arith, length-bytes_at buf (off + 1) n)

get_or-bytes_at :
    (buf : Buf) (off n k : ℕ) → k < n → get_or (bytes_at buf off n) k 0 ≡ buf (off + k)
unfolding bytes_at
get_or-bytes_at buf off zero k h = absurd (omega arith)
get_or-bytes_at buf off (suc n) zero h = ap buf (omega arith)
get_or-bytes_at buf off (suc n) (suc k) h =
    get_or-bytes_at buf (off + 1) n k (omega arith) ∙ ap buf (omega arith)

bytes_at-eq :
    (buf : Buf) (off n : ℕ) (xs : List ℕ)
    → length xs ≡ n
    → ((k : ℕ) → k < n → buf (off + k) ≡ get_or xs k 0)
    → bytes_at buf off n ≡ xs
unfolding bytes_at
bytes_at-eq buf off zero [] e h = refl
bytes_at-eq buf off zero (x ∷ xs) e h = absurd (omega arith)
bytes_at-eq buf off (suc n) [] e h = absurd (omega arith)
bytes_at-eq buf off (suc n) (x ∷ xs) e h = ap₂ ◌∷◌ (ap buf (omega arith) ∙ h 0 (omega arith)) (
    bytes_at-eq buf (off + 1) n xs (omega arith)
      λ k lt. ap buf (omega arith) ∙ h (suc k) (omega arith))

bytes_at-cong :
    (buf buf' : Buf) (off n : ℕ)
    → ((k : ℕ) → k < n → buf (off + k) ≡ buf' (off + k))
    → bytes_at buf off n ≡ bytes_at buf' off n
bytes_at-cong buf buf' off n h =
    bytes_at-eq buf off n (bytes_at buf' off n) (length-bytes_at buf' off n)
      λ k lt. h k lt ∙ sym (get_or-bytes_at buf' off n k lt)

Dirent-eq :
    (d e : Dirent)
    → d.name ≡ e.name
    → d.ext ≡ e.ext
    → d.attr ≡ e.attr
    → d.reserved ≡ e.reserved
    → d.time ≡ e.time
    → d.date ≡ e.date
    → d.first_cluster ≡ e.first_cluster
    → d.file_size ≡ e.file_size
    → d ≡ e
Dirent-eq d e p₁ p₂ p₃ p₄ p₅ p₆ p₇ p₈ = ground arith

module _ (buf : Buf) (i : ℕ) (d : Dirent) where
  set_entry_self : (k : ℕ) → k < 32 → set_entry buf i d (32 * i + k) ≡ dirent_byte d k
  unfolding set_entry
  set_entry_self k lt =
      let row : (32 * i + k) / 32 ≡ i = omega arith in
      let col : (32 * i + k) % 32 ≡ k = omega arith in rw (row, col) (ground arith)

  set_entry_ne : (j k : ℕ) → i ≢ j → k < 32 → set_entry buf i d (32 * j + k) ≡ buf (32 * j + k)
  unfolding set_entry
  set_entry_ne j k ne lt = let row : (32 * j + k) / 32 ≡ j = omega arith in rw row (ground arith)

  -- Byte `b + k` of an entry, as the fields at offset `b` read it.
  self_at : (b k : ℕ) → b + k < 32 → set_entry buf i d (32 * i + b + k) ≡ dirent_byte d (b + k)
  self_at b k lt = ap (set_entry buf i d) (omega arith) ∙ set_entry_self (b + k) lt

  ne_at :
      (j b k : ℕ) → i ≢ j → b + k < 32 → set_entry buf i d (32 * j + b + k) ≡ buf (32 * j + b + k)
  ne_at j b k ne lt =
      ap (set_entry buf i d) (omega arith) ∙ set_entry_ne j (b + k) ne lt ∙ ap buf (omega arith)

  ext_byte : (k : ℕ) → k < 3 → dirent_byte d (8 + k) ≡ get_or d.ext k 0
  unfolding dirent_byte
  ext_byte k lt =
      let back : 8 + k - 8 ≡ k = omega arith in
      ground (arith, ap (λ (j : ℕ). get_or d.ext j 0) back)

  reserved_byte : (k : ℕ) → k < 10 → dirent_byte d (12 + k) ≡ get_or d.reserved k 0
  unfolding dirent_byte
  reserved_byte k lt =
      let back : 12 + k - 12 ≡ k = omega arith in
      ground (arith, ap (λ (j : ℕ). get_or d.reserved j 0) back)

  -- An entry whose fields have their sizes, written at a place of a sector, reads back from that
  -- place.
  pub entry_at-set_entry_self : IsDirent d → entry_at (set_entry buf i d) i ≡ d
  unfolding entry_at dirent_byte
  entry_at-set_entry_self v =
      Dirent-eq (entry_at (set_entry buf i d) i) d
        (bytes_at-eq (set_entry buf i d) (32 * i) 8 d.name v.name_len
          λ k lt. set_entry_self k (omega arith) ∙ ground arith)
        (bytes_at-eq (set_entry buf i d) (32 * i + 8) 3 d.ext v.ext_len
          λ k lt. self_at 8 k (omega arith) ∙ ext_byte k lt)
        (set_entry_self 11 (omega arith))
        (bytes_at-eq (set_entry buf i d) (32 * i + 12) 10 d.reserved v.reserved_len
          λ k lt. self_at 12 k (omega arith) ∙ reserved_byte k lt)
        (omega (arith, set_entry_self 22 (omega arith), self_at 22 1 (omega arith)))
        (omega (arith, set_entry_self 24 (omega arith), self_at 24 1 (omega arith)))
        (omega (arith, set_entry_self 26 (omega arith), self_at 26 1 (omega arith)))
        (omega (
          arith,
          set_entry_self 28 (omega arith),
          self_at 28 1 (omega arith),
          set_entry_self 30 (omega arith),
          self_at 30 1 (omega arith),
        ))

  -- Writing one entry of a sector leaves every other entry as it was.
  pub entry_at-set_entry_ne : (j : ℕ) → i ≢ j → entry_at (set_entry buf i d) j ≡ entry_at buf j
  unfolding entry_at
  entry_at-set_entry_ne j ne =
      Dirent-eq (entry_at (set_entry buf i d) j) (entry_at buf j)
        (bytes_at-cong (set_entry buf i d) buf (32 * j) 8 λ k lt. set_entry_ne j k ne (omega arith))
        (bytes_at-cong (set_entry buf i d) buf (32 * j + 8) 3 λ k lt. ne_at j 8 k ne (omega arith))
        (set_entry_ne j 11 ne (omega arith))
        (bytes_at-cong (set_entry buf i d) buf (32 * j + 12) 10
          λ k lt. ne_at j 12 k ne (omega arith))
        (omega (arith, set_entry_ne j 22 ne (omega arith), ne_at j 22 1 ne (omega arith)))
        (omega (arith, set_entry_ne j 24 ne (omega arith), ne_at j 24 1 ne (omega arith)))
        (omega (arith, set_entry_ne j 26 ne (omega arith), ne_at j 26 1 ne (omega arith)))
        (omega (
          arith,
          set_entry_ne j 28 ne (omega arith),
          ne_at j 28 1 ne (omega arith),
          set_entry_ne j 30 ne (omega arith),
          ne_at j 30 1 ne (omega arith),
        ))
