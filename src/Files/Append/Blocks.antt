-- ===== src/Files/Append/Blocks.antt =====
-- The blocks of a file that `fs_append` of kernel/fs.c makes longer.
use rink_os.Prelude.{
  ℕ, zero, suc, ◌+◌, ◌-◌, ◌*◌, ◌≤◌, ◌<◌, ◌≡◌, ◌≢◌, ◌∙◌, refl, sym, ap, fun_ext, true, Bool-cases,
  inl, inr, List, [], ◌∷◌, ◌++◌, arith, length, length-append, get_or, ltb, min,
}
use rink_os.Disk.{Disk}
use rink_os.Fat.{bytes_per_sector, cluster_to_lba}
use rink_os.Fat.Room.{has, Distinct}
use rink_os.Files.Blocks.{block}
use rink_os.Files.Blocks.Write.{chunk_at, Contents}
use rink_os.Files.Append.{overlay}
use rink_os.Files.Append.Grow.{last_of, has-last_of}

get_or-left : (xs ys : List ℕ) (i : ℕ) → i < length xs → get_or (xs ++ ys) i 0 ≡ get_or xs i 0
get_or-left [] ys i lt = absurd (omega arith)
get_or-left (x ∷ xs) ys zero lt = refl
get_or-left (x ∷ xs) ys (suc i) lt = get_or-left xs ys i (omega arith)

get_or-right : (xs ys : List ℕ) (i : ℕ) → get_or (xs ++ ys) (length xs + i) 0 ≡ get_or ys i 0
get_or-right [] ys i = let q : 0 + i ≡ i = omega arith in ap (λ n. get_or ys n 0) q
get_or-right (x ∷ xs) ys i =
    let q : suc (length xs) + i ≡ suc (length xs + i) = omega arith in
    ap (λ n. get_or (x ∷ xs ++ ys) n 0) q ∙ get_or-right xs ys i

-- A full block of the old bytes is one of all bytes.
pub block-left :
    (old new : List ℕ) (w k : ℕ) → w + k ≤ length old → block old w k ≡ block (old ++ new) w k
unfolding block
block-left old new w k le = fun_ext λ b. elim (Bool-cases (ltb b k)) [
  | inl inside ↦ rw inside (sym (get_or-left old new (w + b) (ground arith)))
  | inr outside ↦ rw outside refl
]

-- A block of the new bytes is one of all bytes.
pub block-right :
    (old new : List ℕ) (w k : ℕ) → block new w k ≡ block (old ++ new) (length old + w) k
unfolding block
block-right old new w k = fun_ext λ b. elim (Bool-cases (ltb b k)) [
  | inl inside ↦
      let q : length old + (w + b) ≡ length old + w + b = omega arith in
      rw inside (sym (get_or-right old new (w + b)) ∙ ap (λ n. get_or (old ++ new) n 0) q)
  | inr outside ↦ rw outside refl
]

-- The last block of the old bytes, filled up with new ones.
pub overlay-block :
    (old new : List ℕ) (w off k : ℕ)
    → w + off ≡ length old
    → overlay (block old w off) off new k ≡ block (old ++ new) w (off + k)
unfolding overlay block
overlay-block old new w off k end = fun_ext λ b. elim (Bool-cases (ltb b off)) [
  | inl before ↦
      let inside : ltb b (off + k) ≡ true = ground arith in
      rw (before, inside) (sym (get_or-left old new (w + b) (ground arith)))
  | inr behind ↦ elim (Bool-cases (ltb b (off + k))) [
    | inr outside ↦ rw (behind, outside) refl
    | inl inside ↦
        let q : length old + (b - off) ≡ w + b = ground arith in
        rw (behind, inside)
          (sym (get_or-right old new (b - off)) ∙ ap (λ n. get_or (old ++ new) n 0) q)
  ]
]

pub Contents-same :
    (d d' : Disk) (bytes : List ℕ) (w : ℕ) (cs : List ℕ)
    → ((a : ℕ) → has a cs ≡ true → d' (cluster_to_lba a) ≡ d (cluster_to_lba a))
    → Contents d bytes w cs
    → Contents d' bytes w cs
Contents-same d d' bytes w [] same h = tt
Contents-same d d' bytes w (x ∷ cs) same h = (
  same x (ground arith) ∙ h.0,
  Contents-same d d' bytes (w + chunk_at bytes w) cs (λ a i. same a (ground arith)) h.1,
)

pub Contents-right :
    (d : Disk) (old new : List ℕ) (w : ℕ) (ws : List ℕ)
    → Contents d new w ws
    → Contents d (old ++ new) (length old + w) ws
Contents-right d old new w [] h = tt
Contents-right d old new w (x ∷ ws) h =
    let both = length-append old new in
    let k : chunk_at new w ≡ chunk_at (old ++ new) (length old + w) = omega (arith, both) in
    let q : length old + (w + chunk_at new w)
        ≡ length old + w + chunk_at (old ++ new) (length old + w) =
      omega (arith, k) in
    (
      h.0 ∙ block-right old new w (chunk_at new w) ∙ ap (block (old ++ new) (length old + w)) k,
      rw q at (Contents-right d old new (w + chunk_at new w) ws h.1),
    )

pub Contents-append :
    (d : Disk) (bytes : List ℕ) (w v : ℕ) (cs ws : List ℕ)
    → w ≤ length bytes
    → v ≡ min (length bytes) (w + bytes_per_sector * length cs)
    → Contents d bytes w cs
    → Contents d bytes v ws
    → Contents d bytes w (cs ++ ws)
Contents-append d bytes w v [] ws le end h h' = let q : v ≡ w = omega (arith, end) in rw q at h'
Contents-append d bytes w v (x ∷ cs) ws le end h h' = (
  h.0,
  Contents-append d bytes (w + chunk_at bytes w) v cs ws (omega arith) (omega (arith, end)) h.1 h',
)

-- Where only the last block changes, and holds then what it has to of all the bytes.
pub Contents-grown :
    (d d' : Disk) (old new : List ℕ) (w n : ℕ) (x : ℕ) (cs : List ℕ)
    → length cs ≡ n
    → Distinct (x ∷ cs)
    → w + bytes_per_sector * n < length old
    → ((a : ℕ)
        → has a (x ∷ cs) ≡ true
        → a ≢ last_of (x ∷ cs)
        → d' (cluster_to_lba a) ≡ d (cluster_to_lba a))
    → d' (cluster_to_lba (last_of (x ∷ cs)))
      ≡ block
          (old ++ new)
          (w + bytes_per_sector * n)
          (chunk_at (old ++ new) (w + bytes_per_sector * n))
    → Contents d old w (x ∷ cs)
    → Contents d' (old ++ new) w (x ∷ cs)
Contents-grown d d' old new w n x [] size ds lt same end h =
    let q : w + bytes_per_sector * n ≡ w = omega (arith, size) in (rw q at end, tt)
Contents-grown d d' old new w zero x (y ∷ cs) size ds lt same end h = absurd (omega (arith, size))
Contents-grown d d' old new w (suc n) x (y ∷ cs) size ds lt same end h =
    let both = length-append old new in
    let not_last : x ≢ last_of (y ∷ cs) = λ e.
      let here : has x (y ∷ cs) ≡ true = ap (λ a. has a (y ∷ cs)) e ∙ has-last_of y cs in
      cc (ds.0, here) in
    let k : chunk_at old w ≡ 512 = omega arith in
    let k' : chunk_at (old ++ new) w ≡ 512 = omega (arith, both) in
    let step : w + bytes_per_sector * suc n ≡ w + 512 + bytes_per_sector * n = omega arith in
    (
      same x (ground arith) not_last
          ∙ h.0
          ∙ ap (block old w) k
          ∙ block-left old new w 512 (omega arith)
          ∙ ap (block (old ++ new) w) (sym k'),
      rw k' (
          Contents-grown d d' old new (w + 512) n y cs (omega (arith, size)) ds.1 (omega arith)
            (λ a i. same a (ground arith)) (rw step at end) (rw k at h.1)),
    )
