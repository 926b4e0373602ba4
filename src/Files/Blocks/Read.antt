-- ===== src/Files/Blocks/Read.antt =====
-- The loop of `fs_read` of kernel/fs.c over a chain of blocks.
use rink_os.Prelude.{
  ℕ, zero, suc, ◌+◌, ◌*◌, ◌≤◌, ◌<◌, ◌≡◌, sym, refl, ap, ap₂, ◌∙◌, true, List, [], ◌∷◌, ◌++◌, arith,
  length, get_or, drop,
}
use rink_os.Disk.{Buf, Disk}
use rink_os.Dirent.{bytes_at}
use rink_os.Fat.{bytes_per_sector, fat_read, in_chain}
use rink_os.Fat.Chain.{Chain}
use rink_os.Files.Blocks.{block, read_loop}
use rink_os.Files.Blocks.Write.{chunk_at, Contents}

drop-get_or : (xs : List ℕ) (w : ℕ) → w < length xs → drop w xs ≡ get_or xs w 0 ∷ drop (w + 1) xs
drop-get_or [] w lt = absurd (omega arith)
drop-get_or (x ∷ xs) zero lt = let e : 1 ≡ 0 + 1 = omega arith in ap (λ n. x ∷ drop n (x ∷ xs)) e
drop-get_or (x ∷ xs) (suc w) lt =
    let e : suc (w + 1) ≡ suc w + 1 = omega arith in
    drop-get_or xs w (omega arith) ∙ ap (λ n. get_or xs w 0 ∷ drop n (x ∷ xs)) e

-- The bytes of a buffer that holds `xs` from `w` on, up to the end of its block.
bytes_at-drop :
    (buf : Buf) (xs : List ℕ) (off k w : ℕ)
    → w + k ≤ length xs
    → ((b : ℕ) → b < k → buf (off + b) ≡ get_or xs (w + b) 0)
    → bytes_at buf off k ++ drop (w + k) xs ≡ drop w xs
unfolding bytes_at
bytes_at-drop buf xs off zero w le h = ap (λ n. drop n xs) (omega arith)
bytes_at-drop buf xs off (suc k) w le h =
    let at_off : buf off ≡ buf (off + 0) = ap buf (omega arith) in
    let at_w : get_or xs (w + 0) 0 ≡ get_or xs w 0 = ap (λ n. get_or xs n 0) (omega arith) in
    let tail : drop (w + suc k) xs ≡ drop (w + 1 + k) xs = ap (λ n. drop n xs) (omega arith) in
    let ih =
      bytes_at-drop buf xs (off + 1) k (w + 1) (omega arith)
        (λ b lt. shift b ∙ h (suc b) (omega arith) ∙ back b) in
    ap₂ ◌∷◌ (at_off ∙ h 0 (omega arith) ∙ at_w) (ap (◌++◌ (bytes_at buf (off + 1) k)) tail ∙ ih)
    ∙ sym (drop-get_or xs w (omega arith))
  where
    shift : (b : ℕ) → buf (off + 1 + b) ≡ buf (off + suc b)
    shift b = ap buf (omega arith)

    back : (b : ℕ) → get_or xs (w + suc b) 0 ≡ get_or xs (w + 1 + b) 0
    back b = ap (λ n. get_or xs n 0) (omega arith)

block-drop :
    (bytes : List ℕ) (w k : ℕ)
    → w + k ≤ length bytes
    → bytes_at (block bytes w k) 0 k ++ drop (w + k) bytes ≡ drop w bytes
unfolding block
block-drop bytes w k le = bytes_at-drop (block bytes w k) bytes 0 k w le in_block
  where
    in_block : (b : ℕ) → b < k → block bytes w k (0 + b) ≡ get_or bytes (w + b) 0
    in_block b lt =
        let e : w + (0 + b) ≡ w + b = omega arith in
        ground (arith, ap (λ (n : ℕ). get_or bytes n 0) e)

drop-all : (xs : List ℕ) (w : ℕ) → length xs ≤ w → drop w xs ≡ []
drop-all [] zero le = refl
drop-all [] (suc w) le = refl
drop-all (x ∷ xs) zero le = absurd (omega arith)
drop-all (x ∷ xs) (suc w) le = drop-all xs w (omega arith)

-- A chain that holds the bytes from `w` on, and is long enough for them, reads as those bytes.
pub read_loop-Contents :
    (bytes : List ℕ) (d : Disk) (cs : List ℕ) (c w : ℕ)
    → Chain d c cs
    → Contents d bytes w cs
    → w ≤ length bytes
    → length bytes ≤ w + bytes_per_sector * length cs
    → read_loop (length cs) c (length bytes) w d ≡ drop w bytes
unfolding read_loop
read_loop-Contents bytes d [] c w ch h lo le = sym (drop-all bytes w (omega arith))
read_loop-Contents bytes d (x ∷ xs) c w ch h lo le =
    let k = chunk_at bytes w in
    let goes : in_chain x ≡ true = ground arith in
    let rest =
      read_loop-Contents bytes d xs (fat_read d x) (w + k) ch.3 h.1 (omega arith) (omega arith) in
    rw (ch.0, goes, h.0, rest) (block-drop bytes w k (omega arith))
