-- ===== src/Files/Blocks/Round.antt =====
-- The loops of `fs_write` and `fs_read` of kernel/fs.c together.
use rink_os.Prelude.{ℕ, ◌+◌, ◌*◌, ◌^◌, ◌≤◌, ◌<◌, ◌≡◌, ◌∙◌, refl, List, [], ◌∷◌, arith, length}
use rink_os.Disk.{Disk}
use rink_os.Fat.{bytes_per_sector, end_cluster, cluster_to_lba, fat_read}
use rink_os.Fat.Room.{Distinct}
use rink_os.Fat.Chain.{IsData, Chain, Chain-frame}
use rink_os.Files.{clusters_for}
use rink_os.Files.Blocks.{wrote, write_loop, read_loop}
use rink_os.Files.Blocks.Write.{chunk_at, Contents, Written}
use rink_os.Files.Blocks.Total.{AllFree, write_loop-wrote}
use rink_os.Files.Blocks.Read.{read_loop-Contents}

-- The sizes for which the sum in `clusters_for` does not wrap.
abbrev pub FitsWord : ℕ → Type 0
FitsWord size = size + bytes_per_sector ≤ 2 ^ 32

pub clusters_for-bounds :
    (size : ℕ) → FitsWord size → size ≤ 0 + bytes_per_sector * clusters_for size
unfolding clusters_for
clusters_for-bounds size h = omega arith

pub clusters_for-least :
    (size : ℕ) → FitsWord size → bytes_per_sector * clusters_for size < size + bytes_per_sector
unfolding clusters_for
clusters_for-least size h = omega arith

-- `e` has the links and the data blocks of `d`.
pub record SameFiles (d e : Disk) : Type 0 where
  pub links : (a : ℕ) → a < end_cluster → fat_read e a ≡ fat_read d a
  pub blocks : (a : ℕ) → IsData a → e (cluster_to_lba a) ≡ d (cluster_to_lba a)

pub Contents-frame :
    (d e : Disk) (bytes : List ℕ) (c w : ℕ) (cs : List ℕ)
    → SameFiles d e
    → Chain d c cs
    → Contents d bytes w cs
    → Contents e bytes w cs
Contents-frame d e bytes c w [] same ch h = tt
Contents-frame d e bytes c w (x ∷ xs) same ch h = (
  same.blocks x ch.1 ∙ h.0,
  Contents-frame d e bytes (fat_read d x) (w + chunk_at bytes w) xs same ch.3 h.1,
)

-- What the loop has written is read back, also from a disk that differs outside table and data.
pub Written-read_loop :
    (bytes : List ℕ) (d d' e : Disk) (f : ℕ) (cs : List ℕ)
    → FitsWord (length bytes)
    → Written (clusters_for (length bytes)) 0 0 0 bytes d f d' cs
    → SameFiles d' e
    → read_loop (clusters_for (length bytes)) f (length bytes) 0 e ≡ bytes
Written-read_loop bytes d d' e f cs fits w same =
    let ch : Chain e f cs = Chain-frame d' e f cs (λ a lt i. same.links a lt) w.chain in
    let le : length bytes ≤ 0 + bytes_per_sector * length cs =
      omega (arith, clusters_for-bounds (length bytes) fits, w.count) in
    let back =
      read_loop-Contents bytes e cs f 0 ch
        (Contents-frame d' e bytes f 0 cs same w.chain w.contents) (omega arith) le in
    rw w.count at back

-- With enough distinct free data clusters, and a size that with a sector does not pass 2 ^ 32, the
-- loop of fs_write succeeds, and the loop of fs_read, started at the cluster that it returns,
-- gives the bytes back.
pub read_loop-write_loop :
    (bytes : List ℕ) (d : Disk) (room : List ℕ)
    → FitsWord (length bytes)
    → Distinct room
    → AllFree d room
    → clusters_for (length bytes) ≤ length room
    → (f : ℕ) × (d' : Disk) × (write_loop (clusters_for (length bytes)) 0 0 0 bytes d ≡ wrote f d')
      × (read_loop (clusters_for (length bytes)) f (length bytes) 0 d' ≡ bytes)
read_loop-write_loop bytes d room fits distinct free enough =
    let (f, d', cs, e, w) =
      write_loop-wrote (clusters_for (length bytes)) bytes d room distinct free enough in
    let same : SameFiles d' d' = record { links = λ a lt. refl; blocks = λ a h. refl } in
    (f, d', e, Written-read_loop bytes d d' d' f cs fits w same)
