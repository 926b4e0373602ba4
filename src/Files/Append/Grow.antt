-- ===== src/Files/Append/Grow.antt =====
-- A chain of blocks that `fs_append` of kernel/fs.c makes longer.
use rink_os.Prelude.{ℕ, ◌≡◌, ◌≢◌, ◌∙◌, refl, ap, true, false, List, [], ◌∷◌, ◌++◌, arith, length}
use rink_os.Disk.{Disk}
use rink_os.Fat.{fat_read}
use rink_os.Fat.Room.{has}
use rink_os.Fat.Chain.{Chain}
use rink_os.Files.Others.{Apart}

-- The last cluster of a chain, 0 of none.
abbrev pub last_of : List ℕ → ℕ
last_of [] = 0
last_of (x ∷ []) = x
last_of (x ∷ y ∷ xs) = last_of (y ∷ xs)

pub has-last_of : (y : ℕ) (cs : List ℕ) → has (last_of (y ∷ cs)) (y ∷ cs) ≡ true
has-last_of y [] = ground arith
has-last_of y (z ∷ cs) = ground (arith, has-last_of z cs)

has-append :
    (a : ℕ) (xs ys : List ℕ) → has a xs ≡ false → has a ys ≡ false → has a (xs ++ ys) ≡ false
has-append a [] ys h h' = h'
has-append a (x ∷ xs) ys h h' = ground (arith, has-append a xs ys)

-- A chain whose last cluster now leads on to another.
pub Chain-append :
    (d d' : Disk) (c : ℕ) (cs ws : List ℕ)
    → length cs ≢ 0
    → Chain d c cs
    → ((a : ℕ) → has a cs ≡ true → a ≢ last_of cs → fat_read d' a ≡ fat_read d a)
    → Chain d' (fat_read d' (last_of cs)) ws
    → Apart ws cs
    → Chain d' c (cs ++ ws)
Chain-append d d' c [] ws ne ch same more apart = absurd (ne refl)
Chain-append d d' c (x ∷ []) ws ne ch same more apart = (ch.0, ch.1, apart x (ground arith), more)
Chain-append d d' c (x ∷ y ∷ cs) ws ne ch same more apart =
    let not_last : x ≢ last_of (y ∷ cs) = λ e.
      let here : has x (y ∷ cs) ≡ true = ap (λ a. has a (y ∷ cs)) e ∙ has-last_of y cs in
      cc (ch.2, here) in
    let link : fat_read d' x ≡ fat_read d x = same x (ground arith) not_last in
    let other : has x ws ≡ false = apart x (ground arith) in
    (
      ch.0,
      ch.1,
      has-append x (y ∷ cs) ws ch.2 other,
      rw link (
          Chain-append d d' (fat_read d x) (y ∷ cs) ws (λ e. absurd (omega arith)) ch.3
            (λ a i. same a (ground arith)) more (λ a i. apart a (ground arith))),
    )
