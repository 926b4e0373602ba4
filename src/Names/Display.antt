-- ===== src/Names/Display.antt =====
-- `dirent_to_display` of kernel/fs.c.
use rink_os.Prelude.{
  ℕ, zero, suc, ◌+◌, ◌-◌, ◌≤◌, ◌≡◌, ◌≢◌, refl, List, [], ◌∷◌, ◌++◌, arith, length, length-append,
  replicate,
}
use rink_os.Dirent.{Dirent}
use rink_os.Names.{
  to_upper, pad, name_loop, after_dot, ext_loop, split_name, until_space, dirent_to_display,
  component_len,
}

length-until_space : (s : List ℕ) → length (until_space s) ≤ length s
unfolding until_space
length-until_space [] = omega arith
length-until_space (c ∷ s) = ground (arith, length-until_space s)

-- The displayed name of an entry with a name of 8 bytes and an extension of 3, with its NUL, fits
-- the buffer of FS_COMPONENT_LEN bytes.
pub length-dirent_to_display :
    (d : Dirent)
    → length d.name ≡ 8
    → length d.ext ≡ 3
    → length (dirent_to_display d) + 1 ≤ component_len
unfolding dirent_to_display
length-dirent_to_display d hn he = ground (
  arith,
  length-until_space d.name,
  length-until_space d.ext,
  length-append {0} (until_space d.name) (b'.' ∷ until_space d.ext),
  length-append {0} (until_space d.name) [],
)

-- A byte of a stored name: no dot, no space, no NUL, no lower-case letter.
abbrev pub IsNameByte : ℕ → Type 0
IsNameByte c = (c ≢ b'.') × (c ≢ b' ') × (c ≢ 0) × (to_upper c ≡ c)

abbrev pub AllNameBytes : List ℕ → Type 0
AllNameBytes [] = Unit
AllNameBytes (c ∷ s) = IsNameByte c × AllNameBytes s

abbrev pub suffix : List ℕ → List ℕ
suffix [] = []
suffix (c ∷ s) = b'.' ∷ c ∷ s

until_space-replicate : (n : ℕ) → until_space (replicate n b' ') ≡ []
unfolding until_space
until_space-replicate zero = refl
until_space-replicate (suc n) = refl

until_space-append : (s : List ℕ) (n : ℕ) → AllNameBytes s → until_space (s ++ replicate n b' ') ≡ s
unfolding until_space
until_space-append [] n h = until_space-replicate n
until_space-append (c ∷ s) n h = ground (arith, until_space-append s n h.1)

name_loop-suffix :
    (n : ℕ) (base ext : List ℕ)
    → length base ≤ n
    → AllNameBytes base
    → name_loop n (base ++ suffix ext) ≡ (base, suffix ext)
unfolding name_loop
name_loop-suffix zero [] ext le h = refl
name_loop-suffix (suc n) [] [] le h = refl
name_loop-suffix (suc n) [] (c ∷ s) le h = refl
name_loop-suffix zero (c ∷ s) ext le h = absurd (omega arith)
name_loop-suffix (suc n) (c ∷ s) ext le h =
    ground (arith, name_loop-suffix n s ext (omega arith) h.1)

after_dot-suffix : (ext : List ℕ) → after_dot (suffix ext) ≡ ext
unfolding after_dot
after_dot-suffix [] = refl
after_dot-suffix (c ∷ s) = refl

ext_loop-NameBytes : (n : ℕ) (s : List ℕ) → length s ≤ n → AllNameBytes s → ext_loop n s ≡ s
unfolding ext_loop
ext_loop-NameBytes zero [] le h = refl
ext_loop-NameBytes zero (c ∷ s) le h = absurd (omega arith)
ext_loop-NameBytes (suc n) [] le h = refl
ext_loop-NameBytes (suc n) (c ∷ s) le h = ground (arith, ext_loop-NameBytes n s (omega arith) h.1)

display_lem :
    (d : Dirent) (base ext : List ℕ)
    → d.name ≡ pad 8 base
    → d.ext ≡ pad 3 ext
    → AllNameBytes base
    → AllNameBytes ext
    → dirent_to_display d ≡ base ++ suffix ext
unfolding dirent_to_display
display_lem d base [] hn he hb hx = rw (hn, he, until_space-append base (8 - length base) hb)
display_lem d base (c ∷ s) hn he hb hx =
    rw
      (
        hn,
        he,
        until_space-append base (8 - length base) hb,
        until_space-append (c ∷ s) (3 - length (c ∷ s)) hx,
      )
      (ground arith)

-- The displayed name of an entry with a padded name and extension of name bytes, where these are
-- at most 8 and 3 long, typed back, splits into the fields of that entry.
pub split_name-dirent_to_display :
    (d : Dirent) (base ext : List ℕ)
    → d.name ≡ pad 8 base
    → d.ext ≡ pad 3 ext
    → length base ≤ 8
    → length ext ≤ 3
    → AllNameBytes base
    → AllNameBytes ext
    → split_name (dirent_to_display d) ≡ (d.name, d.ext)
unfolding split_name
split_name-dirent_to_display d base ext hn he lb lx hb hx = rw (
  display_lem d base ext hn he hb hx,
  name_loop-suffix 8 base ext lb hb,
  after_dot-suffix ext,
  ext_loop-NameBytes 3 ext lx hx,
  hn,
  he,
)
