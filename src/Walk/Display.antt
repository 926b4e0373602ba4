-- ===== src/Walk/Display.antt =====
-- The display path of kernel/fs.c.
use rink_os.Prelude.{
  ℕ, zero, suc, ◌+◌, ◌-◌, ◌≤◌, ◌<◌, ◌≡◌, ◌≢◌, ◌⊎◌, ◌∙◌, refl, sym, ap, true, false, inl, inr, List,
  [], ◌∷◌, ◌++◌, arith, length, length-append, length-take, append_assoc, get_or, take, ◌==◌, ltb,
  leb, if◌then◌else◌,
}
use native.Mathlib.Decide.{ℕ_discrete}
use rink_os.Dirent.{Dirent}
use rink_os.Names.{dirent_to_display}
use rink_os.Walk.{slash, path_append, path_trim_last, back_to_slash}

-- path_append to a string that fits its buffer leaves a string that fits it, with its NUL.
pub length-path_append :
    (path : List ℕ) (buf_len : ℕ) (entry : Dirent)
    → length path < buf_len
    → length (path_append path buf_len entry) < buf_len
unfolding path_append
length-path_append path buf_len entry h = ground (
  arith,
  length-append path (slash ∷ []),
  length-append path (take (buf_len - 1 - length path) (dirent_to_display entry)),
  length-append (path ++ slash ∷ [])
      (take (buf_len - 1 - length (path ++ slash ∷ [])) (dirent_to_display entry)),
  length-take (buf_len - 1 - length path) (dirent_to_display entry),
  length-take (buf_len - 1 - length (path ++ slash ∷ [])) (dirent_to_display entry),
)

back_to_slash-at :
    (path : List ℕ) (m n : ℕ)
    → m ≤ n
    → get_or path m 0 ≡ slash
    → ((i : ℕ) → m < i → i ≤ n → get_or path i 0 ≢ slash)
    → back_to_slash path n ≡ m
unfolding back_to_slash
back_to_slash-at path m zero le here none_after = omega arith
back_to_slash-at path m (suc n) le here none_after = elim (ℕ_discrete m (suc n)) [
  | yes e ↦ let hit : get_or path (suc n) 0 ≡ slash = rw (sym e) here in ground arith
  | no ne ↦
      let miss = none_after (suc n) (omega arith) (omega arith) in
      let ih =
        back_to_slash-at path m n (omega arith) here (λ i lo hi. none_after i lo (omega arith)) in
      ground arith
]

get_or-append_right : (xs ys : List ℕ) (i : ℕ) → get_or (xs ++ ys) (length xs + i) 0 ≡ get_or ys i 0
get_or-append_right [] ys i = ap (λ n. get_or ys n 0) (omega arith)
get_or-append_right (x ∷ xs) ys i =
    let q : suc (length xs) + i ≡ suc (length xs + i) = omega arith in
    ap (λ n. get_or (x ∷ xs ++ ys) n 0) q ∙ get_or-append_right xs ys i

pub take-all : (xs : List ℕ) (n : ℕ) → length xs ≤ n → take n xs ≡ xs
take-all [] zero h = refl
take-all [] (suc n) h = refl
take-all (x ∷ xs) zero h = absurd (omega arith)
take-all (x ∷ xs) (suc n) h = ap (◌∷◌ x) (take-all xs n (omega arith))

take-append : (xs ys : List ℕ) → take (length xs) (xs ++ ys) ≡ xs
take-append [] ys = refl
take-append (x ∷ xs) ys = ap (◌∷◌ x) (take-append xs ys)

-- No byte is a slash.
abbrev pub NoSlash : List ℕ → Type 0
NoSlash [] = Unit
NoSlash (c ∷ s) = (c ≢ slash) × NoSlash s

get_or-NoSlash : (s : List ℕ) (i : ℕ) → NoSlash s → get_or s i 0 ≢ slash
get_or-NoSlash [] i h = omega arith
get_or-NoSlash (c ∷ s) zero h = h.0
get_or-NoSlash (c ∷ s) (suc i) h = get_or-NoSlash s i h.1

-- The last slash of a path that ends in a component.
back_to_slash-component :
    (path name : List ℕ)
    → NoSlash name
    → back_to_slash (path ++ slash ∷ name) (length path + length name) ≡ length path
back_to_slash-component path name h =
    let q : length path ≡ length path + 0 = omega arith in
    back_to_slash-at (path ++ slash ∷ name) (length path) (length path + length name) (omega arith)
      (ap (λ n. get_or (path ++ slash ∷ name) n 0) q ∙ get_or-append_right path (slash ∷ name) 0)
      (λ i lo hi.
        let r : i ≡ length path + suc (i - length path - 1) = omega arith in
        let at_i : get_or (path ++ slash ∷ name) i 0 ≡ get_or name (i - length path - 1) 0 =
          ap (λ n. get_or (path ++ slash ∷ name) n 0) r
          ∙ get_or-append_right path (slash ∷ name) (suc (i - length path - 1)) in
        λ e. get_or-NoSlash name (i - length path - 1) h (sym at_i ∙ e))

cut :
    (path name : List ℕ)
    → take (if length path == 0 then 1 else length path) (path ++ slash ∷ name)
      ≡ (if length path == 0 then slash ∷ [] else path)
cut [] name = refl
cut (c ∷ path) name =
    let some_byte : (suc (length path) == 0) ≡ false = ground arith in
    rw some_byte (take-append (c ∷ path) (slash ∷ name))

path_trim_last-component :
    (path name : List ℕ)
    → NoSlash name
    → length name ≢ 0
    → path_trim_last (path ++ slash ∷ name) ≡ (if length path == 0 then slash ∷ [] else path)
unfolding path_trim_last
path_trim_last-component path name h ne =
    let size = length-append path (slash ∷ name) in
    let long : leb (length (path ++ slash ∷ name)) 1 ≡ false = ground arith in
    let last : length (path ++ slash ∷ name) - 1 ≡ length path + length name = omega arith in
    rw (long, last, back_to_slash-component path name h) (cut path name)

-- A display path: the root's, or one of two bytes or more.
abbrev pub IsDisplay : List ℕ → Type 0
IsDisplay path = (path ≡ slash ∷ []) ⊎ (1 < length path)

-- For a display path that is a single slash or longer than one byte, and an entry whose displayed
-- name is not empty, has no slash and fits the buffer, path_trim_last undoes path_append.
pub path_trim_last-path_append :
    (path : List ℕ) (buf_len : ℕ) (entry : Dirent)
    → IsDisplay path
    → NoSlash (dirent_to_display entry)
    → length (dirent_to_display entry) ≢ 0
    → length path + 1 + length (dirent_to_display entry) < buf_len
    → path_trim_last (path_append path buf_len entry) ≡ path
unfolding path_append
path_trim_last-path_append path buf_len entry (inl top) h ne fits =
    let all = take-all (dirent_to_display entry) (buf_len - 1 - 1) (omega (arith, ap length top)) in
    rw (top, all) (path_trim_last-component [] (dirent_to_display entry) h ne)
path_trim_last-path_append path buf_len entry (inr long) h ne fits =
    let disp = dirent_to_display entry in
    let wants : ltb 1 (length path) ≡ true = ground arith in
    let room : ltb (length path) (buf_len - 1) ≡ true = ground arith in
    let size = length-append path (slash ∷ []) in
    let all : take (buf_len - 1 - length (path ++ slash ∷ [])) disp ≡ disp =
      take-all disp (buf_len - 1 - length (path ++ slash ∷ [])) (omega arith) in
    let some_byte : (length path == 0) ≡ false = ground arith in
    let back : path_trim_last (path ++ slash ∷ disp) ≡ path =
      path_trim_last-component path disp h ne ∙ rw some_byte refl in
    rw (wants, room, all) (ap path_trim_last (append_assoc path (slash ∷ []) disp) ∙ back)
