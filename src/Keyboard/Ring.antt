-- ===== src/Keyboard/Ring.antt =====
-- The ring of typed characters of kernel/keyboard.c as a queue.
use rink_os.Prelude.{
  ℕ, zero, suc, ◌+◌, ◌-◌, ◌%◌, ◌<◌, ◌≡◌, ◌≢◌, ◌∙◌, refl, ap, ap₂, Bool-cases, true, false, inl, inr,
  Option, none, some, List, [], ◌∷◌, ◌++◌, arith, length, ltb, ◌==◌, if◌then◌else◌,
}
use native.Mathlib.Decide.{ℕ_discrete}
use rink_os.Keyboard.{Keyboard, keyboard_buffer_size, keyboard_push, keyboard_getchar}

-- Both indices stay inside the buffer.
pub record IsValid (k : Keyboard) : Type 0 where
  pub read_in : k.buffer_read < keyboard_buffer_size
  pub write_in : k.buffer_write < keyboard_buffer_size

-- `n` characters from index `i` on, going round the buffer.
abbrev pub around : (ℕ → ℕ) → ℕ → ℕ → List ℕ
around buffer i zero = []
around buffer i (suc n) = buffer i ∷ around buffer ((i + 1) % keyboard_buffer_size) n

abbrev pub waiting : Keyboard → ℕ
waiting k = (k.buffer_write + keyboard_buffer_size - k.buffer_read) % keyboard_buffer_size

-- The characters typed and not yet read, oldest first.
abbrev pub typed : Keyboard → List ℕ
typed k = around k.buffer k.buffer_read (waiting k)

length-around : (buffer : ℕ → ℕ) (i n : ℕ) → length (around buffer i n) ≡ n
length-around buffer i zero = refl
length-around buffer i (suc n) = ap suc (length-around buffer ((i + 1) % keyboard_buffer_size) n)

-- A character stored where a stretch ends makes it one longer.
around-store :
    (buffer : ℕ → ℕ) (c n i w : ℕ)
    → i < keyboard_buffer_size
    → n < keyboard_buffer_size
    → (i + n) % keyboard_buffer_size ≡ w
    → around (λ j. if j == w then c else buffer j) i (suc n) ≡ around buffer i n ++ (c ∷ [])
around-store buffer c zero i w hi hn e = let here : (i == w) ≡ true = ground arith in rw here
around-store buffer c (suc n) i w hi hn e =
    let other : (i == w) ≡ false = ground arith in
    ap₂ ◌∷◌ (rw other) (
      around-store buffer c n ((i + 1) % keyboard_buffer_size) w (omega arith) (omega arith)
        (omega arith))

pub keyboard_push-IsValid : (k : Keyboard) (c : ℕ) → IsValid k → IsValid (keyboard_push k c)
unfolding keyboard_push
keyboard_push-IsValid k c v = ground arith

-- The state after a character is stored.
abbrev stored : Keyboard → ℕ → Keyboard
stored k c = record k {
  buffer = λ i. if i == k.buffer_write then c else k.buffer i;
  buffer_write = (k.buffer_write + 1) % keyboard_buffer_size;
}

module _ (k : Keyboard) (c : ℕ) (v : IsValid k) where
  push-full : waiting k ≡ keyboard_buffer_size - 1 → keyboard_push k c ≡ k
  unfolding keyboard_push
  push-full e =
      let hit : ((k.buffer_write + 1) % keyboard_buffer_size == k.buffer_read) ≡ true =
        ground arith in
      rw hit

  push-room : waiting k ≢ keyboard_buffer_size - 1 → keyboard_push k c ≡ stored k c
  unfolding keyboard_push
  push-room ne =
      let miss : ((k.buffer_write + 1) % keyboard_buffer_size == k.buffer_read) ≡ false =
        ground arith in
      rw miss

  typed-stored : waiting k ≢ keyboard_buffer_size - 1 → typed (stored k c) ≡ typed k ++ (c ∷ [])
  typed-stored ne =
      let longer : waiting (stored k c) ≡ suc (waiting k) = omega arith in
      ap (around (stored k c).buffer k.buffer_read) longer
      ∙ around-store k.buffer c (waiting k) k.buffer_read k.buffer_write (omega arith) (omega arith)
          (omega arith)

  -- keyboard_push on a valid ring appends the character to those waiting, or drops it where 127
  -- are waiting.
  pub typed-keyboard_push :
      typed (keyboard_push k c)
      ≡ (if ltb (length (typed k)) (keyboard_buffer_size - 1) then typed k ++ (c ∷ []) else typed k)
  typed-keyboard_push =
      let n = length-around k.buffer k.buffer_read (waiting k) in
      elim (ℕ_discrete (waiting k) (keyboard_buffer_size - 1)) [
        | yes full ↦
            let last : ltb (length (typed k)) 127 ≡ false = ground arith in
            rw last (ap typed (push-full full))
        | no room ↦
            let more : ltb (length (typed k)) 127 ≡ true = ground arith in
            rw more (ap typed (push-room room) ∙ typed-stored room)
      ]

-- What a read of one character does to the characters waiting.
abbrev pub Reads : List ℕ → Option (ℕ × Keyboard) → Type 0
Reads q none = q ≡ []
Reads q (some (c, k')) = (q ≡ c ∷ typed k') × IsValid k'

-- keyboard_getchar on a valid ring takes the oldest character and keeps the ring valid, and waits
-- only if there is none.
pub keyboard_getchar-Reads : (k : Keyboard) → IsValid k → Reads (typed k) (keyboard_getchar k)
unfolding keyboard_getchar
keyboard_getchar-Reads k v = elim (Bool-cases (k.buffer_read == k.buffer_write)) [
  | inl empty ↦
      let none_left : waiting k ≡ 0 = ground arith in
      rw empty (ap (around k.buffer k.buffer_read) none_left)
  | inr more ↦
      let one_left : waiting k ≡ suc (waiting (taken k)) = ground arith in
      rw more (ap (around k.buffer k.buffer_read) one_left, omega arith)
]
  where
    taken : Keyboard → Keyboard
    taken k = record k { buffer_read = (k.buffer_read + 1) % keyboard_buffer_size }
