-- ===== src/Keyboard/Handler.antt =====
-- `keyboard_handler` of kernel/keyboard.c on runs of scancodes.
use rink_os.Prelude.{
  ℕ, ◌+◌, ◌-◌, ◌<◌, ◌≡◌, ◌∙◌, sym, refl, ap₂, Bool, true, false, ◌||◌, not, List, [], ◌∷◌, ◌++◌,
  append-nil, append_assoc, length-append, arith, length, leb, ◌==◌, every_below, every_below→at,
  if◌then◌else◌,
}
use mathlib.Core.Bool.{xor}
use rink_os.Keyboard.{
  Keyboard, keyboard_buffer_size, plain, shifted, is_letter, key_char, keyboard_push,
  keyboard_handler,
}
use rink_os.Keyboard.Ring.{IsValid, typed, keyboard_push-IsValid, typed-keyboard_push}

-- The shifted table has the upper-case letter of each letter of the plain one.
letters_table :
    every_below 128 (λ s. not (is_letter (plain s)) || (shifted s == plain s - 32)) ≡ true
unfolding every_below plain shifted is_letter
letters_table = refl

shifted-letter : (s : ℕ) → s < 128 → is_letter (plain s) ≡ true → shifted s ≡ plain s - 32
shifted-letter s lt letter =
    let row = every_below→at 128 _ s letters_table lt in ground (arith, row)

-- What a key is meant to type: a letter in upper case if exactly one of shift and caps lock is on,
-- any other key by shift alone.
unfoldable pub intended : Bool → Bool → ℕ → ℕ
intended shift caps s =
    if is_letter (plain s)
    then (if xor shift caps then plain s - 32 else plain s)
    else (if shift then shifted s else plain s)

-- The key of a scancode below 128 types a letter in upper case if exactly one of shift and caps
-- lock is on, and any other key goes by shift alone.
pub key_char-intended :
    (k : Keyboard) (s : ℕ) → s < 128 → key_char k s ≡ intended k.shift_pressed k.capslock_on s
unfolding key_char intended xor
key_char-intended k s lt = ground (arith, shifted-letter s lt)

unfoldable pub shift_after : Bool → ℕ → Bool
shift_after shift s =
    if (s == 0x2A) || (s == 0x36) then true else if (s == 0xAA) || (s == 0xB6) then false else shift

unfoldable pub caps_after : Bool → ℕ → Bool
caps_after caps s = if s == 0x3A then not caps else caps

-- What one scancode types; a release, from 128 on, and a modifier type nothing.
unfoldable pub typed_by : Bool → Bool → ℕ → List ℕ
typed_by shift caps s =
    if (s == 0x2A) || (s == 0x36) || (s == 0x3A) || leb 128 s
    then []
    else if intended shift caps s == 0
    then []
    else intended shift caps s ∷ []

-- What a run of scancodes types, from the state of the two modifiers.
unfoldable pub typing : Bool → Bool → List ℕ → List ℕ
typing shift caps [] = []
typing shift caps (s ∷ rest) =
    typed_by shift caps s ++ typing (shift_after shift s) (caps_after caps s) rest

-- The handler at each scancode in turn.
unfoldable pub handle_all : Keyboard → List ℕ → Keyboard
handle_all k [] = k
handle_all k (s ∷ rest) = handle_all (keyboard_handler k s).0 rest

modifiers-keyboard_push :
    (k : Keyboard) (c : ℕ)
    → ((keyboard_push k c).shift_pressed ≡ k.shift_pressed)
      × ((keyboard_push k c).capslock_on ≡ k.capslock_on)
unfolding keyboard_push
modifiers-keyboard_push k c = ground arith

module _ (k : Keyboard) (s : ℕ) (v : IsValid k) where
  pub handler-IsValid : IsValid (keyboard_handler k s).0
  unfolding keyboard_handler
  handler-IsValid = ground (arith, keyboard_push-IsValid k (key_char k s) v)

  handler-shift : (keyboard_handler k s).0.shift_pressed ≡ shift_after k.shift_pressed s
  unfolding keyboard_handler shift_after
  handler-shift = ground (arith, modifiers-keyboard_push k (key_char k s))

  handler-caps : (keyboard_handler k s).0.capslock_on ≡ caps_after k.capslock_on s
  unfolding keyboard_handler caps_after
  handler-caps = ground (arith, modifiers-keyboard_push k (key_char k s))

  -- One interrupt appends what its scancode types, where the ring has room for it.
  handler-typed :
      length (typed k) + length (typed_by k.shift_pressed k.capslock_on s) < keyboard_buffer_size
      → typed (keyboard_handler k s).0 ≡ typed k ++ typed_by k.shift_pressed k.capslock_on s
  unfolding keyboard_handler typed_by
  handler-typed room =
      ground
        (arith, append-nil (typed k), typed-keyboard_push k (key_char k s) v, key_char-intended k s)

-- From a valid ring, a run of scancodes that types no more than the ring has room for is waiting
-- in the ring in order, each character as shift and caps lock of its moment decide.
pub typed-handle_all :
    (k : Keyboard) (ss : List ℕ)
    → IsValid k
    → length (typed k) + length (typing k.shift_pressed k.capslock_on ss) < keyboard_buffer_size
    → typed (handle_all k ss) ≡ typed k ++ typing k.shift_pressed k.capslock_on ss
unfolding handle_all typing
typed-handle_all k [] v room = sym (append-nil (typed k))
typed-handle_all k (s ∷ rest) v room =
    let k' = (keyboard_handler k s).0 in
    let now = typed_by k.shift_pressed k.capslock_on s in
    let then' = typing (shift_after k.shift_pressed s) (caps_after k.capslock_on s) rest in
    let all = length-append now then' in
    let fits : length (typed k) + length now < keyboard_buffer_size = omega (arith, all) in
    let here : typed k' ≡ typed k ++ now = handler-typed k s v fits in
    let later : typing k'.shift_pressed k'.capslock_on rest ≡ then' =
      rw (handler-shift k s v, handler-caps k s v) in
    let both = length-append (typed k) now in
    let room' : length (typed k') + length (typing k'.shift_pressed k'.capslock_on rest)
        < keyboard_buffer_size =
      rw (here, later) (omega (arith, all, both)) in
    typed-handle_all k' rest (handler-IsValid k s v) room'
    ∙ ap₂ ◌++◌ here later
    ∙ append_assoc (typed k) now then'
