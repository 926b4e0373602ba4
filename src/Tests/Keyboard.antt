-- ===== src/Tests/Keyboard.antt =====
-- The driver of kernel/keyboard.c on a few keys.
use rink_os.Prelude.{ℕ, ◌+◌, ◌≡◌, refl, false, List, [], ◌∷◌, ◌++◌, arith, length}
use mathlib.Core.Bool.{xor}
use rink_os.Keyboard.{
  Keyboard, keyboard_push, key_char, keyboard_handler, plain, shifted, is_letter,
}
use rink_os.Keyboard.Ring.{IsValid, typed}
use rink_os.Keyboard.Handler.{
  intended, typing, typed_by, shift_after, caps_after, handle_all, typed-handle_all,
}

abbrev idle : Keyboard
idle = record {
  buffer = λ i. 0;
  buffer_read = 126;
  buffer_write = 126;
  shift_pressed = false;
  capslock_on = false;
}

idle-IsValid : IsValid idle
idle-IsValid = omega arith

-- Three characters wait, round the end of the buffer.
abbrev busy : Keyboard
busy = record idle { buffer = λ i. i; buffer_write = 1 }

busy-IsValid : IsValid busy
busy-IsValid = omega arith

-- Shift down, A, shift up, caps lock, S, 1.
abbrev keys : List ℕ
keys = 0x2A ∷ 0x1E ∷ 0x9E ∷ 0xAA ∷ 0x3A ∷ 0x1F ∷ 0x02 ∷ []

-- The ring goes round the end of the buffer.
typed_run : typed (handle_all idle keys) ≡ b'A' ∷ b'S' ∷ b'1' ∷ []
unfolding handle_all keyboard_handler keyboard_push key_char plain shifted is_letter
typed_run = refl

intends : typing false false keys ≡ b'A' ∷ b'S' ∷ b'1' ∷ []
unfolding typing typed_by intended shift_after caps_after plain shifted is_letter xor
intends = refl

three_keys : length (typed idle) + length (typing false false keys) ≡ 3
three_keys = rw intends refl

typed-handle_all_example : typed (handle_all idle keys) ≡ typed idle ++ typing false false keys
typed-handle_all_example = typed-handle_all idle keys idle-IsValid (omega (arith, three_keys))
