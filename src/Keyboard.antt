-- ===== src/Keyboard.antt =====
-- kernel/keyboard.c: the scancode tables, the interrupt handler and the ring of typed characters.
pub mod Ring
pub mod Handler
use rink_os.Prelude.{
  ℕ, zero, suc, ◌+◌, ◌-◌, ◌/◌, ◌%◌, Bool, true, false, ◌&&◌, ◌||◌, not, Option, none, some, List,
  [], ◌∷◌, ◌++◌, ltb, leb, ◌==◌, get_or, if◌then◌else◌,
}

abbrev pub keyboard_buffer_size : ℕ
keyboard_buffer_size = 128

-- The static variables of the file; `buffer` is read at indices below 128.
pub record Keyboard : Type 0 where
  pub buffer : ℕ → ℕ
  pub buffer_read : ℕ
  pub buffer_write : ℕ
  pub shift_pressed : Bool
  pub capslock_on : Bool

-- The entries behind 0x39 are 0.
abbrev pub keyboard_map : List ℕ
keyboard_map =
    0 ∷ 27 ∷ b'1' ∷ b'2' ∷ b'3' ∷ b'4' ∷ b'5' ∷ b'6' ∷ b'7' ∷ b'8' ∷ b'9' ∷ b'0' ∷ b'-' ∷ b'=' ∷ 8
    ∷ 9 ∷ b'q' ∷ b'w' ∷ b'e' ∷ b'r' ∷ b't' ∷ b'y' ∷ b'u' ∷ b'i' ∷ b'o' ∷ b'p' ∷ b'[' ∷ b']' ∷ 10 ∷ 0
    ∷ b'a' ∷ b's' ∷ b'd' ∷ b'f' ∷ b'g' ∷ b'h' ∷ b'j' ∷ b'k' ∷ b'l' ∷ b';' ∷ 39 ∷ b'`' ∷ 0 ∷ 92
    ∷ b'z' ∷ b'x' ∷ b'c' ∷ b'v' ∷ b'b' ∷ b'n' ∷ b'm' ∷ b',' ∷ b'.' ∷ b'/' ∷ 0 ∷ b'*' ∷ 0 ∷ b' ' ∷ []

abbrev pub keyboard_map_shift : List ℕ
keyboard_map_shift =
    0 ∷ 27 ∷ b'!' ∷ b'@' ∷ b'#' ∷ b'$' ∷ b'%' ∷ b'^' ∷ b'&' ∷ b'*' ∷ b'(' ∷ b')' ∷ b'_' ∷ b'+' ∷ 8
    ∷ 9 ∷ b'Q' ∷ b'W' ∷ b'E' ∷ b'R' ∷ b'T' ∷ b'Y' ∷ b'U' ∷ b'I' ∷ b'O' ∷ b'P' ∷ b'{' ∷ b'}' ∷ 10 ∷ 0
    ∷ b'A' ∷ b'S' ∷ b'D' ∷ b'F' ∷ b'G' ∷ b'H' ∷ b'J' ∷ b'K' ∷ b'L' ∷ b':' ∷ b'"' ∷ b'~' ∷ 0 ∷ b'|'
    ∷ b'Z' ∷ b'X' ∷ b'C' ∷ b'V' ∷ b'B' ∷ b'N' ∷ b'M' ∷ b'<' ∷ b'>' ∷ b'?' ∷ 0 ∷ b'*' ∷ 0 ∷ b' ' ∷ []

unfoldable pub plain : ℕ → ℕ
plain scancode = get_or keyboard_map scancode 0

unfoldable pub shifted : ℕ → ℕ
shifted scancode = get_or keyboard_map_shift scancode 0

unfoldable pub is_letter : ℕ → Bool
is_letter c = leb b'a' c && leb c b'z'

unfoldable pub keyboard_push : Keyboard → ℕ → Keyboard
keyboard_push k c =
    let next = (k.buffer_write + 1) % keyboard_buffer_size in
    if next == k.buffer_read then k else record k {
      buffer = λ i. if i == k.buffer_write then c else k.buffer i;
      buffer_write = next;
    }

-- `none` while the buffer is empty, where the code waits for an interrupt.
unfoldable pub keyboard_getchar : Keyboard → Option (ℕ × Keyboard)
keyboard_getchar k =
    if k.buffer_read == k.buffer_write
    then none
    else some (
      k.buffer k.buffer_read,
      record k { buffer_read = (k.buffer_read + 1) % keyboard_buffer_size },
    )

-- The character of a key, 0 for none.
unfoldable pub key_char : Keyboard → ℕ → ℕ
key_char k scancode =
    let c = if k.shift_pressed then shifted scancode else plain scancode in
    if k.capslock_on && is_letter (plain scancode)
    then (if k.shift_pressed then plain scancode else shifted scancode)
    else c

-- `outb(port, value)`
abbrev pub Out : Type 0
Out = ℕ × ℕ

-- `outb(0x20, 0x20)`, the end of the interrupt
abbrev pub eoi : List Out
eoi = (0x20, 0x20) ∷ []

-- The handler at the scancode that it reads from port 0x60, and its port writes.
unfoldable pub keyboard_handler : Keyboard → ℕ → Keyboard × List Out
keyboard_handler k scancode =
    if (scancode == 0x2A) || (scancode == 0x36)
    then (record k { shift_pressed = true }, eoi)
    else if (scancode == 0xAA) || (scancode == 0xB6)
    then (record k { shift_pressed = false }, eoi)
    else if scancode == 0x3A
    then (record k { capslock_on = not k.capslock_on }, eoi)
    else if scancode / 128 % 2 == 1
    then (k, eoi)
    else if ltb scancode 128
    then (if key_char k scancode == 0 then k else keyboard_push k (key_char k scancode), eoi)
    else (k, eoi)
