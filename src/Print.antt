-- ===== src/Print.antt =====
-- The number printers of the kernel: `kprint_hex32` of kernel/kernel.c and `kprint_uint` of
-- kernel/shell.c, as the bytes that they hand to `kprint`; and the number that `cmd_kill` reads.
pub mod Decimal
use rink_os.Prelude.{
  ℕ, zero, suc, ◌+◌, ◌-◌, ◌*◌, ◌/◌, ◌%◌, ◌^◌, List, [], ◌∷◌, Bool, ◌&&◌, ltb, leb, ◌==◌,
  if◌then◌else◌,
}

-- `"0123456789ABCDEF"[n]`
unfoldable pub hex_digit : ℕ → ℕ
hex_digit n = if ltb n 10 then b'0' + n else b'A' + (n - 10)

-- The digits from index `8 - n` on: `hex[(val >> ((7 - i) * 4)) & 0xF]`.
unfoldable pub hex_digits : ℕ → ℕ → List ℕ
unfolding hex_digit
hex_digits zero val = []
hex_digits (suc n) val = hex_digit (val / 2 ^ (n * 4) % 16) ∷ hex_digits n val

unfoldable pub hex32 : ℕ → List ℕ
unfolding hex_digits
hex32 val = b'0' ∷ b'x' ∷ hex_digits 8 val

-- The loop of `kprint_uint`, which fills its buffer from the right; ten rounds serve a `uint32_t`.
unfoldable pub uint_loop : ℕ → ℕ → List ℕ → List ℕ
uint_loop zero val buf = buf
uint_loop (suc k) val buf =
    let rest = uint_loop k (val / 10) ((b'0' + val % 10) ∷ buf) in if val == 0 then buf else rest

unfoldable pub print_uint : ℕ → List ℕ
print_uint val = if val == 0 then b'0' ∷ [] else uint_loop 10 val []

-- `args[i] >= '0' && args[i] <= '9'`
abbrev pub is_digit : ℕ → Bool
is_digit c = leb b'0' c && leb c b'9'

-- The loop of `cmd_kill` from the value `id` on, an `int` by its bit pattern.
unfoldable pub read_id : ℕ → List ℕ → ℕ
read_id id [] = id
read_id id (c ∷ s) =
    let rest = read_id ((id * 10 + (c - b'0')) % 2 ^ 32) s in if is_digit c then rest else id
