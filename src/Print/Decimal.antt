-- ===== src/Print/Decimal.antt =====
-- `kprint_uint` and the loop of `cmd_kill` of kernel/shell.c.
use rink_os.Prelude.{
  ℕ, zero, suc, ◌+◌, ◌-◌, sym, ◌*◌, ◌/◌, ◌%◌, ◌^◌, ◌<◌, ◌≡◌, ◌∙◌, ap, true, Bool-cases, inl, inr,
  List, [], ◌∷◌, arith, ◌==◌,
}
use rink_os.Print.{uint_loop, print_uint, is_digit, read_id}

-- `k` rounds reach the last digit.
abbrev pub Digits : ℕ → ℕ → Type 0
Digits zero val = val ≡ 0
Digits (suc k) val = Digits k (val / 10)

pub uint32-Digits : (val : ℕ) → val < 2 ^ 32 → Digits 10 val
uint32-Digits val lt = omega arith

digit_read :
    (id d : ℕ) (s : List ℕ)
    → d < 10
    → id * 10 + d < 2 ^ 32
    → read_id id ((b'0' + d) ∷ s) ≡ read_id (id * 10 + d) s
unfolding read_id
digit_read id d s lt fits =
    let live : is_digit (b'0' + d) ≡ true = ground arith in
    let q : (id * 10 + (b'0' + d - b'0')) % 2 ^ 32 ≡ id * 10 + d = omega arith in
    rw live (ap (λ n. read_id n s) q)

read_id-uint_loop :
    (k val : ℕ) (buf : List ℕ)
    → Digits k val
    → val < 2 ^ 32
    → read_id 0 (uint_loop k val buf) ≡ read_id val buf
unfolding uint_loop
read_id-uint_loop zero val buf h lt = ap (λ n. read_id n buf) (sym h)
read_id-uint_loop (suc k) val buf h lt = elim (Bool-cases (val == 0)) [
  | inl none_left ↦ let q : 0 ≡ val = ground arith in rw none_left (ap (λ n. read_id n buf) q)
  | inr more ↦
      let q : val / 10 * 10 + val % 10 ≡ val = omega arith in
      rw more (
        read_id-uint_loop k (val / 10) ((b'0' + val % 10) ∷ buf) h (omega arith)
        ∙ digit_read (val / 10) (val % 10) buf (omega arith) (omega arith)
        ∙ ap (λ n. read_id n buf) q)
]

-- The digits that kprint_uint prints of a number below 2 ^ 31 are read by the loop of cmd_kill as
-- that number.
pub read_id-print_uint : (val : ℕ) → val < 2 ^ 31 → read_id 0 (print_uint val) ≡ val
unfolding print_uint read_id
read_id-print_uint val lt = elim (Bool-cases (val == 0)) [
  | inl zero_val ↦ let q : 0 ≡ val = ground arith in rw zero_val q
  | inr more ↦ rw more (read_id-uint_loop 10 val [] (uint32-Digits val (omega arith)) (omega arith))
]
