-- ===== src/Shell/Numbers.antt =====
-- The numbers that commands of kernel/shell.c write and read: the name of a spawned task, and the
-- argument of `kill`.
use rink_os.Prelude.{
  ℕ, zero, suc, ◌+◌, ◌/◌, ◌%◌, ◌^◌, ◌≤◌, ◌<◌, ◌≡◌, ◌∙◌, refl, sym, ap, true, false, Bool-cases, inl,
  inr, List, [], ◌∷◌, ◌++◌, append-nil, append_assoc, arith, length, length-append, take, codes,
  ◌==◌,
}
use rink_os.Print.{print_uint, uint_loop}
use rink_os.Print.Decimal.{Digits, read_id-print_uint}
use rink_os.Tasks.{task_kill}
use rink_os.Machine.{Machine, after-nil}
use rink_os.Shell.{skip_space, str_eq}
use rink_os.Shell.Status.{digits_of, copy_back, spawn_name, on_kill, starts_with_digit, cmd_kill}
use rink_os.Shell.History.{history_add}
use rink_os.Shell.Command.{after_word, dispatch_files, dispatch, run_command}

uint_loop-append : (k n : ℕ) (buf : List ℕ) → uint_loop k n buf ≡ uint_loop k n [] ++ buf
unfolding uint_loop
uint_loop-append zero n buf = refl
uint_loop-append (suc k) n buf = elim (Bool-cases (n == 0)) [
  | inl stop ↦ rw stop refl
  | inr more ↦
      let d = b'0' + n % 10 in
      let here = uint_loop-append k (n / 10) (d ∷ buf) in
      let there = uint_loop-append k (n / 10) (d ∷ []) in
      rw more (
        here
        ∙ sym (append_assoc (uint_loop k (n / 10) []) (d ∷ []) buf)
        ∙ ap (λ ds. ds ++ buf) (sym there))
]

length-uint_loop : (k n : ℕ) → length (uint_loop k n []) ≤ k
unfolding uint_loop
length-uint_loop zero n = omega arith
length-uint_loop (suc k) n = elim (Bool-cases (n == 0)) [
  | inl stop ↦ rw stop (omega arith)
  | inr more ↦
      let d = b'0' + n % 10 in
      let split = uint_loop-append k (n / 10) (d ∷ []) in
      let both = length-append (uint_loop k (n / 10) []) (d ∷ []) in
      let before = length-uint_loop k (n / 10) in rw (more, split) (omega (arith, both, before))
]

-- A further round changes nothing.
uint_loop-suc : (k n : ℕ) (buf : List ℕ) → Digits k n → uint_loop (suc k) n buf ≡ uint_loop k n buf
unfolding uint_loop
uint_loop-suc zero n buf h = let z : (n == 0) ≡ true = ground arith in rw z refl
uint_loop-suc (suc k) n buf h = elim (Bool-cases (n == 0)) [
  | inl stop ↦ rw stop refl
  | inr more ↦ rw more (uint_loop-suc k (n / 10) ((b'0' + n % 10) ∷ buf) h)
]

take-all : {A : Type 0} (n : ℕ) (xs : List A) → length xs ≤ n → take n xs ≡ xs
take-all zero [] le = refl
take-all zero (x ∷ xs) le = absurd (omega arith)
take-all (suc n) [] le = refl
take-all (suc n) (x ∷ xs) le = ap (λ ys. x ∷ ys) (take-all n xs (omega arith))

name_fits :
    (k n : ℕ) (name : List ℕ)
    → length name + suc k ≤ 15
    → length (name ++ (uint_loop k (n / 10) [] ++ (b'0' + n % 10) ∷ [])) ≤ 15
name_fits k n name le = omega (
  arith,
  length-append name (uint_loop k (n / 10) [] ++ (b'0' + n % 10) ∷ []),
  length-append (uint_loop k (n / 10) []) ((b'0' + n % 10) ∷ []),
  length-uint_loop k (n / 10),
)

-- The digits copied back from the lowest-first buffer are those of the printer.
copy_back-digits_of :
    (k n : ℕ) (name : List ℕ)
    → length name + k ≤ 15
    → copy_back name (digits_of k n) ≡ name ++ uint_loop k n []
unfolding copy_back digits_of uint_loop
copy_back-digits_of zero n name le = sym (append-nil name)
copy_back-digits_of (suc k) n name le = elim (Bool-cases (n == 0)) [
  | inl stop ↦ rw stop (sym (append-nil name))
  | inr more ↦
      rw (more, copy_back-digits_of k (n / 10) name (omega arith))
        (ap (take 15) (append_assoc name (uint_loop k (n / 10) []) ((b'0' + n % 10) ∷ []))
          ∙ take-all 15 _ (name_fits k n name le)
          ∙ ap (λ ds. name ++ ds) (sym (uint_loop-append k (n / 10) ((b'0' + n % 10) ∷ []))))
]

copy_back-one : (d : ℕ) → copy_back (codes "task") (d ∷ []) ≡ codes "task" ++ d ∷ []
unfolding copy_back
copy_back-one d = refl

-- The name of the task number n below 10 ^ 8 is the text task and the digits that kprint_uint
-- prints of n.
pub spawn_name-print_uint : (n : ℕ) → n < 10 ^ 8 → spawn_name n ≡ codes "task" ++ print_uint n
unfolding spawn_name print_uint
spawn_name-print_uint n lt = elim (Bool-cases (n == 0)) [
  | inl stop ↦ rw stop (copy_back-one b'0')
  | inr more ↦
      let eight : Digits 8 n = omega arith in
      let nine : Digits 9 n = omega arith in
      rw more (
        copy_back-digits_of 8 n (codes "task") (omega arith)
        ∙ ap (λ ds. codes "task" ++ ds)
            (sym (uint_loop-suc 9 n [] nine ∙ uint_loop-suc 8 n [] eight)))
]

starts-uint_loop :
    (k n : ℕ) (buf : List ℕ)
    → starts_with_digit buf ≡ true
    → starts_with_digit (uint_loop k n buf) ≡ true
unfolding uint_loop starts_with_digit
starts-uint_loop zero n buf h = h
starts-uint_loop (suc k) n buf h = elim (Bool-cases (n == 0)) [
  | inl stop ↦ rw stop h
  | inr more ↦ rw more (starts-uint_loop k (n / 10) ((b'0' + n % 10) ∷ buf) (ground arith))
]

starts-print_uint : (n : ℕ) → starts_with_digit (print_uint n) ≡ true
unfolding print_uint uint_loop starts_with_digit
starts-print_uint n = elim (Bool-cases (n == 0)) [
  | inl stop ↦ rw stop refl
  | inr more ↦ rw more (starts-uint_loop 9 (n / 10) ((b'0' + n % 10) ∷ []) (ground arith))
]

starts-some : (s : List ℕ) → starts_with_digit s ≡ true → (length s == 0) ≡ false
unfolding starts_with_digit
starts-some [] h = absurd (ground arith)
starts-some (c ∷ s) h = ground arith

cmd_kill-print_uint :
    (id : ℕ) (m : Machine)
    → id < 2 ^ 31
    → cmd_kill (b' ' ∷ print_uint id) m ≡ on_kill id (task_kill id m.sched) m
unfolding cmd_kill skip_space
cmd_kill-print_uint id m lt =
    let digit = starts-print_uint id in
    rw (digit, starts-some (print_uint id) digit, read_id-print_uint id lt) refl

abbrev pub kill_line : ℕ → List ℕ
kill_line id = codes "kill " ++ print_uint id

history_add-sched : (line : List ℕ) (m : Machine) → (history_add line m).sched ≡ m.sched
unfolding history_add
history_add-sched line m = ground arith

-- The line of kill and the digits that kprint_uint prints of an id below 2 ^ 31 is task_kill of
-- that id and of no other, with the report that belongs to its result, behind the line's entry in
-- the history.
pub run_command-kill :
    (id : ℕ) (m : Machine)
    → id < 2 ^ 31
    → run_command (kill_line id) m
      ≡ on_kill id (task_kill id m.sched) (history_add (kill_line id) m)
unfolding run_command dispatch dispatch_files str_eq after_word
run_command-kill id m lt =
    let ne : (length (kill_line id) == 0) ≡ false = ground arith in
    let m' = history_add (kill_line id) m in
    rw ne (after-nil (cmd_kill (b' ' ∷ print_uint id) m'))
    ∙ cmd_kill-print_uint id m' lt
    ∙ ap (λ s. on_kill id (task_kill id s) m') (history_add-sched (kill_line id) m)
