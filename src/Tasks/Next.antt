-- ===== src/Tasks/Next.antt =====
-- The choice of the next task in `schedule` of kernel/task.c.
use rink_os.Prelude.{
  ℕ, zero, suc, ◌+◌, ◌-◌, ◌%◌, ◌≤◌, ◌<◌, ◌≡◌, ◌∙◌, sym, ap, true, false, Bool-cases, inl, inr, some,
  arith, ltb, ltb→lt, if◌then◌else◌,
}
use native.Mathlib.Nat.{mod-add-mod, mod-eq_of_lt, add-mod_right, mod-eq-sub-mod}
use native.Mathlib.Decide.{dec_lt}
use rink_os.Tasks.{Task, find_next}

-- `m` steps round from `i` stands the first task in use.
pub record FirstUsed (tasks : ℕ → Task) (count i m : ℕ) : Type 0 where
  pub used : (tasks ((i + m) % count)).used ≡ true
  pub skipped : (n : ℕ) → n < m → (tasks ((i + n) % count)).used ≡ false

module _ (tasks : ℕ → Task) (count : ℕ) where
  -- If some task within `k` steps is in use, the loop stops at the first such task.
  pub find_next-FirstUsed :
      (k i t : ℕ)
      → t < k
      → (tasks ((i + t) % count)).used ≡ true
      → (m : ℕ) × (m ≤ t)
        × (find_next k tasks count (i % count) ≡ some ((i + m) % count))
        × FirstUsed tasks count i m
  unfolding find_next
  find_next-FirstUsed zero i t lt h = absurd (omega arith)
  find_next-FirstUsed (suc k) i zero lt h =
      let now : (i + 0) % count ≡ i % count = ap (λ n. n % count) (omega arith) in
      (0, omega arith, rw (← now, h), record { used = h; skipped = λ n l. absurd (omega arith) })
  find_next-FirstUsed (suc k) i (suc t) lt h =
      let now : (i + 0) % count ≡ i % count = ap (λ n. n % count) (omega arith) in
      let shift : (n : ℕ) → (i + 1 + n) % count ≡ (i + suc n) % count =
        λ n. ap (λ n. n % count) (omega arith) in
      elim (Bool-cases (tasks (i % count)).used) [
        | inl here ↦ (
          0,
          omega arith,
          rw here (ap some (sym now)),
          record { used = rw now here; skipped = λ n l. absurd (omega arith) },
        )
        | inr free ↦
            let (m, le, run, first) = find_next-FirstUsed k (i + 1) t (omega arith) (rw shift h) in
            (
              suc m,
              omega arith,
              rw (free, mod-add-mod) (run ∙ ap some (shift m)),
              record {
                used = rw (← shift m) first.used;
                skipped = skipped_suc i m (rw now free) shift first.skipped;
              },
            )
      ]
    where
      skipped_suc :
          (i m : ℕ)
          → (tasks ((i + 0) % count)).used ≡ false
          → ((n : ℕ) → (i + 1 + n) % count ≡ (i + suc n) % count)
          → ((n : ℕ) → n < m → (tasks ((i + 1 + n) % count)).used ≡ false)
          → (n : ℕ) → n < suc m
          → (tasks ((i + n) % count)).used ≡ false
      skipped_suc i m free shift rest zero l = free
      skipped_suc i m free shift rest (suc n) l = rw (← shift n) (rest n (omega arith))

-- The steps from `i` round to `j`, for numbers below `count`.
unfoldable pub steps_to : ℕ → ℕ → ℕ → ℕ
steps_to count i j = if ltb j i then j + count - i else j - i

pub steps_to_lem :
    (count i j : ℕ)
    → i < count
    → j < count
    → (steps_to count i j < count) × ((i + steps_to count i j) % count ≡ j)
unfolding steps_to
steps_to_lem count i j hi hj = elim (Bool-cases (ltb j i)) [
  | inl back ↦
      let lt = ltb→lt j i back in
      rw back
        (omega arith, ap (λ n. n % count) (omega arith) ∙ add-mod_right j count ∙ mod-eq_of_lt hj)
  | inr on ↦
      let le : i ≤ j = ground arith in
      rw on (omega arith, ap (λ n. n % count) (omega arith) ∙ mod-eq_of_lt hj)
]

-- Going `n` steps round from `i` leads to the number that is `n` steps away.
pub steps_to-add : (count i n : ℕ) → i < count → n < count → steps_to count i ((i + n) % count) ≡ n
unfolding steps_to
steps_to-add count i n hi hn = elim (dec_lt (i + n) count) [
  | yes below ↦ rw (mod-eq_of_lt below) (ground arith)
  | no wraps ↦
      let once : (i + n) % count ≡ i + n - count =
        mod-eq-sub-mod {n = i + n} {m = count} (omega arith) ∙ mod-eq_of_lt (omega arith) in
      rw once (ground arith)
]
