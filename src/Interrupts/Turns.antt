-- ===== src/Interrupts/Turns.antt =====
-- The turn of a task under the timer interrupts, of kernel/timer.c with the scheduler of
-- kernel/task.c.
use rink_os.Prelude.{
  ℕ, suc, ◌≤◌, ◌<◌, ◌≡◌, refl, true, inl, inr, some, List, [], ◌∷◌, arith, length, take,
}
use rink_os.Tasks.{Sched, Switch, schedule}
use rink_os.Tasks.Next.{steps_to, steps_to_lem}
use rink_os.Tasks.Fair.{start, start-lt, schedule-Scheduled, Scheduled-nearer}
use rink_os.Interrupts.{Timer, tick, timer_handler}
use rink_os.Interrupts.Ticks.{timer_interrupts}

-- After at most `n` of the interrupts, and at least one, the task is the current one.
abbrev pub Served : ℕ → List ℕ → Timer → Sched → ℕ → Type 0
Served n esps t s j =
    (k : ℕ) × (0 < k)
    × (k ≤ n)
    × (t' : Timer) × (s' : Sched) × (timer_interrupts (take k esps) t s ≡ some (t', s'))
    × (s'.current_task ≡ some j)

timer_handler-schedule :
    (esp : ℕ) (t : Timer) (s s₁ : Sched) (sw : Switch)
    → schedule esp s ≡ some (s₁, sw)
    → timer_handler esp t s ≡ some (tick t, (0x20, 0x20) ∷ [], s₁, sw)
unfolding timer_handler
timer_handler-schedule esp t s s₁ sw runs = rw (runs, timer_handler) refl

-- Each interrupt runs the task or brings it nearer.
within :
    (esps : List ℕ) (t : Timer) (s : Sched) (j : ℕ)
    → j < s.task_count
    → (s.tasks j).used ≡ true
    → steps_to s.task_count (start s) j < length esps
    → Served (suc (steps_to s.task_count (start s) j)) esps t s j
unfolding timer_interrupts
within [] t s j lt used enough = absurd (omega arith)
within (esp ∷ later) t s j lt used enough =
    let (s₁, sw, runs, chosen) = schedule-Scheduled esp j s lt used in
    let here = timer_handler-schedule esp t s s₁ sw runs in
    elim (Scheduled-nearer j s s₁ lt used chosen) [
      | inl now ↦ (1, omega arith, omega arith, tick t, s₁, rw (here, timer_interrupts) refl, now)
      | inr nearer ↦
          let (k, pos, le, t', s', rest, now) =
            within later (tick t) s₁ j (rw chosen.4 lt) (rw chosen.3 used) (omega arith) in
          (suc k, omega arith, omega arith, t', s', rw (here, timer_interrupts) rest, now)
    ]

-- With a task of the table in use, and at least as many timer interrupts as the table has tasks,
-- one among the first that many makes that task the current one, and all up to it return.
pub timer_interrupts-serve :
    (esps : List ℕ) (t : Timer) (s : Sched) (j : ℕ)
    → j < s.task_count
    → (s.tasks j).used ≡ true
    → s.task_count ≤ length esps
    → (k : ℕ) × (0 < k)
      × (k ≤ s.task_count)
      × (t' : Timer) × (s' : Sched) × (timer_interrupts (take k esps) t s ≡ some (t', s'))
      × (s'.current_task ≡ some j)
timer_interrupts-serve esps t s j lt used enough =
    let (away, there) = steps_to_lem s.task_count (start s) j (start-lt s (omega arith)) lt in
    let (k, pos, le, t', s', runs, now) = within esps t s j lt used (omega arith) in
    (k, pos, omega arith, t', s', runs, now)
