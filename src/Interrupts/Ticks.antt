-- ===== src/Interrupts/Ticks.antt =====
-- A sequence of timer interrupts, of kernel/timer.c with the scheduler of kernel/task.c.
use rink_os.Prelude.{
  ℕ, suc, ◌+◌, ◌/◌, ◌%◌, ◌^◌, ◌<◌, ◌≡◌, ◌∙◌, refl, ap, Bool-cases, inl, inr, Option, none, some,
  List, [], ◌∷◌, arith, length, ◌==◌,
}
use rink_os.Tasks.{Sched, Switch, stay, schedule}
use rink_os.Tasks.Inv.{IsValid}
use rink_os.Tasks.Fair.{schedule-IsValid}
use rink_os.Interrupts.{Timer, tick, timer_handler, timer_get_seconds}

-- The handler once for each stack pointer that an interrupt finds; `none` once a call does not
-- return.
unfoldable pub timer_interrupts : List ℕ → Timer → Sched → Option (Timer × Sched)
timer_interrupts [] t s = some (t, s)
timer_interrupts (esp ∷ later) t s = elim (timer_handler esp t s) [
  | none ↦ none
  | some (t', out, s', switch) ↦ timer_interrupts later t' s'
]

schedule_returns :
    (esp : ℕ) (s : Sched)
    → IsValid s
    → (s' : Sched) × (switch : Switch) × (schedule esp s ≡ some (s', switch)) × IsValid s'
unfolding schedule
schedule_returns esp s v = elim (Bool-cases (s.task_count == 0)) [
  | inl empty ↦ (s, stay, rw (empty, schedule) refl, v)
  | inr more ↦
      let (s', switch, runs, valid, r, now, used) = schedule-IsValid esp s (ground arith) v in
      (s', switch, runs, valid)
]

pub timer_handler-IsValid :
    (esp : ℕ) (t : Timer) (s : Sched)
    → IsValid s
    → (s' : Sched) × (switch : Switch) × (timer_handler esp t s
        ≡ some (tick t, (0x20, 0x20) ∷ [], s', switch))
      × IsValid s'
unfolding timer_handler
timer_handler-IsValid esp t s v =
    let (s', switch, runs, valid) = schedule_returns esp s v in
    (s', switch, rw (runs, timer_handler) refl, valid)

-- From a valid task table and a count of ticks that fits its 32 bits, any sequence of timer
-- interrupts returns and leaves a valid table, and the uptime is then the old count and the number
-- of interrupts together, modulo 2 ^ 32, divided by the frequency.
pub timer_interrupts-IsValid :
    (esps : List ℕ) (t : Timer) (s : Sched)
    → IsValid s
    → t.ticks < 2 ^ 32
    → (t' : Timer) × (s' : Sched) × (timer_interrupts esps t s ≡ some (t', s'))
      × IsValid s'
      × (timer_get_seconds t' ≡ (t.ticks + length esps) % 2 ^ 32 / t.tick_frequency)
unfolding timer_interrupts timer_get_seconds tick
timer_interrupts-IsValid [] t s v fits =
    let q : t.ticks ≡ (t.ticks + 0) % 2 ^ 32 = omega arith in
    (t, s, refl, v, ap (λ n. n / t.tick_frequency) q)
timer_interrupts-IsValid (esp ∷ later) t s v fits =
    let (s₁, switch, here, v₁) = timer_handler-IsValid esp t s v in
    let (t', s', runs, valid, time) = timer_interrupts-IsValid later (tick t) s₁ v₁ (omega arith) in
    let q : ((t.ticks + 1) % 2 ^ 32 + length later) % 2 ^ 32
        ≡ (t.ticks + suc (length later)) % 2 ^ 32 =
      omega arith in
    (t', s', rw (here, timer_interrupts) runs, valid, time ∙ ap (λ n. n / t.tick_frequency) q)
