-- ===== src/Tasks/Fair.antt =====
-- `schedule` of kernel/task.c over several steps.
use rink_os.Prelude.{
  ℕ, ◌+◌, ◌-◌, ◌%◌, ◌≤◌, ◌<◌, ◌≡◌, ◌≢◌, ◌∙◌, ◌⊎◌, sym, ap, true, false, inl, inr, Option, none,
  some, arith, ◌==◌,
}
use native.Mathlib.Decide.{dec_lt}
use native.Mathlib.Nat.{mod-lt, mod-eq_of_lt, mod-add-mod}
use rink_os.Tasks.{
  Task, Sched, Switch, killed, step_from, find_next, switch_to, schedule, task_kill,
}
use rink_os.Tasks.Next.{FirstUsed, find_next-FirstUsed, steps_to, steps_to_lem, steps_to-add}
use rink_os.Tasks.Inv.{IsValid, task_kill-IsValid, task_kill-unused}

-- Where `schedule` begins to look.
abbrev pub start : Sched → ℕ
start s = step_from s.current_task s.task_count

step_from-lt : (c : Option ℕ) (count : ℕ) → 0 < count → step_from c count < count
unfolding step_from
step_from-lt none count h = mod-lt 0 h
step_from-lt (some c) count h = mod-lt (c + 1) h

pub start-lt : (s : Sched) → 0 < s.task_count → start s < s.task_count
start-lt s h = step_from-lt s.current_task s.task_count h

-- The next task, and how it was chosen.
abbrev pub Scheduled : Sched → Sched → Type 0
Scheduled s s' =
    (m : ℕ) × (s'.current_task ≡ some ((start s + m) % s.task_count))
    × FirstUsed s.tasks s.task_count (start s) m
    × ((i : ℕ) → (s'.tasks i).used ≡ (s.tasks i).used)
    × (s'.task_count ≡ s.task_count)

switch_to-lem :
    (esp next : ℕ) (s : Sched)
    → ((switch_to esp next s).0.current_task ≡ some next)
      × ((i : ℕ) → ((switch_to esp next s).0.tasks i).used ≡ (s.tasks i).used)
      × ((switch_to esp next s).0.task_count ≡ s.task_count)
unfolding switch_to
switch_to-lem esp next s = (ground arith, λ i. ground arith, ground arith)

-- With any task of the table in use, schedule returns, and makes current the first task in use
-- behind the current one, going round the table; which tasks are in use stays.
pub schedule-Scheduled :
    (esp j : ℕ) (s : Sched)
    → j < s.task_count
    → (s.tasks j).used ≡ true
    → (s' : Sched) × (sw : Switch) × (schedule esp s ≡ some (s', sw)) × Scheduled s s'
unfolding schedule
schedule-Scheduled esp j s lt used =
    let count = s.task_count in
    let lo : start s < count = step_from-lt s.current_task count (omega arith) in
    let away = steps_to_lem count (start s) j lo lt in
    let (m, le, run, first) =
      find_next-FirstUsed s.tasks count count (start s) (steps_to count (start s) j) away.0
        (rw away.1 used) in
    let run' : find_next count s.tasks count (start s) ≡ some ((start s + m) % count) =
      rw (mod-eq_of_lt lo) at run in
    let sw = switch_to-lem esp ((start s + m) % count) s in
    let positive : (count == 0) ≡ false = ground arith in
    (
      (switch_to esp ((start s + m) % count) s).0,
      (switch_to esp ((start s + m) % count) s).1,
      rw (positive, run', schedule),
      (m, sw.0, first, sw.1, sw.2),
    )

start-after :
    (s s' : Sched) (r : ℕ)
    → s'.current_task ≡ some r
    → s'.task_count ≡ s.task_count
    → start s' ≡ (r + 1) % s.task_count
unfolding step_from
start-after s s' r now size = rw (now, size)

-- No task in use is passed over.
FirstUsed-le :
    (tasks : ℕ → Task) (count i m t : ℕ)
    → FirstUsed tasks count i m
    → (tasks ((i + t) % count)).used ≡ true
    → m ≤ t
FirstUsed-le tasks count i m t first used = elim (dec_lt t m) [
  | yes before ↦ cc (first.skipped t before)
  | no past ↦ omega arith
]

-- A step as schedule takes it runs a given task in use, or brings it strictly nearer in the round.
pub Scheduled-nearer :
    (j : ℕ) (s s' : Sched)
    → j < s.task_count
    → (s.tasks j).used ≡ true
    → Scheduled s s'
    → (s'.current_task ≡ some j)
      ⊎ (steps_to s'.task_count (start s') j < steps_to s.task_count (start s) j)
Scheduled-nearer j s s' lt used (m, now, first, same, size) =
    let count = s.task_count in
    let lo : start s < count = step_from-lt s.current_task count (omega arith) in
    let t = steps_to count (start s) j in
    let (t_lt, there) = steps_to_lem count (start s) j lo lt in
    let reached : m ≤ t = FirstUsed-le s.tasks count (start s) m t first (rw there used) in
    elim (dec_lt m t) [
      | yes before ↦
          let i' = (start s + m + 1) % count in
          let begins : start s' ≡ i' =
            start-after s s' ((start s + m) % count) now size ∙ mod-add-mod (start s + m) count 1 in
          let j_from : j ≡ (i' + (t - m - 1)) % count =
            sym there
            ∙ ap (λ n. n % count) (omega arith)
            ∙ sym (mod-add-mod (start s + m + 1) count (t - m - 1)) in
          let left : steps_to count i' j ≡ t - m - 1 =
            ap (steps_to count i') j_from
            ∙ steps_to-add count i' (t - m - 1) (mod-lt _ (omega arith)) (omega arith) in
          inr (rw (begins, size, left) (omega arith))
      | no past ↦ inl (now ∙ ap some (ap (λ n. (start s + n) % count) (omega arith) ∙ there))
    ]

Scheduled-IsValid : (s s' : Sched) → 0 < s.task_count → IsValid s → Scheduled s s' → IsValid s'
Scheduled-IsValid s s' pos v (m, now, first, same, size) = record {
  fits = rw size v.fits;
  kernel = λ h. rw (same 0) (v.kernel pos);
  current = rw (now, size) (mod-lt _ pos, rw (same ((start s + m) % s.task_count)) first.used);
}

-- From a valid table with a task in it, schedule returns, keeps the table valid, and makes current
-- a task in use.
pub schedule-IsValid :
    (esp : ℕ) (s : Sched)
    → 0 < s.task_count
    → IsValid s
    → (s' : Sched) × (sw : Switch) × (schedule esp s ≡ some (s', sw))
      × IsValid s'
      × (r : ℕ) × (s'.current_task ≡ some r)
      × ((s.tasks r).used ≡ true)
schedule-IsValid esp s pos v =
    let (s', sw, run, chosen) = schedule-Scheduled esp 0 s pos (v.kernel pos) in
    let valid = Scheduled-IsValid s s' pos v chosen in
    let r = (start s + chosen.0) % s.task_count in (s', sw, run, valid, r, chosen.1, chosen.2.used)

-- After a task_kill in a valid table with a task in it the scheduler returns and does not pick the
-- killed task.
pub schedule-task_kill :
    (esp id : ℕ) (s s' : Sched)
    → 0 < s.task_count
    → IsValid s
    → task_kill id s ≡ killed s'
    → (s'' : Sched) × (sw : Switch) × (schedule esp s' ≡ some (s'', sw))
      × (s''.current_task ≢ some id)
schedule-task_kill esp id s s' pos v e =
    let (gone, size) = task_kill-unused id s s' e in
    let (s'', sw, run, valid, next, now, used) =
      schedule-IsValid esp s' (omega arith) (task_kill-IsValid id s s' v e) in
    (s'', sw, run, λ same. ground arith)
