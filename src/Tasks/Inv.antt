-- ===== src/Tasks/Inv.antt =====
-- The invariant of the task table of kernel/task.c.
use rink_os.Prelude.{
  ℕ, ◌+◌, ◌^◌, ◌≤◌, ◌<◌, ◌≡◌, ◌≢◌, refl, true, false, Bool-cases, Option-cases, inl, inr, Option,
  none, some, List, arith, leb,
}
use rink_os.Tasks.{
  Task, Sched, Kill, refused, killed, corrupted, max_tasks, set_task, tasks_init, task_create_named,
  is_current, refuses_kill, kfree_any, task_kill,
}

-- A task that runs is in use.
abbrev CurrentUsed : (ℕ → Task) → ℕ → Option ℕ → Type 0
CurrentUsed tasks count none = Unit
CurrentUsed tasks count (some c) = (c < count) × ((tasks c).used ≡ true)

-- Slots are filled from the left, the first one (the kernel) stays in use, and so does the running
-- task.
pub record IsValid (s : Sched) : Type 0 where
  pub fits : s.task_count ≤ max_tasks
  pub kernel : 0 < s.task_count → (s.tasks 0).used ≡ true
  pub current : CurrentUsed s.tasks s.task_count s.current_task

pub tasks_init-IsValid : (s : Sched) → IsValid (tasks_init s)
unfolding tasks_init
tasks_init-IsValid s = record {
  fits = omega arith;
  kernel = λ h. absurd (omega arith);
  current = tt;
}

CurrentUsed-set :
    (tasks : ℕ → Task) (count i : ℕ) (t : Task) (c : Option ℕ)
    → t.used ≡ true
    → CurrentUsed tasks count c
    → CurrentUsed (set_task tasks i t) (count + 1) c
CurrentUsed-set tasks count i t none u h = tt
CurrentUsed-set tasks count i t (some c) u h = ground arith

-- task_create_named keeps the task table valid.
pub task_create_named-IsValid :
    (entry : ℕ) (name : List ℕ) (s : Sched) → IsValid s → IsValid (task_create_named entry name s).0
unfolding task_create_named
task_create_named-IsValid entry name s v = elim (Bool-cases (leb max_tasks s.task_count)) [
  | inl full ↦ rw full v
  | inr room ↦ rw room (record {
    fits = ground arith;
    kernel = λ h. grind (arith, v.kernel);
    current = CurrentUsed-set s.tasks s.task_count s.task_count _ s.current_task refl v.current;
  })
]

CurrentUsed-unset :
    (tasks : ℕ → Task) (count i : ℕ) (t : Task) (c : Option ℕ)
    → is_current c i ≡ false
    → CurrentUsed tasks count c
    → CurrentUsed (set_task tasks i t) count c
CurrentUsed-unset tasks count i t none ne h = tt
CurrentUsed-unset tasks count i t (some c) ne h = ground arith

-- A kill that is not refused is of another task than the kernel and the running one.
pub accepts_kill :
    (id : ℕ) (s : Sched)
    → refuses_kill id s ≡ false
    → (id < s.task_count)
      × (id < 2 ^ 31)
      × ((s.tasks id).used ≡ true)
      × (is_current s.current_task id ≡ false)
      × (id ≢ 0)
unfolding refuses_kill
accepts_kill id s h = ground arith

abbrev ValidIfKilled : Kill → Type 0
ValidIfKilled refused = Unit
ValidIfKilled corrupted = Unit
ValidIfKilled (killed s) = IsValid s

task_kill-ValidIfKilled : (id : ℕ) (s : Sched) → IsValid s → ValidIfKilled (task_kill id s)
unfolding task_kill
task_kill-ValidIfKilled id s v = elim (Bool-cases (refuses_kill id s)) [
  | inl no' ↦ rw no' tt
  | inr ok ↦
      let (lt, small, used, other, ne) = accepts_kill id s ok in
      elim (Option-cases (kfree_any (s.tasks id).stack_base s.heap)) [
        | inl bad ↦ rw (ok, bad, task_kill) tt
        | inr (heap, freed) ↦
            rw (ok, freed, task_kill)
              (record {
                fits = v.fits;
                kernel = λ h. grind (arith, v.kernel);
                current =
                    CurrentUsed-unset s.tasks s.task_count id _ s.current_task other v.current;
              })
      ]
]

-- task_kill keeps the task table valid: neither the kernel nor the running task is killed.
pub task_kill-IsValid :
    (id : ℕ) (s s' : Sched) → IsValid s → task_kill id s ≡ killed s' → IsValid s'
task_kill-IsValid id s s' v e = rw e at (task_kill-ValidIfKilled id s v)

abbrev UnusedIfKilled : ℕ → Sched → Kill → Type 0
UnusedIfKilled id s refused = Unit
UnusedIfKilled id s corrupted = Unit
UnusedIfKilled id s (killed s') = ((s'.tasks id).used ≡ false) × (s'.task_count ≡ s.task_count)

task_kill-UnusedIfKilled : (id : ℕ) (s : Sched) → UnusedIfKilled id s (task_kill id s)
unfolding task_kill
task_kill-UnusedIfKilled id s = elim (Bool-cases (refuses_kill id s)) [
  | inl no' ↦ rw no' tt
  | inr ok ↦ elim (Option-cases (kfree_any (s.tasks id).stack_base s.heap)) [
    | inl bad ↦ rw (ok, bad, task_kill) tt
    | inr (heap, freed) ↦ rw (ok, freed, task_kill) (ground arith, refl)
  ]
]

-- A killed task is in use no more, and its slot still counts.
pub task_kill-unused :
    (id : ℕ) (s s' : Sched)
    → task_kill id s ≡ killed s'
    → ((s'.tasks id).used ≡ false) × (s'.task_count ≡ s.task_count)
task_kill-unused id s s' e = rw e at (task_kill-UnusedIfKilled id s)
