-- ===== src/Boot/Tasks.antt =====
-- The tasks after the start of kernel/kernel.c and the first switches between them.
use rink_os.Prelude.{ℕ, ◌+◌, ◌-◌, ◌≡◌, refl, true, some, List, arith, codes}
use rink_os.Heap.{kmalloc, kmalloc_init}
use rink_os.Tasks.{
  Sched, to, address, task_stack_size, tasks_init, task_create_named, push_frame, find_next,
  step_from, switch_to, schedule,
}
use rink_os.Tasks.Inv.{IsValid, task_create_named-IsValid}
use rink_os.Boot.{Image, System, print, set_interrupts, first_tasks, kernel_main, kernel}

-- A task that has not run yet: its name, its stack and the function that its first run enters,
-- behind the four registers that `task_switch` takes from the stack.
pub record IsFresh (s : Sched) (i : ℕ) (name : List ℕ) (entry : ℕ) : Type 0 where
  pub used : (s.tasks i).used ≡ true
  pub named : (s.tasks i).name ≡ name
  pub enters : s.memory ((s.tasks i).esp + 16) ≡ entry

frame-entry :
    (memory : ℕ → ℕ) (stack entry : ℕ)
    → push_frame memory (stack + task_stack_size) entry (stack + task_stack_size - 20 + 16) ≡ entry
unfolding push_frame
frame-entry memory stack entry = ground arith

kernel_main-sched :
    (image : Image) (s : System) → (kernel_main image s).sched ≡ first_tasks image s.sched
unfolding kernel_main print set_interrupts
kernel_main-sched image s = refl

-- The table once the kernel's task runs, and once it has created the shell's.
abbrev pub kernel_runs : Image → System → System
kernel_runs image s = record (kernel_main image s) {
  sched = record (kernel_main image s).sched { current_task = some 0 };
}

abbrev pub shell_ready : Image → System → System
shell_ready image s = kernel image (kernel_runs image s)

module _ (image : Image) (s : System) where
  kernel-IsFresh : IsFresh (kernel_main image s).sched 0 (codes "kernel") image.kernel_at
  unfolding kernel_main print set_interrupts first_tasks tasks_init task_create_named
  kernel-IsFresh = record {
    used = refl;
    named = refl;
    enters =
        frame-entry s.sched.memory
          (address (kmalloc task_stack_size (kmalloc_init image.heap_start image.memory_map)).0)
          image.kernel_at;
  }

  first_switch :
      (esp : ℕ)
      → schedule esp (kernel_main image s).sched
        ≡ some ((kernel_runs image s).sched, to ((kernel_main image s).sched.tasks 0).esp)
  unfolding kernel_main print set_interrupts first_tasks tasks_init task_create_named schedule
      find_next step_from switch_to
  first_switch esp = refl

  shell-IsFresh : IsFresh (shell_ready image s).sched 1 (codes "shell") image.shell_task_at
  unfolding kernel kernel_main print set_interrupts first_tasks tasks_init task_create_named
  shell-IsFresh = record {
    used = refl;
    named = refl;
    enters =
        frame-entry (kernel_runs image s).sched.memory
          (address (kmalloc task_stack_size (kernel_runs image s).sched.heap).0)
          image.shell_task_at;
  }

  second_switch :
      (esp : ℕ)
      → (s' : Sched) × (schedule esp (shell_ready image s).sched
          ≡ some (s', to ((shell_ready image s).sched.tasks 1).esp))
        × (s'.current_task ≡ some 1)
        × ((s'.tasks 0).esp ≡ esp)
  unfolding kernel kernel_main print set_interrupts first_tasks tasks_init task_create_named
      schedule find_next step_from switch_to
  second_switch esp = (_, refl, refl, refl)

  kernel_runs-IsValid : IsValid (kernel_runs image s).sched
  unfolding kernel_main print set_interrupts first_tasks tasks_init task_create_named
  kernel_runs-IsValid = record {
    fits = omega arith;
    kernel = λ h. refl;
    current = (omega arith, refl);
  }

  shell_ready-IsValid : IsValid (shell_ready image s).sched
  unfolding kernel
  shell_ready-IsValid =
      task_create_named-IsValid image.shell_task_at (codes "shell") (kernel_runs image s).sched
        kernel_runs-IsValid

  -- After kernel_main the first timer interrupt switches to the kernel's task, whose stack is set
  -- up to enter kernel; once that has created the shell's task, the table is valid, and the next
  -- interrupt keeps the kernel's stack pointer and switches to the shell's task, whose stack is
  -- set up to enter shell_task.
  pub schedule-kernel_main :
      (esp esp' : ℕ)
      → IsFresh (kernel_main image s).sched 0 (codes "kernel") image.kernel_at
        × (schedule esp (kernel_main image s).sched
            ≡ some ((kernel_runs image s).sched, to ((kernel_main image s).sched.tasks 0).esp))
        × IsValid (shell_ready image s).sched
        × IsFresh (shell_ready image s).sched 1 (codes "shell") image.shell_task_at
        × (s' : Sched) × (schedule esp' (shell_ready image s).sched
            ≡ some (s', to ((shell_ready image s).sched.tasks 1).esp))
        × (s'.current_task ≡ some 1)
        × ((s'.tasks 0).esp ≡ esp')
  schedule-kernel_main esp esp' =
      let (s', switches, now, kept) = second_switch esp' in
      (
        kernel-IsFresh,
        first_switch esp,
        shell_ready-IsValid,
        shell-IsFresh,
        s',
        switches,
        now,
        kept,
      )
