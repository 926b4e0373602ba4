-- ===== src/Tests/Tasks.antt =====
-- The task table of kernel/task.c with three tasks.
use rink_os.Prelude.{ℕ, ◌≡◌, ◌≢◌, refl, true, false, some, [], ◌∷◌, arith, ◌==◌, if◌then◌else◌}
use rink_os.Heap.{Block, kfree, mark_free, coalesce, coalesce_from}
use rink_os.Tasks.{
  Task, Sched, Switch, to, killed, refused, refuses_kill, kfree_any, set_task, find_next, step_from,
  switch_to, schedule, task_kill,
}
use rink_os.Tasks.Inv.{IsValid}
use rink_os.Tasks.Fair.{Scheduled, schedule-Scheduled, schedule-task_kill}

abbrev task : ℕ → Task
task stack = record { esp = stack; used = true; name = []; stack_base = stack }

abbrev stack_block : ℕ → Block
stack_block addr = record { addr = addr; size = 16384; free = false }

-- The kernel runs, and two more tasks are in use.
abbrev pub three : Sched
three = record {
  tasks = λ i. task (if i == 0 then 4108 else if i == 1 then 20504 else 36900);
  current_task = some 0;
  task_count = 3;
  heap = stack_block 4096 ∷ stack_block 20492 ∷ stack_block 36888 ∷ [];
  memory = λ a. 0;
}

pub three-IsValid : IsValid three
three-IsValid = record { fits = omega arith; kernel = λ h. refl; current = (omega arith, refl) }

-- The second task is killed.
abbrev pub two : Sched
two = record three {
  tasks = set_task three.tasks 1 (record (three.tasks 1) { used = false });
  heap = stack_block 4096 ∷ record (stack_block 20492) { free = true } ∷ stack_block 36888 ∷ [];
}

pub kill_run : task_kill 1 three ≡ killed two
unfolding task_kill refuses_kill kfree_any kfree mark_free coalesce coalesce_from
kill_run = refl

kernel_stays : task_kill 0 three ≡ refused
unfolding task_kill refuses_kill
kernel_stays = refl

-- The scheduler passes over the slot of the killed task.
schedule_run : schedule 99 two ≡ some ((switch_to 99 2 two).0, to 36900)
unfolding schedule find_next step_from switch_to
schedule_run = refl

schedule-Scheduled_example :
    (s' : Sched) × (sw : Switch) × (schedule 99 two ≡ some (s', sw)) × Scheduled two s'
schedule-Scheduled_example = schedule-Scheduled 99 2 two (omega arith) refl

schedule-task_kill_example :
    (s'' : Sched) × (sw : Switch) × (schedule 99 two ≡ some (s'', sw)) × (s''.current_task ≢ some 1)
schedule-task_kill_example = schedule-task_kill 99 1 three two (omega arith) three-IsValid kill_run
