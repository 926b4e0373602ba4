-- ===== src/Tests/Boot.antt =====
-- The start of the kernel and its interrupts, on a small image.
use rink_os.Prelude.{ℕ, ◌<◌, ◌≤◌, take, ◌+◌, ◌*◌, ◌≡◌, refl, some, [], ◌∷◌, arith, codes}
use rink_os.Tasks.{Sched, to, schedule}
use rink_os.Tasks.Inv
use rink_os.Interrupts.{Idt, Timer, timer_start, timer_init, idt_init, timer_get_seconds}
use rink_os.Interrupts.Gates.{IsGate, idt_init-IsGate}
use rink_os.Interrupts.Ticks.{timer_interrupts, timer_interrupts-IsValid}
use rink_os.Interrupts.Turns.{timer_interrupts-serve}
use rink_os.Boot.{Image, System, kernel_main}
use rink_os.Boot.Tasks.{IsFresh, kernel_runs, shell_ready, schedule-kernel_main}
use rink_os.Tests.Entries.{one_file}
use rink_os.Tests.Tasks.{three, three-IsValid}

abbrev image : Image
image = record {
  kernel_at = 0x1400;
  shell_task_at = 0x1380;
  keyboard_stub = 0x12345678;
  timer_stub = 0x1010;
  idt_at = 0x9800;
  heap_start = 0x10000;
  memory_map = record { base = 0; length = 0x9FC00; type_code = 1 } ∷ [];
}

abbrev empty_idt : Idt
empty_idt n = record { base_low = 0; selector = 0; always0 = 0; flags = 0; base_high = 0 }

abbrev off : System
off = record {
  screen = record { cells = λ i. 0; cursor_row = 0; cursor_col = 0 };
  idtr = record { limit = 0; base = 0 };
  idt = empty_idt;
  sched = three;
  volume = one_file;
  sent = [];
}

-- A hundred ticks a second.
timer_ports :
    timer_init 100 timer_start ≡ (timer_start, (0x43, 0x36) ∷ (0x40, 0x9B) ∷ (0x40, 0x2E) ∷ [])
unfolding timer_init
timer_ports = refl

idt_init-IsGate_example :
    IsGate ((idt_init 0x12345678 0x1010 0x9800 empty_idt).1 33) 0x12345678
    × ((idt_init 0x12345678 0x1010 0x9800 empty_idt).0.limit + 1 ≡ 256 * 8)
idt_init-IsGate_example =
    idt_init-IsGate 0x12345678 0x1010 0x9800 empty_idt 33 (omega arith) (omega arith) (omega arith)

timer_interrupts-IsValid_example :
    (t' : Timer) × (s' : Sched) × (timer_interrupts (7 ∷ 8 ∷ 9 ∷ []) timer_start three
      ≡ some (t', s'))
    × Inv.IsValid s'
    × (timer_get_seconds t' ≡ 0)
timer_interrupts-IsValid_example =
    timer_interrupts-IsValid (7 ∷ 8 ∷ 9 ∷ []) timer_start three three-IsValid (omega arith)

schedule-kernel_main_example :
    IsFresh (kernel_main image off).sched 0 (codes "kernel") 0x1400
    × (schedule 5 (kernel_main image off).sched
        ≡ some ((kernel_runs image off).sched, to ((kernel_main image off).sched.tasks 0).esp))
    × Inv.IsValid (shell_ready image off).sched
    × IsFresh (shell_ready image off).sched 1 (codes "shell") 0x1380
    × (s' : Sched) × (schedule 6 (shell_ready image off).sched
        ≡ some (s', to ((shell_ready image off).sched.tasks 1).esp))
    × (s'.current_task ≡ some 1)
    × ((s'.tasks 0).esp ≡ 6)
schedule-kernel_main_example = schedule-kernel_main image off 5 6

timer_interrupts-serve_example :
    (k : ℕ) × (0 < k)
    × (k ≤ 3)
    × (t' : Timer) × (s' : Sched) × (timer_interrupts (take k (7 ∷ 8 ∷ 9 ∷ [])) timer_start three
        ≡ some (t', s'))
    × (s'.current_task ≡ some 2)
timer_interrupts-serve_example =
    timer_interrupts-serve (7 ∷ 8 ∷ 9 ∷ []) timer_start three 2 (omega arith) refl (omega arith)
