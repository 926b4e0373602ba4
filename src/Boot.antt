-- ===== src/Boot.antt =====
-- The start of the kernel: `kernel_main` and the tasks that it leads to, of kernel/kernel.c.
pub mod Tasks
use rink_os.Prelude.{ℕ, ◌+◌, ◌-◌, Option, none, some, List, [], ◌∷◌, ◌++◌, codes}
use rink_os.Volume.{Volume}
use rink_os.Files.Format.{fs_init}
use rink_os.Heap.{MmapEntry, kmalloc_init}
use rink_os.Tasks.{Sched, tasks_init, task_create_named}
use rink_os.Screen.{Screen, vga_clear, kprint}
use rink_os.Interrupts.{Out, IdtPtr, Idt, idt_init, pic_remap}
use rink_os.Shell.Status.{system_version}

-- What the linker and the boot loader fix: the addresses of the functions that are entered by
-- address, of the interrupt table and of the heap, and the memory map.
pub record Image : Type 0 where
  pub kernel_at : ℕ
  pub shell_task_at : ℕ
  pub keyboard_stub : ℕ
  pub timer_stub : ℕ
  pub idt_at : ℕ
  pub heap_start : ℕ
  pub memory_map : List MmapEntry

pub record System : Type 0 where
  pub screen : Screen
  pub idtr : IdtPtr
  pub idt : Idt
  pub sched : Sched
  pub volume : Volume
  pub sent : List Out

-- `kprint`
unfoldable pub print : List ℕ → System → System
print text s = record s {
  screen = (kprint s.screen text).0;
  sent = s.sent ++ (kprint s.screen text).1;
}

-- The line that `boot_step` prints.
abbrev pub boot_step : List ℕ → List ℕ
boot_step label = codes "[boot] " ++ label ++ codes "\n"

-- The text of the seven calls of `kprint`.
abbrev pub welcome_text : List ℕ
welcome_text =
    codes "RinkOS kernel loaded successfully.\n"
    ++ codes "Welcome to RinkOS!\n"
    ++ codes "--------------------------------\n"
    ++ codes "Kernel is running in 32-bit protected mode.\n"
    ++ codes "\n"
    ++ system_version
    ++ codes "\n"

-- `idt_init` and `pic_remap`
unfoldable pub set_interrupts : Image → System → System
set_interrupts image s =
    let (ptr, idt) = idt_init image.keyboard_stub image.timer_stub image.idt_at s.idt in
    record s { idtr = ptr; idt = idt; sent = s.sent ++ pic_remap }

-- The tasks that there are when interrupts are allowed.
unfoldable pub first_tasks : Image → Sched → Sched
first_tasks image s =
    let heap = kmalloc_init image.heap_start image.memory_map in
    (task_create_named image.kernel_at (codes "kernel") (tasks_init (record s { heap = heap }))).0

-- What `kernel_main` does before it waits for interrupts; the bytes that it drops of the keyboard
-- controller are not kept.
unfoldable pub kernel_main : Image → System → System
unfolding first_tasks
kernel_main image s =
    let cleared = record s { screen = vga_clear s.screen } in
    let ready = set_interrupts image cleared in
    print welcome_text (record ready { sched = first_tasks image s.sched })

-- What the kernel's task does before it idles; the call behind its endless loop is not reached.
unfoldable pub kernel : Image → System → System
kernel image s = record s {
  sched = (task_create_named image.shell_task_at (codes "shell") s.sched).0;
  volume = fs_init s.volume;
}
