-- ===== src/Shell/Status.antt =====
-- The commands of kernel/shell.c on tasks, the heap and the machine.
use rink_os.Prelude.{
  ℕ, zero, suc, Bool, false, ◌+◌, ◌/◌, ◌%◌, ◌^◌, Option, none, some, List, [], ◌∷◌, ◌++◌, ◌==◌,
  take, codes, not, if◌then◌else◌,
}
use rink_os.Print.{is_digit, read_id, print_uint}
use rink_os.Heap.{kmalloc_stats}
use rink_os.Heap.Dump.{mmap_dump}
use rink_os.Tasks.{Sched, Kill, refused, killed, corrupted, task_create_named, task_kill}
use rink_os.Tasks.Report.{task_list}
use rink_os.Interrupts.{timer_get_seconds}
use rink_os.Machine.{Machine, stopped, corrupts, resets, C, ◌>>◌, skip, print, clear, outb}
use rink_os.Shell.{is_empty, skip_space, print_all}

-- `system_version` of kernel/kernel.c
abbrev pub system_version : List ℕ
system_version = codes "RinkOS 0.034"

-- The lines of the uptime, with the unit at their end.
abbrev pub uptime_text : List ℕ → Machine → List (List ℕ)
uptime_text unit m = codes "Uptime: " ∷ print_uint (timer_get_seconds m.timer) ∷ unit ∷ []

unfoldable pub cmd_uptime : C (Unit {0})
cmd_uptime m = print_all (uptime_text (codes " second\n") m) m

unfoldable pub cmd_top : C (Unit {0})
cmd_top m = print_all (codes "Tasks:\n" ∷ task_list m.sched ∷ []) m

-- `while (n > 0)`: the decimal digits in `digits[0..di]`, lowest first.
unfoldable pub digits_of : ℕ → ℕ → List ℕ
digits_of zero n = []
digits_of (suc k) n =
    let rest = digits_of k (n / 10) in if n == 0 then [] else (b'0' + n % 10) ∷ rest

-- `while (di > 0 && i < 15) name[i++] = digits[--di];`
unfoldable pub copy_back : List ℕ → List ℕ → List ℕ
copy_back name [] = name
copy_back name (d ∷ digits) = let name' = copy_back name digits in take 15 (name' ++ d ∷ [])

-- The name of the task number `n`, below 10 ^ 8: `digits` has room for eight.
unfoldable pub spawn_name : ℕ → List ℕ
spawn_name n = copy_back (codes "task") (if n == 0 then b'0' ∷ [] else digits_of 8 n)

-- The report of `spawn`, by the slot of the new task.
abbrev pub spawn_text : List ℕ → Option ℕ → List (List ℕ)
spawn_text name none = codes "spawn failed: too many tasks (see 'top')\n" ∷ []
spawn_text name (some id) =
    codes "Spawned task '" ∷ name ∷ codes "' (id " ∷ print_uint id ∷ codes ") - see 'top'\n" ∷ []

-- A creation leaves the table and the slot, or `none`.
abbrev pub on_create : List ℕ → Sched × Option ℕ → C (Unit {0})
on_create name (s, id) m = print_all (spawn_text name id) (record m { sched = s })

abbrev pub count_spawn : Machine → Machine
count_spawn m = record m { spawn_count = (m.spawn_count + 1) % 2 ^ 32 }

unfoldable pub cmd_spawn : C (Unit {0})
cmd_spawn m =
    let m = count_spawn m in
    let name = spawn_name m.spawn_count in
    on_create name (task_create_named m.counter_task name m.sched) m

-- What `cmd_kill` makes of the end of `task_kill`.
unfoldable pub on_kill : ℕ → Kill → C (Unit {0})
on_kill id refused m = print_all (codes "kill failed\n" ∷ []) m
on_kill id (killed s) m =
    print_all (codes "Killed task " ∷ print_uint id ∷ codes "\n" ∷ []) (record m { sched = s })
on_kill id corrupted m = stopped corrupts

-- Whether the first loop of `cmd_kill` moves at all.
unfoldable pub starts_with_digit : List ℕ → Bool
starts_with_digit [] = false
starts_with_digit (c ∷ s) = is_digit c

unfoldable pub cmd_kill : List ℕ → C (Unit {0})
cmd_kill args m =
    let text = skip_space args in
    let usage : C (Unit {0}) = print (codes "usage: kill <id>  (see 'top' for ids)\n") in
    if is_empty text
    then usage m
    else if not (starts_with_digit text)
    then usage m
    else on_kill (read_id 0 text) (task_kill (read_id 0 text) m.sched) m

abbrev pub help_text : List (List ℕ)
help_text =
    codes "Available commands:\n"
    ∷ codes " help             - show this list\n"
    ∷ codes " clear            - clear the screen\n"
    ∷ codes " echo             - print text back, e.g. echo hello\n"
    ∷ codes " info             - OS and system information\n"
    ∷ codes " meminfo          - show heap usage\n"
    ∷ codes " reboot           - restart\n"
    ∷ codes " uptime           - show system uptime in seconds\n"
    ∷ codes " history          - show recent commands\n"
    ∷ codes " top              - show running tasks\n"
    ∷ codes " kill <id>        - stop a task (see 'top' for ids)\n"
    ∷ []

unfoldable pub cmd_help : C (Unit {0})
cmd_help = print_all help_text

unfoldable pub cmd_echo : List ℕ → C (Unit {0})
cmd_echo args = print_all (skip_space args ∷ codes "\n" ∷ [])

abbrev pub meminfo_text : Machine → List (List ℕ)
meminfo_text m =
    let stats = kmalloc_stats m.sched.heap in
    codes "Heap total: "
    ∷ print_uint stats.total
    ∷ codes " bytes\n"
    ∷ codes "Heap used:  "
    ∷ print_uint stats.used
    ∷ codes " bytes\n"
    ∷ codes "Heap free:  "
    ∷ print_uint stats.free_bytes
    ∷ codes " bytes\n"
    ∷ []

unfoldable pub cmd_meminfo : C (Unit {0})
cmd_meminfo m = print_all (meminfo_text m) m

unfoldable pub debug : C (Unit {0})
debug m =
    print_all
      (codes "Debug info:\n" ∷ system_version ∷ codes "\n" ∷ meminfo_text m
        ++ uptime_text (codes " seconds\n") m
        ++ mmap_dump m.memory_map ∷ [])
      m

unfoldable pub cmd_info : C (Unit {0})
cmd_info m =
    print_all (system_version ∷ codes "\n" ∷ uptime_text (codes " seconds\n") m ++ meminfo_text m) m

-- `vga_enable_cursor` of kernel/kernel.c
unfoldable pub vga_enable_cursor : C (Unit {0})
vga_enable_cursor = do outb 0x3D4 0x0A; outb 0x3D5 0x0D; outb 0x3D4 0x0B; outb 0x3D5 0x0F

unfoldable pub cmd_clear : C (Unit {0})
cmd_clear = do clear; vga_enable_cursor

-- `reboot` of kernel/kernel.c, once the keyboard controller is ready to take the byte; what stands
-- behind the pulse is a further way to reset.
abbrev pub reboot : C (Unit {0})
reboot m = stopped (resets ((0x64, 0xFE) ∷ []))

abbrev pub shutdown : C (Unit {0})
shutdown = skip
