-- ===== src/Lib.antt =====
-- RinkOS, a 32-bit kernel with a FAT16-style file system, a first-fit heap, drivers of the disk, the
-- keyboard and the screen, and a round-robin scheduler of kernel tasks. This library models the C
-- code of the kernel.
--
-- How the parts interact: the shell, a task of its own, reads characters from the keyboard's ring and
-- calls the file system; the file system reads and writes sectors through the disk driver; the
-- scheduler, called from the timer interrupt, switches between tasks whose stacks come from the heap.
-- A Machine holds what the shell's commands work on; each command ends with a new Machine and the
-- calls that reach the screen or a port, which Machine/Render gives to the screen. A System holds
-- what kernel_main sets up.
--
-- The model, by file:
--   Disk          the sectors of kernel/disk.c as a function from block address to bytes
--   Ata           the port accesses of kernel/disk.c
--   Fat           the allocation table of kernel/fs.c (fat_read to cluster_at_index)
--   Dirent        fs_dirent_t of kernel/scr/fs.h as 32 bytes of a sector
--   Names         the string helpers and the 8.3 names of kernel/fs.c
--   Volume        the static variables of kernel/fs.c, root_load and root_save
--   Dir           dir_ref_t, entry_loc_t, dir_iter_t, dir_scan, dir_find_free, dir_write_entry
--   Walk          path_append, path_trim_last, walk_path, resolve_parent; Display is about the
--                 display path
--   Files         fs_create, fs_write, fs_read, fs_delete, fs_stat, fs_rename; Blocks holds the loops
--                 over clusters, Append fs_append, Folders fs_mkdir to fs_debug_stats, Format
--                 fs_init; Round, Others, Keep, Create, Delete and Rename are about files of the root,
--                 Append.Round about fs_append of one, Folders.Remove, Folders.Made and
--                 Folders.Change about its directories
--   Heap          kernel/mm.c: the linked list of headers is a list of blocks; Dump is mmap_dump
--   Keyboard      kernel/keyboard.c: the ring and the interrupt handler
--   Tasks         kernel/task.c: the table, schedule, task_create_named, task_kill; Report is task_list
--   Interrupts    kernel/idt.c, kernel/pic.c and kernel/timer.c
--   Machine       the state, the events and the results of the shell's commands
--   Shell         kernel/shell.c: its string helpers; Files, Folders and Status are the commands cmd_ls
--                 to cmd_info, History the command history, Command run_command, Editor shell_run;
--                 Words, Stored, Numbers, Safe, Run and Session are about them
--   Boot          kernel_main and kernel of kernel/kernel.c
--   Running       the shell's loop between the interrupts of keyboard and timer, as a step relation
--   Screen        the text terminal of kernel/kernel.c: vga_putchar, scrolling, kprint
--   Print         kprint_uint of kernel/shell.c, the digits that cmd_kill reads there, and
--                 kprint_hex32 of kernel/kernel.c
--   Prelude       tests on numbers, and lists measured by native numbers
--   Tests         runs on small inputs, and the results at concrete arguments
--
-- State and results: an operation of the file system takes a Volume and ends as ok, with what it
-- passes out, as fail, the return of -1, or as hang, a loop without end; each of the three but the
-- last leaves a Volume behind. A C string is the list of its bytes before the NUL. A uint32_t sum
-- that can wrap is reduced modulo 2 ^ 32.
--
-- Bounds and fuel: a walk along a chain has 65536 rounds (max_links); a link is a uint16_t, and a
-- chain that comes to an end visits no cluster twice. A loop over a directory has 2 ^ 20 + 1 rounds
-- (max_steps), 16 entries for each of those clusters and one for the end. The loop of schedule has
-- one round for each slot of the table. The loop of walk_path has the length of the path, that of
-- fs_append the number of bytes, since each round takes at least one. The name of a spawned task is
-- read from at most eight digits, the room of its buffer.
--
-- Not modelled: counter_task of kernel/shell.c, which waits and changes nothing that another part
-- reads; the waiting of kernel/kernel.c for the keyboard controller and the instructions that reset
-- the machine behind the pulse of reboot; kernel/io.c, whose functions are single instructions; the
-- boot loader and the assembly stubs. Interrupts are the steps of a run: an operation of one part is
-- not interrupted by another that shares its state, so the shell's commands and the start of the
-- file system, which are tasks of their own, are each taken whole.
pub mod Prelude
pub mod Disk
pub mod Ata
pub mod Fat
pub mod Dirent
pub mod Names
pub mod Volume
pub mod Dir
pub mod Walk
pub mod Print
pub mod Files
pub mod Heap
pub mod Keyboard
pub mod Tasks
pub mod Screen
pub mod Tests
pub mod Interrupts
pub mod Machine
pub mod Shell
pub mod Boot
pub mod Running
