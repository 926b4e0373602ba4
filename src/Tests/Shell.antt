-- ===== src/Tests/Shell.antt =====
-- Lines given to the commands of kernel/shell.c.
use rink_os.Prelude.{ℕ, ◌≡◌, refl, List, [], ◌∷◌, ◌++◌, arith, codes, map}
use rink_os.Volume.{Volume}
use rink_os.Dir.{cwd_dir}
use rink_os.Dir.Items.{root_loc}
use rink_os.Files.{clusters_for}
use rink_os.Print.{print_uint}
use rink_os.Tasks.{task_kill}
use rink_os.Interrupts.{timer_start}
use rink_os.Machine.{Machine, shows, step}
use rink_os.Shell.{str_eq, skip_space}
use rink_os.Shell.Stored.{write_line, cat_line, cat-write}
use rink_os.Shell.Status.{spawn_name, on_kill, cmd_echo}
use rink_os.Shell.Numbers.{kill_line, spawn_name-print_uint, run_command-kill}
use rink_os.Shell.History.{history_add, cmd_history}
use rink_os.Shell.History.Recent.{IsValid}
use rink_os.Shell.History.Latest.{history_add_all, cmd_history-history_add}
use rink_os.Shell.Command.{
  after_word, dispatch_folders, dispatch_files, dispatch, unknown, run_command,
}
use rink_os.Tests.Fat.{two_links-Chain}
use rink_os.Tests.Entries.{typed_name, file, one_file}
use rink_os.Tests.Files.{room, typed_name-IsLeaf, the_entry, freed-AllFree}
use rink_os.Tests.Tasks.{three}

-- A machine with the one file and three tasks, before any command.
abbrev pub fresh : Machine
fresh = record {
  volume = one_file;
  sched = three;
  timer = timer_start;
  memory_map = [];
  counter_task = 0x2000;
  history = λ i. [];
  history_count = 0;
  spawn_count = 0;
}

pub fresh-IsValid : IsValid fresh
fresh-IsValid = record { fits = omega arith; short = λ i. omega arith }

echo_run :
    run_command (codes "echo hi") fresh
    ≡ step tt (shows (codes "hi") ∷ shows (codes "\n") ∷ []) (history_add (codes "echo hi") fresh)
unfolding run_command dispatch str_eq after_word cmd_echo skip_space
echo_run = refl

unknown_run :
    run_command (codes "echoes") fresh
    ≡ step tt
        (shows (codes "Unknown command: ") ∷ shows (codes "echoes") ∷ shows (codes "\n") ∷ [])
        (history_add (codes "echoes") fresh)
unfolding run_command dispatch dispatch_files dispatch_folders str_eq after_word unknown
unknown_run = refl

one_cluster : clusters_for 5 ≡ 1
unfolding clusters_for
one_cluster = refl

cat-write_example :
    (w : Volume) × (run_command (write_line typed_name (codes "a b c")) fresh
      ≡ step tt
          (map shows
            (codes "Write " ∷ print_uint 5 ∷ codes " bytes to " ∷ typed_name ∷ codes "\n" ∷ []))
          (record (history_add (write_line typed_name (codes "a b c")) fresh) { volume = w }))
    × ((m' : Machine)
        → m'.volume ≡ w
        → run_command (cat_line typed_name) m'
          ≡ step tt
              (shows (codes "a b c") ∷ shows (codes "\n") ∷ [])
              (history_add (cat_line typed_name) m'))
cat-write_example =
    cat-write fresh typed_name (codes "a b c")
      (record { some_byte = omega arith; fits = omega arith; no_space = omega arith }) (omega arith)
      (omega arith) file (root_loc (cwd_dir one_file) 0) (2 ∷ 3 ∷ []) room typed_name-IsLeaf refl
      the_entry refl two_links-Chain (refl, (refl, tt)) freed-AllFree (omega (arith, one_cluster))

abbrev two_lines : List (List ℕ)
two_lines = codes "ls" ∷ codes "pwd" ∷ []

cmd_history-history_add_example :
    cmd_history (history_add_all two_lines fresh)
    ≡ step tt
        (map shows
          (codes "  " ∷ codes "ls" ∷ codes "\n" ∷ codes "  " ∷ codes "pwd" ∷ codes "\n" ∷ []))
        (history_add_all two_lines fresh)
cmd_history-history_add_example =
    cmd_history-history_add two_lines fresh fresh-IsValid refl (omega arith)

spawn_name-print_uint_example : spawn_name 12 ≡ codes "task" ++ print_uint 12
spawn_name-print_uint_example = spawn_name-print_uint 12 (omega arith)

run_command-kill_example :
    run_command (kill_line 1) fresh
    ≡ on_kill 1 (task_kill 1 fresh.sched) (history_add (kill_line 1) fresh)
run_command-kill_example = run_command-kill 1 fresh (omega arith)
