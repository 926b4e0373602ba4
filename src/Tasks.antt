-- ===== src/Tasks.antt =====
-- kernel/task.c: the task table, the round-robin scheduler, creation and killing.
pub mod Next
pub mod Inv
pub mod Fair
pub mod Report
use rink_os.Prelude.{
  ℕ, zero, suc, ◌+◌, ◌-◌, ◌%◌, ◌^◌, Bool, true, false, ◌&&◌, ◌||◌, not, Option, none, some, List,
  [], ◌∷◌, ltb, leb, ◌==◌, take, codes, if◌then◌else◌,
}
use rink_os.Heap.{Block, kmalloc, kfree}

abbrev pub max_tasks : ℕ
max_tasks = 8

abbrev pub task_stack_size : ℕ
task_stack_size = 16384

-- `task_t`
pub record Task : Type 0 where
  pub esp : ℕ
  pub used : Bool
  pub name : List ℕ
  pub stack_base : ℕ

-- The static variables of the file, the heap that the stacks come from, and the words of memory
-- that creation writes. `none` is the current task -1.
pub record Sched : Type 0 where
  pub tasks : ℕ → Task
  pub current_task : Option ℕ
  pub task_count : ℕ
  pub heap : List Block
  pub memory : ℕ → ℕ

abbrev pub set_task : (ℕ → Task) → ℕ → Task → ℕ → Task
set_task tasks i t j = if j == i then t else tasks j

unfoldable pub tasks_init : Sched → Sched
tasks_init s = record s {
  tasks = λ i. if ltb i max_tasks then record (s.tasks i) { used = false } else s.tasks i;
  current_task = none;
  task_count = 0;
}

-- `next = (next + 1) % task_count` from the current task
unfoldable pub step_from : Option ℕ → ℕ → ℕ
step_from none count = 0 % count
step_from (some i) count = (i + 1) % count

-- The loop of `schedule` at `next`, on fuel: one round for each task of the table is enough if any
-- is in use, and without one the loop does not end.
unfoldable pub find_next : ℕ → (ℕ → Task) → ℕ → ℕ → Option ℕ
find_next zero tasks count i = none
find_next (suc k) tasks count i =
    let rest = find_next k tasks count ((i + 1) % count) in if (tasks i).used then some i else rest

-- How `schedule` ends: without a switch, or by `task_switch` to the stack pointer named.
pub data Switch : Type 0 where
  stay : Switch
  to : ℕ → Switch

-- `task_switch` saves the running task's stack pointer `esp` and loads the next one's.
unfoldable pub switch_to : ℕ → ℕ → Sched → Sched × Switch
switch_to esp next s = elim s.current_task [
  | none ↦ (record s { current_task = some next }, to (s.tasks next).esp)
  | some prev ↦ if next == prev then (s, stay) else (
    record s {
      current_task = some next;
      tasks = set_task s.tasks prev (record (s.tasks prev) { esp = esp });
    },
    to (s.tasks next).esp,
  )
]

-- `none` is a loop without end.
unfoldable pub schedule : ℕ → Sched → Option (Sched × Switch)
unfolding switch_to
schedule esp s =
    if s.task_count == 0
    then some (s, stay)
    else elim (find_next s.task_count s.tasks s.task_count
        (step_from s.current_task s.task_count)) [
          | none ↦ none
          | some next ↦ some (switch_to esp next s)
        ]

abbrev pub store32 : (ℕ → ℕ) → ℕ → ℕ → ℕ → ℕ
store32 memory a v b = if b == a then v else memory b

-- Five words are pushed: the entry point and four zeros.
unfoldable pub push_frame : (ℕ → ℕ) → ℕ → ℕ → ℕ → ℕ
push_frame memory top entry =
    let m = store32 memory (top - 4) entry in
    let m = store32 m (top - 8) 0 in
    let m = store32 m (top - 12) 0 in let m = store32 m (top - 16) 0 in store32 m (top - 20) 0

-- A null pointer is address 0.
abbrev pub address : Option ℕ → ℕ
address none = 0
address (some p) = p

-- `name_copy` into the 16 bytes of a task's name
abbrev pub name_copy : List ℕ → List ℕ
name_copy src = take 15 src

-- The slot, or `none` for -1
unfoldable pub task_create_named : ℕ → List ℕ → Sched → Sched × Option ℕ
unfolding push_frame
task_create_named entry name s =
    if leb max_tasks s.task_count
    then (s, none)
    else let stack = address (kmalloc task_stack_size s.heap).0 in
      let top = stack + task_stack_size in
      let task : Task = record {
        esp = top - 20;
        used = true;
        name = name_copy name;
        stack_base = stack;
      } in
      (
        record s {
          tasks = set_task s.tasks s.task_count task;
          task_count = s.task_count + 1;
          heap = (kmalloc task_stack_size s.heap).1;
          memory = push_frame s.memory top entry;
        },
        some s.task_count,
      )

unfoldable pub task_create : ℕ → Sched → Sched
task_create entry s = (task_create_named entry (codes "unnamed") s).0

-- `none` for -1
abbrev pub task_current_id : Sched → Option ℕ
task_current_id s = s.current_task

-- `kfree`, which passes over a null pointer
unfoldable pub kfree_any : ℕ → List Block → Option (List Block)
kfree_any ptr heap = if ptr == 0 then some heap else kfree ptr heap

-- `current_task == id`
abbrev pub is_current : Option ℕ → ℕ → Bool
is_current none id = false
is_current (some c) id = id == c

-- The `int` id is its bit pattern, negative from 2 ^ 31 on.
unfoldable pub refuses_kill : ℕ → Sched → Bool
refuses_kill id s =
    leb (2 ^ 31) id
    || leb s.task_count id
    || not (s.tasks id).used
    || is_current s.current_task id
    || id == 0

-- -1 and 0, and a stack that is no block of the heap, which `kfree` would corrupt.
pub data Kill : Type 0 where
  refused : Kill
  killed : Sched → Kill
  corrupted : Kill

unfoldable pub task_kill : ℕ → Sched → Kill
unfolding refuses_kill kfree_any
task_kill id s =
    if refuses_kill id s then refused else elim (kfree_any (s.tasks id).stack_base s.heap) [
      | none ↦ corrupted
      | some heap ↦ killed (record s {
        tasks = set_task s.tasks id (record (s.tasks id) { used = false });
        heap = heap;
      })
    ]
