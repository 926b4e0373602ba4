-- ===== src/Running.antt =====
-- The running kernel: the shell of kernel/shell.c between the interrupts of kernel/keyboard.c and
-- kernel/timer.c, one round or interrupt at a time.
pub mod Order
use rink_os.Prelude.{ℕ, ◌≡◌, some, List}
use rink_os.Keyboard.{Keyboard, keyboard_handler, keyboard_getchar}
use rink_os.Tasks.{Sched, Switch}
use rink_os.Screen.{Screen}
use rink_os.Interrupts.{Out, Timer, timer_handler}
use rink_os.Machine.{Machine, Event, step}
use rink_os.Machine.Render.{render}
use rink_os.Shell.Editor.{shell_char}

-- The state of all parts, and the line that the shell's loop holds.
pub record Running : Type 0 where
  pub keyboard : Keyboard
  pub machine : Machine
  pub line : List ℕ
  pub screen : Screen

infix 20 ◌⟶◌ ◌⟶*◌
-- A step: a keyboard interrupt at a scancode, a timer interrupt at a stack pointer, and a round of the
-- shell's loop on a character that waits, if the command that it may run returns.
pub data ◌⟶◌ : Running → Running → Type 0 where
  key :
      (r : Running) (scancode : ℕ)
      → r ⟶ record r { keyboard = (keyboard_handler r.keyboard scancode).0 }
  clock :
      (r : Running) (esp : ℕ) (t : Timer) (out : List Out) (s : Sched) (switch : Switch)
      → timer_handler esp r.machine.timer r.machine.sched ≡ some (t, out, s, switch)
      → r ⟶ record r { machine = record r.machine { timer = t; sched = s } }
  round :
      (r : Running) (c : ℕ) (k : Keyboard) (line : List ℕ) (es : List Event) (m : Machine)
      → keyboard_getchar r.keyboard ≡ some (c, k)
      → shell_char r.line c r.machine ≡ step line es m
      → r ⟶ record { keyboard = k; machine = m; line = line; screen = (render r.screen es).0 }

-- Any number of steps.
pub data ◌⟶*◌ : Running → Running → Type 0 where
  here : (r : Running) → r ⟶* r
  more : (r r' r'' : Running) → r ⟶* r' → r' ⟶ r'' → r ⟶* r''
