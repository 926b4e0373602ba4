-- ===== src/Tests/Running.antt =====
-- A key pressed, taken by the shell, and a timer interrupt.
use rink_os.Prelude.{◌≡◌, refl, false, some, [], ◌∷◌, arith, codes}
use rink_os.Keyboard.{
  Keyboard, keyboard_handler, keyboard_getchar, keyboard_push, key_char, plain, is_letter,
}
use rink_os.Interrupts.{tick}
use rink_os.Machine.{shows, step, until_nul}
use rink_os.Machine.Render.{render}
use rink_os.Shell.Editor.{shell_char}
use rink_os.Running.{Running, ◌⟶◌, ◌⟶*◌, key, round, here, more}
use rink_os.Running.Order.{IsOrderly, reached-IsOrderly}
use rink_os.Tests.Tasks.{three-IsValid}
use rink_os.Tests.Shell.{fresh, fresh-IsValid}

abbrev idle : Running
idle = record {
  keyboard = record {
    buffer = λ i. 0;
    buffer_read = 0;
    buffer_write = 0;
    shift_pressed = false;
    capslock_on = false;
  };
  machine = fresh;
  line = [];
  screen = record { cells = λ i. 0; cursor_row = 0; cursor_col = 2 };
}

-- The key of "s"
abbrev pressed : Running
pressed = record idle { keyboard = (keyboard_handler idle.keyboard 0x1F).0 }

abbrev taken : Keyboard
taken = record pressed.keyboard { buffer_read = 1 }

abbrev echoed : Running
echoed = record {
  keyboard = taken;
  machine = fresh;
  line = codes "s";
  screen = (render idle.screen (shows (codes "s") ∷ [])).0;
}

pressed_waits : keyboard_getchar pressed.keyboard ≡ some (b's', taken)
unfolding keyboard_handler keyboard_getchar keyboard_push key_char plain is_letter
pressed_waits = refl

s_is_echoed : shell_char [] b's' fresh ≡ step (codes "s") (shows (codes "s") ∷ []) fresh
unfolding shell_char until_nul
s_is_echoed = refl

types_s : idle ⟶* echoed
types_s =
    more idle pressed echoed (more idle idle pressed (here idle) (key idle 0x1F)) (
      round pressed b's' taken (codes "s") (shows (codes "s") ∷ []) fresh pressed_waits s_is_echoed)

idle-IsOrderly : IsOrderly idle
idle-IsOrderly = record {
  ring = omega arith;
  cursor = omega arith;
  safe = record { tasks = three-IsValid; history = fresh-IsValid };
  short = omega arith;
}

reached-IsOrderly_example :
    IsOrderly echoed
    × (r'' : Running) × (echoed ⟶ r'')
    × (r''.machine.timer.ticks ≡ (tick echoed.machine.timer).ticks)
reached-IsOrderly_example = reached-IsOrderly idle echoed 7 idle-IsOrderly types_s
