-- ===== src/Running/Order.antt =====
-- What holds of every state that the running kernel reaches.
use rink_os.Prelude.{ℕ, ◌<◌, ◌≡◌, refl, Option, none, some, List, length}
use rink_os.Keyboard.{Keyboard, keyboard_getchar}
use rink_os.Keyboard.Ring
use rink_os.Keyboard.Handler.{handler-IsValid}
use rink_os.Screen.Bounds
use rink_os.Tasks.{Sched, Switch}
use rink_os.Tasks.Inv
use rink_os.Interrupts.{Out, Timer, tick, timer_handler}
use rink_os.Interrupts.Ticks.{timer_handler-IsValid}
use rink_os.Machine.Render.{render-IsValid}
use rink_os.Shell.{line_buf_size}
use rink_os.Shell.Safe.{IsSafe}
use rink_os.Shell.Session.{shell_char-InOrder}
use rink_os.Running.{Running, ◌⟶◌, key, clock, round, ◌⟶*◌, here, more}

-- The ring's indices and the cursor are in range, the task table and the history in order, and the
-- line fits its buffer.
pub record IsOrderly (r : Running) : Type 0 where
  pub ring : Ring.IsValid r.keyboard
  pub cursor : Bounds.IsValid r.screen
  pub safe : IsSafe r.machine
  pub short : length r.line < line_buf_size

abbrev ValidIfTicked : Option (Timer × List Out × Sched × Switch) → Type 0
ValidIfTicked none = Unit
ValidIfTicked (some (t, out, s, switch)) = Inv.IsValid s

ticked : (esp : ℕ) (t : Timer) (s : Sched) → Inv.IsValid s → ValidIfTicked (timer_handler esp t s)
ticked esp t s v = let (s', switch, runs, valid) = timer_handler-IsValid esp t s v in rw runs valid

abbrev ValidIfTaken : Option (ℕ × Keyboard) → Type 0
ValidIfTaken none = Unit
ValidIfTaken (some (c, k)) = Ring.IsValid k

reads_valid : (q : List ℕ) (o : Option (ℕ × Keyboard)) → Ring.Reads q o → ValidIfTaken o
reads_valid q none h = tt
reads_valid q (some (c, k)) h = h.1

taken : (k : Keyboard) → Ring.IsValid k → ValidIfTaken (keyboard_getchar k)
taken k v = reads_valid (Ring.typed k) (keyboard_getchar k) (Ring.keyboard_getchar-Reads k v)

step-IsOrderly : (r r' : Running) → r ⟶ r' → IsOrderly r → IsOrderly r'
step-IsOrderly r _ (key _ scancode) h = record {
  ring = handler-IsValid r.keyboard scancode h.ring;
  cursor = h.cursor;
  safe = h.safe;
  short = h.short;
}
step-IsOrderly r _ (clock _ esp t out s switch runs) h = record {
  ring = h.ring;
  cursor = h.cursor;
  safe = record {
    tasks = rw runs at (ticked esp r.machine.timer r.machine.sched h.safe.tasks);
    history = record { fits = h.safe.history.fits; short = h.safe.history.short };
  };
  short = h.short;
}
step-IsOrderly r _ (round _ c k line es m taken_one runs) h =
    let (safe, time, short) = rw runs at (shell_char-InOrder r.line c r.machine h.short h.safe) in
    record {
      ring = rw taken_one at (taken r.keyboard h.ring);
      cursor = render-IsValid es r.screen h.cursor;
      safe = safe;
      short = short;
    }

steps-IsOrderly : (r r' : Running) → r ⟶* r' → IsOrderly r → IsOrderly r'
steps-IsOrderly r _ (here _) h = h
steps-IsOrderly r _ (more _ r' r'' before last) h =
    step-IsOrderly r' r'' last (steps-IsOrderly r r' before h)

-- From an orderly state, in every state that the running kernel reaches, in any order of keyboard
-- interrupts, timer interrupts and rounds of the shell that return, the ring's indices and the
-- cursor are in range, the task table and the history are in order and the line fits its buffer;
-- and a timer interrupt returns there and counts, so the clock never stops.
pub reached-IsOrderly :
    (r r' : Running) (esp : ℕ)
    → IsOrderly r
    → r ⟶* r'
    → IsOrderly r'
      × (r'' : Running) × (r' ⟶ r'')
      × (r''.machine.timer.ticks ≡ (tick r'.machine.timer).ticks)
reached-IsOrderly r r' esp h steps =
    let h' = steps-IsOrderly r r' steps h in
    let (s, switch, runs, valid) =
      timer_handler-IsValid esp r'.machine.timer r'.machine.sched h'.safe.tasks in
    (h', _, clock r' esp _ _ s switch runs, refl)
