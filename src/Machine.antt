-- ===== src/Machine.antt =====
-- What a command of kernel/shell.c works on and how it ends: the state of the parts that it calls,
-- what goes to the screen, and the ways not to return.
pub mod Render
use rink_os.Prelude.{
  ℕ, zero, suc, ◌≡◌, refl, Option, none, some, List, [], ◌∷◌, ◌++◌, Bool, ◌==◌, if◌then◌else◌,
}
use rink_os.Volume.{Volume, Outcome, ok, fail, hang}
use rink_os.Heap.{MmapEntry}
use rink_os.Tasks.{Sched}
use rink_os.Interrupts.{Out, Timer}

-- The static variables of the parts, and what the shell keeps itself. `history` is read at indices
-- below 16. The map and the address of `counter_task` are constants of the machine.
pub record Machine : Type 0 where
  pub volume : Volume
  pub sched : Sched
  pub timer : Timer
  pub memory_map : List MmapEntry
  pub counter_task : ℕ
  pub history : ℕ → List ℕ
  pub history_count : ℕ
  pub spawn_count : ℕ

-- The calls that reach the screen or a port: `kprint`, `vga_clear`, and `outb`.
pub data Event : Type 0 where
  shows : List ℕ → Event
  clears : Event
  sends : Out → Event

-- A loop without end, a write through a pointer that is no block of the heap, or a reset.
pub data Stop : Type 0 where
  loops : Stop
  corrupts : Stop
  resets : List Out → Stop

pub data Step (A : Type 0) : Type 0 where
  step : A → List Event → Machine → Step A
  stopped : Stop → Step A

abbrev pub C : Type 0 → Type 0
C A = Machine → Step A

abbrev pub after : {B : Type 0} → List Event → Step B → Step B
after es (step b es' m) = step b (es ++ es') m
after es (stopped x) = stopped x

module _ {A B : Type 0} where
  abbrev pub and_then : Step A → (A → C B) → Step B
  and_then (step a es m) k = after es (k a m)
  and_then (stopped x) k = stopped x

  infixl 5 ◌>>=◌ ◌>>◌
  abbrev pub ◌>>=◌ : C A → (A → C B) → C B
  c >>= k = λ m. and_then (c m) k

  abbrev pub ◌>>◌ : C A → C B → C B
  c >> k = c >>= λ _. k

pub after-nil : {A : Type 0} (s : Step A) → after [] s ≡ s
after-nil (step a es m) = refl
after-nil (stopped x) = refl

abbrev pub done : {A : Type 0} → A → C A
done a m = step a [] m

abbrev pub skip : C (Unit {0})
skip = done tt

abbrev pub machine : C Machine
machine m = step m [] m

abbrev pub change : (Machine → Machine) → C (Unit {0})
change f m = step tt [] (f m)

-- The bytes before the first NUL.
unfoldable pub until_nul : List ℕ → List ℕ
until_nul [] = []
until_nul (c ∷ s) = let rest = until_nul s in if c == 0 then [] else c ∷ rest

-- `kprint`
abbrev pub print : List ℕ → C (Unit {0})
print text m = step tt (shows text ∷ []) m

abbrev pub clear : C (Unit {0})
clear m = step tt (clears ∷ []) m

abbrev pub outb : ℕ → ℕ → C (Unit {0})
outb port value m = step tt (sends (port, value) ∷ []) m

-- An operation of the file system: what it passes out, or `none` for -1.
abbrev pub outcome : {A : Type 0} → Outcome A → C (Option A)
outcome (ok a v) m = step (some a) [] (record m { volume = v })
outcome (fail v) m = step none [] (record m { volume = v })
outcome hang m = stopped loops

abbrev pub on_volume : {A : Type 0} → (Volume → Outcome A) → C (Option A)
on_volume op m = outcome (op m.volume) m

-- The text that the events print.
abbrev pub text_of : List Event → List ℕ
text_of [] = []
text_of (shows text ∷ es) = text ++ text_of es
text_of (clears ∷ es) = text_of es
text_of (sends o ∷ es) = text_of es
