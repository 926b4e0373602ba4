-- ===== src/Shell/Safe.antt =====
-- Which commands of kernel/shell.c keep the machine in order, built up as the commands are.
use rink_os.Prelude.{
  ℕ, ◌≡◌, refl, true, false, Bool, ◌∙◌, Option, none, some, List, [], ◌∷◌, if◌then◌else◌,
}
use rink_os.Volume.{Volume, Outcome, ok, fail, hang}
use rink_os.Tasks.Inv.{IsValid}
use rink_os.Machine.{
  Machine, Event, Step, step, stopped, C, after, and_then, ◌>>=◌, print, on_volume, outcome,
}
use rink_os.Shell.{str_eq, print_all, on_result, file_command}
use rink_os.Shell.History.Recent
use rink_os.Shell.Command.{after_word, on_line, with_args, on_word}

-- The task table and the history are in order.
pub record IsSafe (m : Machine) : Type 0 where
  pub tasks : IsValid m.sched
  pub history : Recent.IsValid m

-- A command that returns leaves them in order, and the clock alone.
abbrev pub SafeStep : {A : Type 0} → Machine → Step A → Type 0
SafeStep m (step a es m') = IsSafe m' × (m'.timer ≡ m.timer)
SafeStep m (stopped x) = Unit

pub record Keeps {A : Type 0} (c : C A) : Type 0 where
  pub runs : (m : Machine) → IsSafe m → SafeStep m (c m)

pub SafeStep-after :
    {A : Type 0} (m m' : Machine) (es : List Event) (s : Step A)
    → m'.timer ≡ m.timer
    → SafeStep m' s
    → SafeStep m (after es s)
SafeStep-after m m' es (step a es' m'') same (safe, time) = (safe, time ∙ same)
SafeStep-after m m' es (stopped x) same h = tt

module _ {A B : Type 0} where
  pub SafeStep-and_then :
      (m : Machine) (s : Step A) (k : A → C B)
      → SafeStep m s
      → ((a : A) → Keeps (k a))
      → SafeStep m (and_then s k)
  SafeStep-and_then m (step a es m') k (safe, time) h =
      SafeStep-after m m' es (k a m') time ((h a).runs m' safe)
  SafeStep-and_then m (stopped x) k s h = tt

  pub Keeps-bind : (c : C A) (k : A → C B) → Keeps c → ((a : A) → Keeps (k a)) → Keeps (c >>= k)
  Keeps-bind c k h hk = record { runs = λ m safe. SafeStep-and_then m (c m) k (h.runs m safe) hk }

-- The volume may change.
IsSafe-volume : (m : Machine) (v : Volume) → IsSafe m → IsSafe (record m { volume = v })
IsSafe-volume m v safe = record {
  tasks = safe.tasks;
  history = record { fits = safe.history.fits; short = safe.history.short };
}

SafeStep-outcome : {A : Type 0} (o : Outcome A) (m : Machine) → IsSafe m → SafeStep m (outcome o m)
SafeStep-outcome (ok a v) m safe = (IsSafe-volume m v safe, refl)
SafeStep-outcome (fail v) m safe = (IsSafe-volume m v safe, refl)
SafeStep-outcome hang m safe = tt

pub Keeps-print_all : (texts : List (List ℕ)) → Keeps (print_all texts)
Keeps-print_all texts = record { runs = λ m safe. (safe, refl) }

pub Keeps-if :
    {A : Type 0} (b : Bool) (c c' : C A) → Keeps c → Keeps c' → Keeps (if b then c else c')
Keeps-if true c c' h h' = h
Keeps-if false c c' h h' = h'

pub Keeps-file_command :
    {A : Type 0} (missing : Bool) (usage : List ℕ) (op : Volume → Outcome A)
    (failed : List (List ℕ)) (succeeded : A → List (List ℕ))
    → Keeps (file_command missing usage op failed succeeded)
unfolding file_command
Keeps-file_command missing usage op failed succeeded =
    Keeps-if missing (print usage)
      (on_volume op >>= λ result. print_all (on_result result failed succeeded))
      (Keeps-print_all (usage ∷ []))
      (Keeps-bind (on_volume op) (λ result. print_all (on_result result failed succeeded))
        (record { runs = λ m safe. SafeStep-outcome (op m.volume) m safe })
        λ result. Keeps-print_all (on_result result failed succeeded))

-- The two forms of the chain in `run_command`.
pub Keeps-on_line :
    (name line : List ℕ) (c c' : C (Unit {0})) → Keeps c → Keeps c' → Keeps (on_line name line c c')
Keeps-on_line name line c c' h h' = Keeps-if (str_eq line name) c c' h h'

Keeps-with_args :
    (r : Option (List ℕ)) (c : List ℕ → C (Unit {0})) (c' : C (Unit {0}))
    → ((args : List ℕ) → Keeps (c args))
    → Keeps c'
    → Keeps (with_args r c c')
Keeps-with_args none c c' h h' = h'
Keeps-with_args (some args) c c' h h' = h args

pub Keeps-on_word :
    (name line : List ℕ) (c : List ℕ → C (Unit {0})) (c' : C (Unit {0}))
    → ((args : List ℕ) → Keeps (c args))
    → Keeps c'
    → Keeps (on_word name line c c')
Keeps-on_word name line c c' h h' = Keeps-with_args (after_word name line) c c' h h'
