-- ===== src/Interrupts.antt =====
-- The interrupt table of kernel/idt.c, the interrupt controller of kernel/pic.c and the timer of
-- kernel/timer.c. The table is loaded by an instruction that no function of C reads back.
pub mod Gates
pub mod Ticks
pub mod Turns
use rink_os.Prelude.{
  ℕ, zero, suc, ◌+◌, ◌-◌, ◌*◌, ◌/◌, ◌%◌, ◌^◌, ◌||◌, Option, none, some, List, [], ◌∷◌, ◌==◌,
  if◌then◌else◌,
}
use rink_os.Tasks.{Sched, Switch, schedule}

-- `outb(port, value)`
abbrev pub Out : Type 0
Out = ℕ × ℕ

-- `struct idt_entry`
pub record IdtEntry : Type 0 where
  pub base_low : ℕ
  pub selector : ℕ
  pub always0 : ℕ
  pub flags : ℕ
  pub base_high : ℕ

-- `struct idt_ptr`
pub record IdtPtr : Type 0 where
  pub limit : ℕ
  pub base : ℕ

-- `|` on the lowest `n` bits
unfoldable pub bit_or : ℕ → ℕ → ℕ → ℕ
bit_or zero a b = 0
bit_or (suc n) a b = (if (a % 2 == 1) || (b % 2 == 1) then 1 else 0) + 2 * bit_or n (a / 2) (b / 2)

-- `(present << 7) | 0x8E`, in `uint8_t`
unfoldable pub gate_flags : ℕ → ℕ
unfolding bit_or
gate_flags present = bit_or 8 (present * 2 ^ 7) 0x8E

-- `idt[]`, by number below 256
abbrev pub Idt : Type 0
Idt = ℕ → IdtEntry

unfoldable pub idt_set_gate : Idt → ℕ → ℕ → ℕ → Idt
unfolding gate_flags
idt_set_gate idt num base present n =
    if n == num
    then record {
      base_low = base % 65536;
      selector = 0x08;
      always0 = 0;
      flags = gate_flags present;
      base_high = base / 65536 % 65536;
    }
    else idt n

-- `for (int i = 0; i < 256; i++)` from `i` on, with `n` gates left
unfoldable pub clear_gates : ℕ → ℕ → Idt → Idt
clear_gates zero i idt = idt
clear_gates (suc n) i idt = clear_gates n (i + 1) (idt_set_gate idt i 0 0)

-- The addresses of the two stubs, of the table, and the table before; the pointer loaded, and the
-- table.
unfoldable pub idt_init : ℕ → ℕ → ℕ → Idt → IdtPtr × Idt
idt_init keyboard_stub timer_stub table idt = (
  record { limit = 256 * 8 - 1; base = table },
  idt_set_gate (idt_set_gate (clear_gates 256 0 idt) 33 keyboard_stub 1) 32 timer_stub 1,
)

-- Master and slave, each with its four initialisation words and its mask.
abbrev pub pic_remap : List Out
pic_remap =
    (0x20, 0x11)
    ∷ (0xA0, 0x11)
    ∷ (0x21, 0x20)
    ∷ (0xA1, 0x28)
    ∷ (0x21, 0x04)
    ∷ (0xA1, 0x02)
    ∷ (0x21, 0x01)
    ∷ (0xA1, 0x01)
    ∷ (0x21, 0xFC)
    ∷ (0xA1, 0xFF)
    ∷ []

-- The static variables of kernel/timer.c
pub record Timer : Type 0 where
  pub ticks : ℕ
  pub tick_frequency : ℕ

-- Before any call: `ticks = 0`, `tick_frequency = 100`
abbrev pub timer_start : Timer
timer_start = record { ticks = 0; tick_frequency = 100 }

-- The frequency is not 0, where the division would trap.
unfoldable pub timer_init : ℕ → Timer → Timer × List Out
timer_init frequency_hz t =
    let divisor = 1193182 / frequency_hz % 65536 in
    (
      record t { tick_frequency = frequency_hz },
      (0x43, 0x36) ∷ (0x40, divisor % 256) ∷ (0x40, divisor / 256 % 256) ∷ [],
    )

-- `ticks++`
unfoldable pub tick : Timer → Timer
tick t = record t { ticks = (t.ticks + 1) % 2 ^ 32 }

-- The handler on the stack of the running task, at `esp`; `none` where `schedule` does not end.
unfoldable pub timer_handler : ℕ → Timer → Sched → Option (Timer × List Out × Sched × Switch)
timer_handler esp t s = elim (schedule esp s) [
  | none ↦ none
  | some (s', switch) ↦ some (tick t, (0x20, 0x20) ∷ [], s', switch)
]

abbrev pub timer_get_ticks : Timer → ℕ
timer_get_ticks t = t.ticks

unfoldable pub timer_get_seconds : Timer → ℕ
timer_get_seconds t = t.ticks / t.tick_frequency
