-- ===== src/Interrupts/Gates.antt =====
-- What the gates of kernel/idt.c hold.
use rink_os.Prelude.{
  ℕ, zero, suc, ◌+◌, ◌*◌, ◌^◌, ◌<◌, ◌≡◌, refl, Bool-cases, inl, inr, true, false, arith, ltb, leb,
  ◌&&◌, ◌==◌, if◌then◌else◌,
}
use rink_os.Interrupts.{IdtEntry, Idt, gate_flags, bit_or, idt_set_gate, clear_gates, idt_init}

-- The address that the processor puts together.
abbrev pub gate_base : IdtEntry → ℕ
gate_base e = e.base_low + e.base_high * 65536

-- A gate as the processor reads it: the handler, the code segment, and the flags of a present
-- interrupt gate of 32 bits.
pub record IsGate (e : IdtEntry) (handler : ℕ) : Type 0 where
  pub handler_at : gate_base e ≡ handler
  pub segment : e.selector ≡ 0x08
  pub kind : e.flags ≡ 0x8E

flags_present : (gate_flags 0 ≡ 0x8E) × (gate_flags 1 ≡ 0x8E)
unfolding gate_flags bit_or
flags_present = (refl, refl)

idt_set_gate-other :
    (idt : Idt) (num base present n : ℕ)
    → (n == num) ≡ false
    → idt_set_gate idt num base present n ≡ idt n
unfolding idt_set_gate
idt_set_gate-other idt num base present n ne = rw ne refl

idt_set_gate-IsGate :
    (idt : Idt) (num base present n : ℕ)
    → base < 2 ^ 32
    → gate_flags present ≡ 0x8E
    → (n == num) ≡ true
    → IsGate (idt_set_gate idt num base present n) base
unfolding idt_set_gate
idt_set_gate-IsGate idt num base present n word f here =
    rw here (record { handler_at = omega arith; segment = refl; kind = f })

clear_gates-lem :
    (n i : ℕ) (idt : Idt) (j : ℕ)
    → clear_gates n i idt j ≡ (if leb i j && ltb j (i + n) then idt_set_gate idt j 0 0 j else idt j)
unfolding clear_gates idt_set_gate
clear_gates-lem zero i idt j = ground arith
clear_gates-lem (suc n) i idt j =
    ground (arith, clear_gates-lem n (i + 1) (idt_set_gate idt i 0 0) j)

-- After idt_init each of the 256 gates is an interrupt gate of the kernel's code segment that is
-- marked present: gate 33 leads to the keyboard's stub, gate 32 to the timer's, and every other
-- one to address 0; the pointer covers the 256 gates.
pub idt_init-IsGate :
    (keyboard_stub timer_stub table : ℕ) (idt : Idt) (n : ℕ)
    → keyboard_stub < 2 ^ 32
    → timer_stub < 2 ^ 32
    → n < 256
    → IsGate
        ((idt_init keyboard_stub timer_stub table idt).1 n)
        (if n == 32 then timer_stub else if n == 33 then keyboard_stub else 0)
      × ((idt_init keyboard_stub timer_stub table idt).0.limit + 1 ≡ 256 * 8)
unfolding idt_init
idt_init-IsGate keyboard_stub timer_stub table idt n kb tm lt = (
  elim (Bool-cases (n == 32)) [
    | inl at_32 ↦ rw at_32 (idt_set_gate-IsGate _ 32 timer_stub 1 n tm flags_present.1 at_32)
    | inr not_32 ↦
        let past =
          idt_set_gate-other (idt_set_gate (clear_gates 256 0 idt) 33 keyboard_stub 1) 32 timer_stub
            1 n not_32 in
        elim (Bool-cases (n == 33)) [
          | inl at_33 ↦
              rw (not_32, at_33, past)
                (idt_set_gate-IsGate _ 33 keyboard_stub 1 n kb flags_present.1 at_33)
          | inr not_33 ↦
              let past' = idt_set_gate-other (clear_gates 256 0 idt) 33 keyboard_stub 1 n not_33 in
              let below : (leb 0 n && ltb n (0 + 256)) ≡ true = ground arith in
              let same : (n == n) ≡ true = ground arith in
              rw (not_32, not_33, past, past', clear_gates-lem 256 0 idt n, below)
                (idt_set_gate-IsGate idt n 0 0 n (omega arith) flags_present.0 same)
        ]
  ],
  refl,
)
