-- ===== src/Ata/Address.antt =====
-- What the port accesses of kernel/disk.c ask of a drive that reads its registers as a 28-bit address.
use rink_os.Prelude.{
  ℕ, zero, suc, ◌+◌, ◌*◌, ◌/◌, ◌%◌, ◌^◌, ◌<◌, ◌≡◌, ◌∙◌, refl, ap, ap₂, Bool-cases, inl, inr, List,
  [], ◌∷◌, ◌++◌, arith, ◌==◌, if◌then◌else◌,
}
use rink_os.Disk.{Buf}
use rink_os.Ata.{
  Action, wait_ready, wait_drq, outb, outw, inw, ata_seccount, ata_lba_low, ata_lba_mid,
  ata_lba_high, ata_drive_head, ata_command, select, word_at, words_out, words_in, byte_of,
  read_actions, write_actions,
}

-- The registers, by port.
abbrev pub Registers : Type 0
Registers = ℕ → ℕ

abbrev pub address : Registers → ℕ
address r =
    r ata_lba_low + r ata_lba_mid * 2 ^ 8 + r ata_lba_high * 2 ^ 16 + r ata_drive_head % 16 * 2 ^ 24

-- A command, with the address and the number of sectors in the registers at its time.
abbrev pub Command : Type 0
Command = ℕ × ℕ × ℕ

unfoldable pub commands : Registers → List Action → List Command
commands r [] = []
commands r (outb port x ∷ rest) =
    let after = commands (λ p. if p == port then x else r p) rest in
    if port == ata_command then (x, address r, r ata_seccount) ∷ after else after
commands r (wait_ready ∷ rest) = commands r rest
commands r (wait_drq ∷ rest) = commands r rest
commands r (outw port x ∷ rest) = commands r rest
commands r (inw port ∷ rest) = commands r rest

commands-words_out :
    (n i : ℕ) (buf : Buf) (r : Registers) (rest : List Action)
    → commands r (words_out n i buf ++ rest) ≡ commands r rest
unfolding commands words_out
commands-words_out zero i buf r rest = refl
commands-words_out (suc n) i buf r rest = commands-words_out n (i + 1) buf r rest

commands-words_in : (n : ℕ) (r : Registers) → commands r (words_in n) ≡ []
unfolding commands words_in
commands-words_in zero r = refl
commands-words_in (suc n) r = commands-words_in n r

-- The four bytes of the address give it back.
address-bytes :
    (lba : ℕ)
    → lba < 2 ^ 28
    → lba % 256
        + lba / 2 ^ 8 % 256 * 2 ^ 8
        + lba / 2 ^ 16 % 256 * 2 ^ 16
        + (0xE0 + lba / 2 ^ 24 % 16) % 16 * 2 ^ 24
      ≡ lba
address-bytes lba h = omega arith

-- For a sector below 2 ^ 28, disk_read_sector and disk_write_sector leave the address of the
-- sector and the count 1 in the registers at each command, and issue one read, or one write and
-- one flush of the cache.
pub commands-actions :
    (lba : ℕ) (buf : Buf) (r : Registers)
    → lba < 2 ^ 28
    → (commands r (read_actions lba) ≡ (0x20, lba, 1) ∷ [])
      × (commands r (write_actions lba buf) ≡ (0x30, lba, 1) ∷ (0xE7, lba, 1) ∷ [])
unfolding commands read_actions write_actions select
commands-actions lba buf r h = (
  ap₂ (λ a rest. (0x20, a, 1) ∷ rest) (address-bytes lba h) (commands-words_in 256 _),
  ap₂ (λ a rest. (0x30, a, 1) ∷ rest) (address-bytes lba h)
      (commands-words_out 256 0 buf _ _ ∙ ap (λ a. (0xE7, a, 1) ∷ []) (address-bytes lba h)),
)

-- The words that a write sends are those from which a read fills the same bytes.
pub byte_of-word_at :
    (buf : Buf) (o : ℕ) → ((i : ℕ) → buf i < 256) → byte_of (word_at buf) o ≡ buf o
unfolding byte_of word_at
byte_of-word_at buf o byte = elim (Bool-cases (o % 2 == 0)) [
  | inl even ↦
      let q : 2 * (o / 2) ≡ o = ground arith in
      let lo = byte (2 * (o / 2)) in rw even (omega (arith, lo) ∙ ap buf q)
  | inr odd ↦
      let q : 2 * (o / 2) + 1 ≡ o = ground arith in
      let lo = byte (2 * (o / 2)) in
      let hi = byte (2 * (o / 2) + 1) in rw odd (omega (arith, lo, hi) ∙ ap buf q)
]
