-- ===== src/Hyper/Interrupt/Psr.antt =====
-- What `hypercall_interrupt_set` does to the guest's PSR.
use sth.Base.{
  ℕ, ◌+◌, ◌*◌, ◌/◌, ◌%◌, ◌^◌, ◌<◌, ◌≡◌, arith, bit_and, bit_or, not32, bit_and_split, bit_or_split,
  bit_and_mask, bit_and-zero, bit_or-zero, zero-bit_or, ◌==◌, leb, ◌-◌, if◌then◌else◌,
}
use sth.Hyper.{psr, Hyp, put_reg, ok, halted, unknown_interrupt_operation}
use sth.Hyper.Coherence.{IsCoherent}
use sth.Hyper.Interrupt.{interrupt_mask, hypercall_interrupt_set}

-- The IRQ and FIQ bits, as a number below 4.
abbrev flags : ℕ → ℕ
flags p = p / 64 % 4

mask_flags : (x : ℕ) → bit_and x interrupt_mask ≡ flags x * 64
mask_flags x =
    omega (
      arith,
      bit_and_split 6 x interrupt_mask,
      bit_and_mask 2 (x / 2 ^ 6),
      bit_and-zero (x % 2 ^ 6),
    )

-- Apart from its flags a PSR is its bits above them and its bits below them.
abbrev with_flags : (p f : ℕ) → ℕ
with_flags p f = p / 256 * 256 + f * 64 + p % 64

set_flags : (p f : ℕ) → f < 4 → bit_or p (f * 64) ≡ with_flags p (bit_or (flags p) f)
set_flags p f b = ground (
  arith,
  bit_or_split 6 p (f * 64),
  bit_or_split 2 (p / 2 ^ 6) f,
  bit_or-zero (p % 2 ^ 6),
  bit_or-zero (p / 2 ^ 6 / 2 ^ 2),
)

clear_flags :
    (p f : ℕ)
    → p < 2 ^ 32
    → f < 4
    → bit_and p (not32 (f * 64)) ≡ with_flags p (bit_and (flags p) (3 - f))
clear_flags p f w b = ground (
  arith,
  bit_and_split 6 p (not32 (f * 64)),
  bit_and_split 2 (p / 2 ^ 6) (not32 (f * 64) / 2 ^ 6),
  bit_and_mask 6 (p % 2 ^ 6),
  bit_and_mask 24 (p / 2 ^ 6 / 2 ^ 2),
)

-- The flags that an operation leaves: those asked for are cleared, set, or put in place.
abbrev pub new_flags : (op old asked : ℕ) → ℕ
new_flags op old asked =
    if op == 1 then bit_and old (3 - asked) else if op == 0 then bit_or old asked else asked

module _ (p interrupt : ℕ) (w : p < 2 ^ 32) where
  enable_psr :
      bit_and p (not32 (bit_and interrupt interrupt_mask))
      ≡ with_flags p (bit_and (flags p) (3 - flags interrupt))
  enable_psr = rw (mask_flags interrupt) (clear_flags p (flags interrupt) w (omega arith))

  disable_psr :
      bit_or p (bit_and interrupt interrupt_mask)
      ≡ with_flags p (bit_or (flags p) (flags interrupt))
  disable_psr = rw (mask_flags interrupt) (set_flags p (flags interrupt) (omega arith))

  restore_psr :
      bit_or (bit_and p (not32 interrupt_mask)) (bit_and interrupt interrupt_mask)
      ≡ with_flags p (flags interrupt)
  restore_psr =
      rw (mask_flags interrupt, clear_flags p 3 w (omega arith))
        (ground (
          arith,
          set_flags (with_flags p (bit_and (flags p) 0)) (flags interrupt),
          bit_and-zero (flags p),
          zero-bit_or (flags interrupt),
        ))

-- In a coherent state and on a 32-bit PSR, each of the three operations of
-- `hypercall_interrupt_set` changes nothing but the IRQ and FIQ bits of the current mode's PSR,
-- which become `new_flags`; any other operation halts the machine.
pub interrupt_set-with_flags :
    (interrupt op : ℕ) (s : Hyp)
    → IsCoherent s
    → (s.vm.mode_states s.vm.current_guest_mode).ctx psr < 2 ^ 32
    → hypercall_interrupt_set interrupt op s ≡ (
        let cur = s.vm.current_guest_mode in
        let p = (s.vm.mode_states cur).ctx psr in
        if leb op 2
        then ok tt (put_reg cur psr (with_flags p (new_flags op (flags p) (flags interrupt))) s)
        else halted unknown_interrupt_operation 1)
unfolding hypercall_interrupt_set
interrupt_set-with_flags interrupt op s c w =
    let p = (s.vm.mode_states s.vm.current_guest_mode).ctx psr in
    ground (arith, enable_psr p interrupt w, disable_psr p interrupt w, restore_psr p interrupt w)
