-- ===== src/Hardware/Intc.antt =====
-- The interrupt controller (core/hw/soc/omap35xx/soc_interrupt.c). Callbacks are addresses, 0 for none.
pub mod Laws
use sth.Base.{
  ℕ, zero, suc, ◌+◌, ◌*◌, ◌/◌, ◌%◌, ◌^◌, bit_and, bit_or, Bool, true, false, not, ◌||◌, ◌==◌,
  if◌then◌else◌, u32, not32, slt, update, List, [], ◌∷◌,
}
use sth.Hardware.{Bus, Io, ◌>>=◌, ◌>>◌, pure, stuck, load, store, io_va_address}

-- The variables of the driver.
pub record Intc : Type 0 where
  pub interrupt_handler : ℕ
  pub intc : ℕ
  pub irq_function_table : ℕ → ℕ

-- The addresses of functions.
pub record Functions : Type 0 where
  pub handler_stub : ℕ
  pub default_handler : ℕ
  pub irq_handler : ℕ

abbrev pub intc_base : ℕ
intc_base = 0x4820_0000

abbrev pub intc_source_count : ℕ
intc_source_count = 96

-- The registers, from the address of the controller; a section has eight.
abbrev pub sysconfig : ℕ → ℕ
sysconfig intc = intc + 0x10

abbrev pub sysstatus : ℕ → ℕ
sysstatus intc = intc + 0x14

abbrev pub control : ℕ → ℕ
control intc = intc + 0x48

abbrev pub mir : (intc section_ : ℕ) → ℕ
mir intc section_ = intc + 0x84 + 0x20 * section_

abbrev pub mir_clear : (intc section_ : ℕ) → ℕ
mir_clear intc section_ = intc + 0x88 + 0x20 * section_

abbrev pub mir_set : (intc section_ : ℕ) → ℕ
mir_set intc section_ = intc + 0x8c + 0x20 * section_

-- `n < 0 || n >= INTC_SOURCE_COUNT`
abbrev pub is_invalid : ℕ → Bool
is_invalid n = slt n 0 || not (slt n intc_source_count)

-- `if(!handler) handler = interrupt_handler_stub`
unfoldable pub cpu_irq_set_handler : Functions → (n handler : ℕ) → Intc → Intc
cpu_irq_set_handler f n handler c = if is_invalid n then c else record c {
  irq_function_table =
      update c.irq_function_table n (if handler == 0 then f.handler_stub else handler);
}

unfoldable pub interrupt_set : Functions → (irq irq_handler : ℕ) → Intc → Intc
unfolding cpu_irq_set_handler
interrupt_set f irq irq_handler c =
    cpu_irq_set_handler f irq f.handler_stub (record c { interrupt_handler = irq_handler })

-- The calls that `interrupt_handler_stub` makes: a callback and its arguments.
abbrev pub interrupt_handler_stub : Intc → (irq r1 r2 : ℕ) → List (ℕ × ℕ × ℕ × ℕ)
interrupt_handler_stub c irq r1 r2 =
    if c.interrupt_handler == 0 then [] else (c.interrupt_handler, irq, r1, r2) ∷ []

module _ {D : Type 0} (bus : Bus D) where
  unfoldable pub mask_interrupt : Intc → (irq : ℕ) → Io D (Unit {0})
  mask_interrupt c irq = store bus (u32 (mir_set c.intc (irq / 32))) (2 ^ (bit_and irq 31))

  unfoldable pub unmask_interrupt : Intc → (irq : ℕ) → Io D (Unit {0})
  unmask_interrupt c irq = store bus (u32 (mir_clear c.intc (irq / 32))) (2 ^ (bit_and irq 31))

  abbrev set_enable : (intc section_ pos : ℕ) → (enable : Bool) → Io D (Unit {0})
  set_enable intc section_ pos enable = do
    word ← load bus (mir intc section_)
    if enable
        then (do
          store bus (mir intc section_) (bit_and word (not32 (2 ^ pos)))
          store bus (mir_clear intc section_) (2 ^ pos))
        else (do
          store bus (mir intc section_) (bit_or word (2 ^ pos))
          store bus (mir_set intc section_) (2 ^ pos))

  unfoldable pub cpu_irq_set_enable : Intc → (n : ℕ) → (enable : Bool) → Io D (Unit {0})
  cpu_irq_set_enable c n enable =
      if is_invalid n then pure tt else set_enable c.intc (n / 32) (n % 32) enable

  -- `while(!(intc->intc_sysstatus & INTC_SYSSTATUS_RESET_DONE))`
  unfoldable pub wait_for_reset : (fuel intc : ℕ) → Io D (Unit {0})
  wait_for_reset zero intc = stuck
  wait_for_reset (suc fuel) intc = do
    word ← load bus (sysstatus intc)
    if bit_and word 1 == 0 then wait_for_reset fuel intc else pure tt

  -- `for(i = 0; i < INTC_SOURCE_COUNT; i++)`
  unfoldable pub turn_off : Functions → (count i : ℕ) → Intc → Io D Intc
  unfolding cpu_irq_set_enable cpu_irq_set_handler
  turn_off f zero i c = pure c
  turn_off f (suc count) i c = do
    cpu_irq_set_enable c i false
    turn_off f count (i + 1) (cpu_irq_set_handler f i f.default_handler c)

  unfoldable pub soc_interrupt_init : (fuel : ℕ) → Functions → Intc → Io D Intc
  unfolding wait_for_reset turn_off cpu_irq_set_enable
  soc_interrupt_init fuel f c =
      let base = io_va_address intc_base in
      let started = record c { interrupt_handler = f.irq_handler; intc = base } in
      (do
        store bus (sysconfig base) 2
        wait_for_reset fuel base
        ready ← turn_off f intc_source_count 0 started
        cpu_irq_set_enable ready 0x4a true
        store bus (control base) 1
        pure ready)
