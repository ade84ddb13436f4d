-- ===== src/Hyper/Interrupt.antt =====
-- Interrupts: core/hypervisor/hypercalls/hyp_interrupt.c, and `irq_handler` of
-- core/hypervisor/handlers.c.
pub mod Modes
pub mod RoundTrip
pub mod Psr
pub mod Validity
use sth.Base.{ℕ, ◌+◌, ◌*◌, bit_and, bit_or, not, leb, ◌==◌, if◌then◌else◌, u32, not32}
use sth.Hyper.{
  nguestmodes, gm_kernel, gm_interrupt, mode_none, sp, pc, psr, unknown_interrupt_operation,
  end_interrupt_outside, invalid_interrupted_mode, M, ◌>>=◌, ◌>>◌, hyper_panic, panic_if, get_vm,
  set_vm, current, reg, set_reg, load,
}
use sth.Hyper.Mode.{change_guest_mode}

-- ARM_IRQ_MASK and ARM_FIQ_MASK, or IRQ_MASK and FIQ_MASK
abbrev pub irq_mask : ℕ
irq_mask = 0x80

abbrev pub interrupt_mask : ℕ
interrupt_mask = 0xc0

-- Entries of the guest's exception vector.
abbrev pub v_irq : ℕ
v_irq = 6

-- `curr_vm->exception_vector[v]`
abbrev pub vector_entry : ℕ → M ℕ
vector_entry v = do vm ← get_vm; load (u32 (vm.exception_vector + 4 * v))

-- The new value of the PSR for each operation.
unfoldable pub hypercall_interrupt_set : (interrupt op : ℕ) → M (Unit {0})
hypercall_interrupt_set interrupt op = do
  let interrupt = bit_and interrupt interrupt_mask
  cur ← current
  p ← reg cur psr
  if op == 1
      then set_reg cur psr (bit_and p (not32 interrupt))
      else if op == 0
      then set_reg cur psr (bit_or p interrupt)
      else if op == 2
      then set_reg cur psr (bit_or (bit_and p (not32 interrupt_mask)) interrupt)
      else hyper_panic unknown_interrupt_operation 1

unfoldable pub hypercall_end_interrupt : M (Unit {0})
hypercall_end_interrupt = do
  vm ← get_vm
  panic_if (not (vm.current_guest_mode == gm_interrupt)) end_interrupt_outside 1
  panic_if (leb nguestmodes vm.interrupted_mode) invalid_interrupted_mode 2
  change_guest_mode vm.interrupted_mode
  vm ← get_vm
  set_vm (record vm { interrupted_mode = mode_none })

-- A first interrupt, outside the interrupt mode.
enter_interrupt : ℕ → M (Unit {0})
enter_interrupt irq = do
  vm ← get_vm
  set_vm (record vm { interrupted_mode = vm.current_guest_mode })
  change_guest_mode gm_interrupt
  cur ← current
  set_reg cur 0 irq
  entry ← vector_entry v_irq
  set_reg cur pc entry
  p ← reg cur psr
  set_reg cur psr (bit_or p irq_mask)
  stack ← reg gm_kernel sp
  set_reg cur sp stack

-- The arguments `r1` and `r2` are not read, and the result is always RV_OK. Whether the PSR of the
-- mode masks interrupts is a matter of the processor, so an interrupt may come here though it is masked.
unfoldable pub irq_handler : ℕ → M (Unit {0})
unfolding enter_interrupt
irq_handler irq = do
  vm ← get_vm
  if vm.current_guest_mode == gm_interrupt
      then (do cur ← current; p ← reg cur psr; set_reg cur psr (bit_or p irq_mask))
      else enter_interrupt irq
