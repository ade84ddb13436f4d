-- ===== src/Hyper/Interrupt/Modes.antt =====
-- The states in which `irq_handler` and `hypercall_end_interrupt` leave the machine.
use sth.Base.{ℕ, ◌+◌, ◌*◌, ◌%◌, ◌<◌, ◌≡◌, refl, arith, bit_or, not, leb, ◌==◌, if◌then◌else◌, u32}
use sth.Hyper.{
  nguestmodes, gm_kernel, gm_interrupt, mode_none, sp, pc, psr, RpcHandler, Hyp, put_reg, ok,
  halted, end_interrupt_outside, invalid_interrupted_mode,
}
use sth.Hyper.Mode.{change_guest_mode}
use sth.Hyper.Coherence.{IsCoherent, Ensures, switched}
use sth.Hyper.Validity.{IsValid, SameCalls, Runs-IsValid}
use sth.Hyper.Interrupt.{irq_mask, v_irq, irq_handler, hypercall_end_interrupt}

-- The guest's exception vector is a table of aligned words.
abbrev pub HasVector : Hyp → Type 0
HasVector s = s.vm.exception_vector % 4 ≡ 0

abbrev pub set_interrupted : ℕ → Hyp → Hyp
set_interrupted m s = record s { vm = record (s.vm) { interrupted_mode = m } }

-- The interrupt mode runs at the guest's handler, on the kernel's stack, with IRQs off.
abbrev pub interrupted : ℕ → Hyp → Hyp
interrupted irq s =
    let a = switched gm_interrupt (set_interrupted s.vm.current_guest_mode s) in
    let b = put_reg gm_interrupt 0 irq a in
    let c = put_reg gm_interrupt pc (s.mem (u32 (s.vm.exception_vector + 4 * v_irq))) b in
    let d =
      put_reg gm_interrupt psr (bit_or ((c.vm.mode_states gm_interrupt).ctx psr) irq_mask) c in
    put_reg gm_interrupt sp ((d.vm.mode_states gm_kernel).ctx sp) d

abbrev pub masked : Hyp → Hyp
masked s = put_reg gm_interrupt psr (bit_or ((s.vm.mode_states gm_interrupt).ctx psr) irq_mask) s

-- `irq_handler`: an interrupt inside the interrupt mode only masks IRQs.
pub irq_handler_lem :
    (irq : ℕ) (s : Hyp)
    → IsCoherent s
    → HasVector s
    → irq_handler irq s
      ≡ ok tt (if s.vm.current_guest_mode == gm_interrupt then masked s else interrupted irq s)
unfolding irq_handler change_guest_mode
irq_handler_lem irq s c a = ground arith

abbrev pub resumed : Hyp → Hyp
resumed s = set_interrupted mode_none (switched s.vm.interrupted_mode s)

-- `hypercall_end_interrupt` by its guards, in their order.
pub hypercall_end_interrupt_lem :
    (s : Hyp)
    → hypercall_end_interrupt s ≡ (
        if not (s.vm.current_guest_mode == gm_interrupt)
        then halted end_interrupt_outside 1
        else if leb nguestmodes s.vm.interrupted_mode
        then halted invalid_interrupted_mode 2
        else ok tt (resumed s))
unfolding hypercall_end_interrupt change_guest_mode
hypercall_end_interrupt_lem s = ground arith

pub interrupted-SameCalls : (irq : ℕ) (s : Hyp) → SameCalls s (interrupted irq s)
interrupted-SameCalls irq s = record {
  config = refl;
  mode_config = λ m. ground arith;
  rpc_to = λ m. ground arith;
  rpc_for = λ m. ground arith;
}

masked-SameCalls : (s : Hyp) → SameCalls s (masked s)
masked-SameCalls s = record {
  config = refl;
  mode_config = λ m. ground arith;
  rpc_to = λ m. ground arith;
  rpc_for = λ m. ground arith;
}

pub resumed-SameCalls : (s : Hyp) → SameCalls s (resumed s)
resumed-SameCalls s = record {
  config = refl;
  mode_config = λ m. refl;
  rpc_to = λ m. refl;
  rpc_for = λ m. refl;
}

module _ (h : RpcHandler) (s : Hyp) (v : IsValid h s) where
  pub interrupted-IsValid : (irq : ℕ) → IsValid h (interrupted irq s)
  interrupted-IsValid irq =
      Runs-IsValid h v (interrupted-SameCalls irq s) {mode = gm_interrupt} (omega arith) (record {
        current = refl;
        pointer = refl;
        context = refl;
        domain = ground (arith, v.coherent.configured gm_interrupt);
      })

  masked-IsValid : IsValid h (masked s)
  masked-IsValid = Runs-IsValid h v (masked-SameCalls s) v.coherent.bound (record {
    current = refl;
    pointer = v.coherent.pointer;
    context = v.coherent.context;
    domain = v.coherent.domain;
  })

  pub resumed-IsValid : s.vm.interrupted_mode < nguestmodes → IsValid h (resumed s)
  resumed-IsValid b = Runs-IsValid h v (resumed-SameCalls s) b (record {
    current = refl;
    pointer = refl;
    context = refl;
    domain = ground (arith, v.coherent.configured s.vm.interrupted_mode b);
  })

  -- With an aligned exception vector `irq_handler` halts the machine or keeps the modes valid; it
  -- makes no undefined access.
  pub irq_handler-IsValid : (irq : ℕ) → HasVector s → Ensures (IsValid h) (irq_handler irq s)
  irq_handler-IsValid irq a =
      rw (irq_handler_lem irq s v.coherent a)
        (grind (arith, masked-IsValid, interrupted-IsValid irq))

  -- `hypercall_end_interrupt` halts the machine or keeps the modes valid; it makes no undefined
  -- access.
  pub hypercall_end_interrupt-IsValid : Ensures (IsValid h) (hypercall_end_interrupt s)
  hypercall_end_interrupt-IsValid =
      rw (hypercall_end_interrupt_lem s) (grind (arith, resumed-IsValid))
