-- ===== src/Hyper/Interrupt/RoundTrip.antt =====
-- An interrupt and its end, together.
use sth.Base.{ℕ, ◌≡◌, ◌≢◌, refl, arith, ne→==}
use sth.Hyper.{gm_interrupt, mode_none, RpcHandler, Hyp, ok}
use sth.Hyper.Validity.{IsValid, SameCalls}
use sth.Hyper.Interrupt.{irq_handler, hypercall_end_interrupt}
use sth.Hyper.Interrupt.Modes.{
  HasVector, interrupted, resumed, irq_handler_lem, hypercall_end_interrupt_lem,
  interrupted-SameCalls,
}

-- `u` is `s` but for the interrupt mode's registers, and no interrupt is open.
pub record Back (s u : Hyp) : Type 0 where
  pub mode : u.vm.current_guest_mode ≡ s.vm.current_guest_mode
  pub domain : u.cpu.domain ≡ s.cpu.domain
  pub closed : u.vm.interrupted_mode ≡ mode_none
  pub memory : u.mem ≡ s.mem
  pub calls : SameCalls s u
  pub registers : (m : ℕ) → m ≢ gm_interrupt → (u.vm.mode_states m).ctx ≡ (s.vm.mode_states m).ctx

module _ (h : RpcHandler) (irq : ℕ) (s : Hyp) (v : IsValid h s) (a : HasVector s)
    (outside : s.vm.current_guest_mode ≢ gm_interrupt) where
  irq-ok : irq_handler irq s ≡ ok tt (interrupted irq s)
  irq-ok = rw (irq_handler_lem irq s v.coherent a, ne→== _ _ outside)

  -- Outside the interrupt mode, an interrupt that is ended at once brings the interrupted mode
  -- back with its access rights; memory, calls and the other modes' registers are as they were.
  pub irq-end_interrupt :
      (t u : Hyp) × (irq_handler irq s ≡ ok tt t)
      × (t.vm.current_guest_mode ≡ gm_interrupt)
      × (hypercall_end_interrupt t ≡ ok tt u)
      × Back s u
  irq-end_interrupt = (
    interrupted irq s,
    resumed (interrupted irq s),
    irq-ok,
    refl,
    ground (arith, hypercall_end_interrupt_lem (interrupted irq s), v.coherent.bound),
    record {
      mode = refl;
      domain = ground (
        arith,
        v.coherent.configured s.vm.current_guest_mode,
        v.coherent.bound,
        v.coherent.domain,
        (interrupted-SameCalls irq s).mode_config s.vm.current_guest_mode,
      );
      closed = refl;
      memory = refl;
      calls = record {
        config = refl;
        mode_config = λ m. ground arith;
        rpc_to = λ m. ground arith;
        rpc_for = λ m. ground arith;
      };
      registers = λ m ne. ground arith;
    },
  )
