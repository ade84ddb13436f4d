-- ===== src/Hyper/Handlers/Validity.antt =====
-- Every exception keeps the modes valid.
use sth.Base.{ℕ, zero, suc, refl}
use sth.Hyper.{RpcHandler, Platform, modify_cpu}
use sth.Hyper.Rpc.{hypercall_rpc, hypercall_end_rpc}
use sth.Hyper.Rpc.Pairing.{hypercall_rpc-IsValid, hypercall_end_rpc-IsValid}
use sth.Hyper.Interrupt.{hypercall_interrupt_set, hypercall_end_interrupt}
use sth.Hyper.Interrupt.Modes.{hypercall_end_interrupt-IsValid}
use sth.Hyper.Cache.SetWay.Validity.{hypercall_cache_op-Stable}
use sth.Hyper.Mmu.Validity.{
  hypercall_set_pte-Stable, hypercall_create_section-Stable, hypercall_switch_mm-Stable,
}
use sth.Hyper.PageDirectory.Validity.{
  hypercall_free_pgd-Stable, hypercall_new_pgd-Stable, hypercall_set_pmd-Stable,
}
use sth.Hyper.Registers.Validity.{
  hypercall_restore_regs-Stable, hypercall_restore_linux_regs-Stable, hypercall_set_tls-Stable,
  hypercall_guest_init-Stable,
}
use sth.Hyper.Handlers.{
  push_regs, push_context, push_frame, copy_params, enter_kernel, system_call, hypercall,
  swi_handler, enter_abort, prefetch_abort_handler, data_abort_handler,
}
use sth.Hyper.Stable.{Stable, stable, Ensures→Stable, modify_cpu-Stable}

module _ (h : RpcHandler) where
  push_regs-Stable : (f : ℕ → ℕ → ℕ) (mode to i left : ℕ) → Stable h (push_regs f mode to i left)
  unfolding push_regs
  push_regs-Stable f mode to i zero = search stable
  push_regs-Stable f mode to i (suc left) =
      let rest : (a j : ℕ) → Stable h (push_regs f mode a j left) =
        λ a j. push_regs-Stable f mode a j left in
      search (stable, rest) depth 10

  push_frame-Stable : Stable h push_frame
  unfolding push_frame push_context
  push_frame-Stable = search (stable, push_regs-Stable) depth 30

  copy_params-Stable : (i left : ℕ) → Stable h (copy_params i left)
  unfolding copy_params
  copy_params-Stable i zero = search stable
  copy_params-Stable i (suc left) =
      let rest : (j : ℕ) → Stable h (copy_params j left) = λ j. copy_params-Stable j left in
      search (stable, rest) depth 10

  enter_kernel-Stable : Stable h enter_kernel
  unfolding enter_kernel
  enter_kernel-Stable = search (stable, copy_params-Stable) depth 30

  system_call-Stable : Stable h system_call
  unfolding system_call
  system_call-Stable = search (stable, push_frame-Stable, enter_kernel-Stable) depth 30

  set_id-Stable : (n : ℕ) → Stable h (modify_cpu (λ c. record c { context_id = n }))
  set_id-Stable n = modify_cpu-Stable h _ (λ c. (refl, refl))

  rpc-Stable : (op arg : ℕ) → Stable h (hypercall_rpc op arg)
  rpc-Stable op arg = Ensures→Stable h _ (hypercall_rpc-IsValid h op arg)

  end_rpc-Stable : Stable h hypercall_end_rpc
  end_rpc-Stable = Ensures→Stable h _ (hypercall_end_rpc-IsValid h)

  end_interrupt-Stable : Stable h hypercall_end_interrupt
  end_interrupt-Stable = Ensures→Stable h _ (hypercall_end_interrupt-IsValid h)

  interrupt_set-Stable : (interrupt op : ℕ) → Stable h (hypercall_interrupt_set interrupt op)
  unfolding hypercall_interrupt_set
  interrupt_set-Stable interrupt op = search stable depth 20

  module _ (p : Platform) (fuel : ℕ) where
    hypercall-Stable : (number a b c : ℕ) → Stable h (hypercall p fuel number a b c)
    unfolding hypercall
    hypercall-Stable number a b c =
        search
          (
            stable, hypercall_guest_init-Stable, interrupt_set-Stable, end_interrupt-Stable,
            hypercall_cache_op-Stable, hypercall_set_tls-Stable, set_id-Stable,
            hypercall_restore_linux_regs-Stable, hypercall_restore_regs-Stable,
            hypercall_switch_mm-Stable, hypercall_new_pgd-Stable, hypercall_free_pgd-Stable,
            hypercall_create_section-Stable, hypercall_set_pmd-Stable, hypercall_set_pte-Stable,
            rpc-Stable, end_rpc-Stable,
          )
          depth 40

    pub swi_handler-Stable : (a b c number : ℕ) → Stable h (swi_handler p fuel a b c number)
    unfolding swi_handler
    swi_handler-Stable a b c number =
        search (stable, rpc-Stable, end_rpc-Stable, system_call-Stable, hypercall-Stable) depth 20

  enter_abort-Stable :
      (f : ℕ → ℕ → ℕ → ℕ) (v addr status : ℕ) → Stable h (enter_abort f v addr status)
  unfolding enter_abort
  enter_abort-Stable f v addr status = search (stable, push_regs-Stable) depth 40

  pub prefetch_abort_handler-Stable :
      (addr status : ℕ) → Stable h (prefetch_abort_handler addr status)
  unfolding prefetch_abort_handler
  prefetch_abort_handler-Stable addr status = search enter_abort-Stable

  pub data_abort_handler-Stable : (addr status : ℕ) → Stable h (data_abort_handler addr status)
  unfolding data_abort_handler
  data_abort_handler-Stable addr status = search enter_abort-Stable
