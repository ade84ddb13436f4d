-- ===== src/Hyper/Interrupt/Validity.antt =====
-- An interrupt keeps the modes valid, whatever the exception vector holds.
use sth.Base.{ℕ, refl}
use sth.Hyper.{RpcHandler, M, ◌>>=◌, ◌>>◌, get_vm, set_vm}
use sth.Hyper.Interrupt.{enter_interrupt, irq_handler}
use sth.Hyper.Stable.{Stable, stable, same-IsValid}

module _ (h : RpcHandler) where
  set_interrupted-Stable :
      (k : M (Unit {0}))
      → Stable h k
      → Stable h
          (get_vm >>= λ vm. set_vm (record vm { interrupted_mode = vm.current_guest_mode }) >> k)
  set_interrupted-Stable k next = record {
    keeps = λ s v.
        next.keeps (record s { vm = record (s.vm) { interrupted_mode = s.vm.current_guest_mode } })
          (same-IsValid h s _
            (record {
              config = refl;
              mode_config = λ m. refl;
              rpc_to = λ m. refl;
              rpc_for = λ m. refl;
            })
            refl refl refl refl v);
  }

  enter_interrupt-Stable : (irq : ℕ) → Stable h (enter_interrupt irq)
  unfolding enter_interrupt
  enter_interrupt-Stable irq = search (set_interrupted-Stable, stable) depth 30

  pub irq_handler-Stable : (irq : ℕ) → Stable h (irq_handler irq)
  unfolding irq_handler
  irq_handler-Stable irq = search (stable, enter_interrupt-Stable) depth 20
