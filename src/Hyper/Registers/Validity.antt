-- ===== src/Hyper/Registers/Validity.antt =====
-- The restoring of registers, and the boot information, keep the modes valid.
use sth.Base.{ℕ, zero, suc, Bool, refl}
use sth.Hyper.{RpcHandler, GuestInfo, Platform, M, ◌>>=◌, ◌>>◌, get_vm, set_vm, pure, out_of_fuel}
use sth.Hyper.Registers.{
  pop_regs, restore_kernel, restore_task, hypercall_restore_regs, hypercall_restore_linux_regs,
  hypercall_set_tls, clear_loop, clear_linux_mappings, hypercall_guest_init,
}
use sth.Hyper.Stable.{Stable, stable, modify_cpu-Stable, same-IsValid}

module _ (h : RpcHandler) where
  pop_regs-Stable : (mode from i left : ℕ) → Stable h (pop_regs mode from i left)
  unfolding pop_regs
  pop_regs-Stable mode from i zero = search stable
  pop_regs-Stable mode from i (suc left) =
      let rest : (a j : ℕ) → Stable h (pop_regs mode a j left) =
        λ a j. pop_regs-Stable mode a j left in
      search (stable, rest) depth 12

  pub hypercall_restore_regs-Stable : (regs : ℕ) → Stable h (hypercall_restore_regs regs)
  unfolding hypercall_restore_regs
  hypercall_restore_regs-Stable regs = search (stable, pop_regs-Stable) depth 20

  restore_kernel-Stable : (stack mode pc : ℕ) → Stable h (restore_kernel stack mode pc)
  unfolding restore_kernel
  restore_kernel-Stable stack mode pc = search (stable, pop_regs-Stable) depth 30

  restore_task-Stable :
      (stack mode offset value : ℕ) (syscall : Bool)
      → Stable h (restore_task stack mode offset value syscall)
  unfolding restore_task
  restore_task-Stable stack mode offset value syscall = search (stable, pop_regs-Stable) depth 30

  pub hypercall_restore_linux_regs-Stable :
      (value : ℕ) (syscall : Bool) → Stable h (hypercall_restore_linux_regs value syscall)
  unfolding hypercall_restore_linux_regs
  hypercall_restore_linux_regs-Stable value syscall =
      search (stable, restore_kernel-Stable, restore_task-Stable) depth 20

  pub hypercall_set_tls-Stable : (id : ℕ) → Stable h (hypercall_set_tls id)
  hypercall_set_tls-Stable id =
      modify_cpu-Stable h (λ c. record c { thread_id = id }) (λ c. (refl, refl))

  out_of_fuel-Stable : {A : Type 0} → Stable h {A = A} (λ s. out_of_fuel)
  out_of_fuel-Stable = record { keeps = λ s v. tt }

  clear_loop-Stable :
      (p : Platform) (bound fuel address : ℕ) → Stable h (clear_loop p bound fuel address)
  unfolding clear_loop
  clear_loop-Stable p bound zero address = out_of_fuel-Stable
  clear_loop-Stable p bound (suc fuel) address =
      let rest : (a : ℕ) → Stable h (clear_loop p bound fuel a) = clear_loop-Stable p bound fuel in
      search (stable, rest) depth 12

  pub clear_linux_mappings-Stable :
      (p : Platform) (fuel : ℕ) → Stable h (clear_linux_mappings p fuel)
  unfolding clear_linux_mappings
  clear_linux_mappings-Stable p fuel = search (stable, clear_loop-Stable) depth 12

  -- The guest's own information is no part of the modes.
  set_info-Stable :
      (g : GuestInfo) (vector : ℕ) (k : M (Unit {0}))
      → Stable h k
      → Stable h
          (get_vm >>= λ vm. (set_vm (record vm { guest_info = g; exception_vector = vector }) >> k))
  set_info-Stable g vector k next = record {
    keeps = λ s v.
        next.keeps (record s { vm = record (s.vm) { guest_info = g; exception_vector = vector } })
          (same-IsValid h s _
            (record {
              config = refl;
              mode_config = λ m. refl;
              rpc_to = λ m. refl;
              rpc_for = λ m. refl;
            })
            refl refl refl refl v);
  }

  boot-Stable : Stable h (λ s. pure s.boot s)
  boot-Stable = record { keeps = λ s v. v }

  set_boot-Stable : (n : ℕ) → Stable h (λ s. pure tt (record s { boot = n }))
  set_boot-Stable n = record {
    keeps = λ s v.
        same-IsValid h s _
          (record {
            config = refl;
            mode_config = λ m. refl;
            rpc_to = λ m. refl;
            rpc_for = λ m. refl;
          })
          refl refl refl refl v;
  }

  pub hypercall_guest_init-Stable :
      (p : Platform) (fuel info : ℕ) → Stable h (hypercall_guest_init p fuel info)
  unfolding hypercall_guest_init
  hypercall_guest_init-Stable p fuel info =
      search (stable, boot-Stable, set_boot-Stable, clear_linux_mappings-Stable, set_info-Stable)
        depth 40
