-- ===== src/Hyper/Mode.antt =====
-- Guest modes: `change_guest_mode` of core/hypervisor/hypercalls/hypercalls.c, and the part of
-- `guests_init` in core/hypervisor/init.c that sets the virtual machine up.
use sth.Base.{ℕ, zero, suc, ◌+◌, none, some, leb}
use sth.Hyper.{
  nguestmodes, gm_trusted, gm_kernel, gm_interrupt, mode_none, sp, psr, HcConfig,
  unknown_guest_mode, fault, M, pure, ◌>>=◌, ◌>>◌, panic_if, get_vm, set_vm, modify_cpu, mode_state,
  set_mode_state, set_reg,
}

unfoldable pub change_guest_mode : ℕ → M (Unit {0})
change_guest_mode mode = do
  panic_if (leb nguestmodes mode) unknown_guest_mode 1
  vm ← get_vm
  set_vm (record vm { current_mode_state = some mode })
  modify_cpu (λ c. record c { context = some mode })
  vm ← get_vm
  set_vm (record vm { current_guest_mode = mode })
  m ← mode_state mode
  modify_cpu (λ c. record c { domain = m.mode_config.domain_ac })

-- One round of the loop over the modes.
init_mode : ℕ → M (Unit {0})
init_mode i = do
  vm ← get_vm
  m ← mode_state i
  set_mode_state i
      (record m { mode_config = vm.config.guest_modes i; rpc_for = mode_none; rpc_to = mode_none })

-- `for(i = 0; i < HC_NGUESTMODES; i++)`, with `left` rounds left.
init_modes : (i left : ℕ) → M (Unit {0})
init_modes i zero = pure tt
init_modes i (suc left) = init_mode i >> init_modes (i + 1) left

-- The stack pointer and the PSR of the trusted mode, set before the loop. A null `rpc_handlers` is
-- read through.
init_trusted : M (Unit {0})
init_trusted = do
  vm ← get_vm
  elim (vm.config.rpc_handlers) [
    | none ↦ λ s. fault
    | some handler ↦ set_reg gm_trusted sp handler.sp >> set_reg gm_trusted psr 0xd0
  ]

-- `guests_init` of the configuration with the trusted guest, less its page tables.
unfoldable pub guests_init : HcConfig → M (Unit {0})
unfolding init_mode init_modes init_trusted
guests_init config = do
  vm ← get_vm
  set_vm (record vm { config = config })
  init_trusted
  init_modes 0 nguestmodes
  vm ← get_vm
  set_vm (record vm {
    current_guest_mode = mode_none;
    interrupted_mode = mode_none;
    current_mode_state = none;
  })
  set_reg gm_interrupt psr 0x10
  modify_cpu (λ c. record c { context = some gm_kernel })

-- `start_guest`, up to the jump into the guest.
unfoldable pub start_guest : M (Unit {0})
start_guest = change_guest_mode gm_kernel
