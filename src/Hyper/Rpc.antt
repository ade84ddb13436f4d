-- ===== src/Hyper/Rpc.antt =====
-- Remote procedure calls between guest modes (core/hypervisor/hypercalls/hyp_rpc.c).
pub mod Accept
pub mod Finish
pub mod Pairing
pub mod RoundTrip
use sth.Base.{ℕ, none, some, not, leb, ◌==◌, if◌then◌else◌}
use sth.Hyper.{
  gm_trusted, mode_none, pc, psr, RpcHandler, rpc_while_in_rpc, rpc_to_itself, rpc_to_busy_mode,
  rpc_unallowed, end_rpc_outside_rpc, end_rpc_not_started, fault, M, ◌>>=◌, ◌>>◌, hyper_panic,
  panic_if, get_vm, current, mode_state, set_mode_state, set_reg,
}
use sth.Hyper.Mode.{change_guest_mode}

-- `mode_states[mode].rpc_to = v`
set_rpc_to : ℕ → ℕ → M (Unit {0})
set_rpc_to mode v = do m ← mode_state mode; set_mode_state mode (record m { rpc_to = v })

set_rpc_for : ℕ → ℕ → M (Unit {0})
set_rpc_for mode v = do m ← mode_state mode; set_mode_state mode (record m { rpc_for = v })

-- The branch `rpc_op <= 4`.
enter_rpc : RpcHandler → (rpc_op arg : ℕ) → M (Unit {0})
unfolding set_rpc_to set_rpc_for
enter_rpc handler rpc_op arg = do
  vm ← get_vm
  cur ← current
  set_rpc_to cur handler.mode
  set_rpc_for handler.mode vm.current_guest_mode
  change_guest_mode gm_trusted
  cur ← current
  set_reg cur 0 rpc_op
  set_reg cur 1 arg
  set_reg cur pc handler.entry_point
  set_reg cur psr 0xd0

-- The handler that the configuration gives, once it is found to be there.
rpc_via : RpcHandler → (rpc_op arg : ℕ) → M (Unit {0})
unfolding enter_rpc
rpc_via handler rpc_op arg = do
  vm ← get_vm
  cur ← current
  m ← mode_state cur
  panic_if (not (m.rpc_to == mode_none)) rpc_while_in_rpc 1
  panic_if (vm.current_guest_mode == handler.mode) rpc_to_itself 1
  h ← mode_state handler.mode
  panic_if (not (h.rpc_for == mode_none)) rpc_to_busy_mode 1
  if leb rpc_op 4 then enter_rpc handler rpc_op arg else hyper_panic rpc_unallowed 1

unfoldable pub hypercall_rpc : (rpc_op arg : ℕ) → M (Unit {0})
unfolding rpc_via
hypercall_rpc rpc_op arg = do
  vm ← get_vm
  elim (vm.config.rpc_handlers) [ none ↦ λ s. fault | some handler ↦ rpc_via handler rpc_op arg ]

unfoldable pub hypercall_end_rpc : M (Unit {0})
unfolding set_rpc_to set_rpc_for
hypercall_end_rpc = do
  vm ← get_vm
  cur ← current
  m ← mode_state cur
  let calling_mode = m.rpc_for
  panic_if (calling_mode == mode_none) end_rpc_outside_rpc 1
  caller ← mode_state calling_mode
  panic_if (not (caller.rpc_to == vm.current_guest_mode)) end_rpc_not_started 1
  set_rpc_for cur mode_none
  set_rpc_to calling_mode mode_none
  change_guest_mode calling_mode
