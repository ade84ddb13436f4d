-- ===== src/Hyper/Rpc/Finish.antt =====
-- The state in which `hypercall_end_rpc` leaves the machine.
use sth.Base.{ℕ, ◌<◌, ◌≡◌, ◌≢◌, arith, not, ◌==◌, if◌then◌else◌}
use sth.Hyper.{
  nguestmodes, mode_none, put_mode, ModeState, Hyp, ok, halted, end_rpc_outside_rpc,
  end_rpc_not_started,
}
use sth.Hyper.Mode.{change_guest_mode}
use sth.Hyper.Coherence.{IsCoherent, switched}
use sth.Hyper.Rpc.{hypercall_end_rpc}

-- Both sides of the call are free again, and the caller runs.
abbrev pub finished : (caller : ℕ) → Hyp → Hyp
finished caller s =
    let cur = s.vm.current_guest_mode in
    let a = put_mode cur (record (s.vm.mode_states cur) { rpc_for = mode_none }) s in
    let b = put_mode caller (record (a.vm.mode_states caller) { rpc_to = mode_none }) a in
    switched caller b

module _ (caller : ℕ) (s : Hyp) where
  abbrev finished_mode : ℕ → ModeState
  finished_mode = (finished caller s).vm.mode_states

  pub finished-rpc_to :
      (m : ℕ)
      → (finished_mode m).rpc_to ≡ (if caller == m then mode_none else (s.vm.mode_states m).rpc_to)
  finished-rpc_to m = ground arith

  pub finished-rpc_for :
      (m : ℕ)
      → (finished_mode m).rpc_for
        ≡ (if s.vm.current_guest_mode == m then mode_none else (s.vm.mode_states m).rpc_for)
  finished-rpc_for m = ground arith

  pub finished-configured :
      (m : ℕ) → (finished_mode m).mode_config ≡ (s.vm.mode_states m).mode_config
  finished-configured m = ground arith

  pub finished-ctx : (m : ℕ) → (finished_mode m).ctx ≡ (s.vm.mode_states m).ctx
  finished-ctx m = ground arith

-- `hypercall_end_rpc` by its guards, in their order.
pub hypercall_end_rpc_lem :
    (s : Hyp)
    → IsCoherent s
    → (let caller = (s.vm.mode_states s.vm.current_guest_mode).rpc_for in
        caller ≢ mode_none → caller < nguestmodes)
    → hypercall_end_rpc s ≡ (
        let cur = s.vm.current_guest_mode in
        let caller = (s.vm.mode_states cur).rpc_for in
        if caller == mode_none
        then halted end_rpc_outside_rpc 1
        else if not ((s.vm.mode_states caller).rpc_to == cur)
        then halted end_rpc_not_started 1
        else ok tt (finished caller s))
unfolding hypercall_end_rpc change_guest_mode
hypercall_end_rpc_lem s c b = ground arith
