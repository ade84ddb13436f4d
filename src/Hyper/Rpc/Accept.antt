-- ===== src/Hyper/Rpc/Accept.antt =====
-- The state in which `hypercall_rpc` leaves the machine.
use sth.Base.{ℕ, ◌<◌, ◌≡◌, ◌≢◌, some, arith, not, leb, ◌==◌, if◌then◌else◌}
use sth.Hyper.{
  nguestmodes, gm_trusted, pc, psr, put_mode, put_reg, RpcHandler, Hyp, ok, halted, mode_none,
  ModeState, rpc_while_in_rpc, rpc_to_itself, rpc_to_busy_mode, rpc_unallowed,
}
use sth.Hyper.Mode.{change_guest_mode}
use sth.Hyper.Coherence.{IsCoherent, switched}
use sth.Hyper.Rpc.{enter_rpc, rpc_via, hypercall_rpc}

-- The state after an RPC has been accepted: the caller waits for the handler's mode, which runs at
-- its entry point with the two arguments and interrupts off.
abbrev pub entered : RpcHandler → (op arg caller : ℕ) → Hyp → Hyp
entered h op arg caller s =
    let a = put_mode caller (record (s.vm.mode_states caller) { rpc_to = h.mode }) s in
    let b = put_mode h.mode (record (a.vm.mode_states h.mode) { rpc_for = caller }) a in
    let c = switched gm_trusted b in
    put_reg gm_trusted psr 0xd0
      (put_reg gm_trusted pc h.entry_point (put_reg gm_trusted 1 arg (put_reg gm_trusted 0 op c)))

enter_rpc-ok :
    (op arg : ℕ) (s : Hyp) (h : RpcHandler)
    → IsCoherent s
    → h.mode < nguestmodes
    → enter_rpc h op arg s ≡ ok tt (entered h op arg s.vm.current_guest_mode s)
unfolding enter_rpc change_guest_mode
enter_rpc-ok op arg s h c b = ground arith

module _ (h : RpcHandler) (op arg caller : ℕ) (s : Hyp) where
  abbrev entered_mode : ℕ → ModeState
  entered_mode = (entered h op arg caller s).vm.mode_states

  pub entered-rpc_to :
      (m : ℕ)
      → (entered_mode m).rpc_to ≡ (if caller == m then h.mode else (s.vm.mode_states m).rpc_to)
  entered-rpc_to m = ground arith

  pub entered-rpc_for :
      (m : ℕ)
      → (entered_mode m).rpc_for ≡ (if h.mode == m then caller else (s.vm.mode_states m).rpc_for)
  entered-rpc_for m = ground arith

  pub entered-configured : (m : ℕ) → (entered_mode m).mode_config ≡ (s.vm.mode_states m).mode_config
  entered-configured m = ground arith

  -- Only the trusted mode's registers change.
  pub entered-ctx : (m : ℕ) → m ≢ gm_trusted → (entered_mode m).ctx ≡ (s.vm.mode_states m).ctx
  entered-ctx m ne = ground arith

-- `hypercall_rpc` by its guards, in their order.
pub hypercall_rpc_lem :
    (op arg : ℕ) (s : Hyp) (h : RpcHandler)
    → IsCoherent s
    → s.vm.config.rpc_handlers ≡ some h
    → h.mode < nguestmodes
    → hypercall_rpc op arg s ≡ (
        let cur = s.vm.current_guest_mode in
        if not ((s.vm.mode_states cur).rpc_to == mode_none)
        then halted rpc_while_in_rpc 1
        else if cur == h.mode
        then halted rpc_to_itself 1
        else if not ((s.vm.mode_states h.mode).rpc_for == mode_none)
        then halted rpc_to_busy_mode 1
        else if leb op 4
        then ok tt (entered h op arg cur s)
        else halted rpc_unallowed 1)
unfolding hypercall_rpc rpc_via
hypercall_rpc_lem op arg s h c e b = ground (arith, enter_rpc-ok op arg s h c b)
