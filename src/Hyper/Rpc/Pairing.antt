-- ===== src/Hyper/Rpc/Pairing.antt =====
-- Calls and their handlers come in pairs, and every operation on RPCs keeps them so.
use sth.Base.{ℕ, ◌<◌, ◌≡◌, ◌≢◌, refl, arith}
use sth.Hyper.{nguestmodes, mode_none, gm_trusted, RpcHandler, Hyp}
use sth.Hyper.Coherence.{IsCoherent, Ensures}
use sth.Hyper.Validity.{IsPaired, IsValid}
use sth.Hyper.Rpc.{hypercall_rpc, hypercall_end_rpc}
use sth.Hyper.Rpc.Accept.{
  entered, entered-rpc_to, entered-rpc_for, entered-configured, hypercall_rpc_lem,
}
use sth.Hyper.Rpc.Finish.{
  finished, finished-rpc_to, finished-rpc_for, finished-configured, hypercall_end_rpc_lem,
}

module _ (h : RpcHandler) (op arg : ℕ) (s : Hyp) (v : IsValid h s) where
  entered-IsPaired :
      (s.vm.mode_states s.vm.current_guest_mode).rpc_to ≡ mode_none
      → (s.vm.mode_states h.mode).rpc_for ≡ mode_none
      → IsPaired (entered h op arg s.vm.current_guest_mode s)
  entered-IsPaired free idle = record {
    answered = λ m k b ne e. ground (
      arith,
      v.coherent.bound,
      v.handled.trusted,
      v.paired.answered m k b ne,
      entered-rpc_to h op arg s.vm.current_guest_mode s m,
      entered-rpc_for h op arg s.vm.current_guest_mode s k,
    );
    called = λ m k b ne e. ground (
      arith,
      v.coherent.bound,
      v.handled.trusted,
      v.paired.called m k b ne,
      entered-rpc_for h op arg s.vm.current_guest_mode s m,
      entered-rpc_to h op arg s.vm.current_guest_mode s k,
    );
  }

  entered-IsCoherent : IsCoherent (entered h op arg s.vm.current_guest_mode s)
  entered-IsCoherent = record {
    bound = ground arith;
    pointer = ground arith;
    context = ground arith;
    domain = ground (arith, v.coherent.configured gm_trusted, v.handled.trusted);
    configured = λ m b.
        ground
          (arith, v.coherent.configured m, entered-configured h op arg s.vm.current_guest_mode s m);
  }

  -- `hypercall_rpc` either halts the machine or keeps the modes valid; it makes no undefined
  -- access.
  pub hypercall_rpc-IsValid : Ensures (IsValid h) (hypercall_rpc op arg s)
  hypercall_rpc-IsValid =
      rw
        (hypercall_rpc_lem op arg s h v.coherent v.handled.handler
          (omega (arith, v.handled.trusted)))
        (grind (arith, after))
    where
      after :
          (s.vm.mode_states s.vm.current_guest_mode).rpc_to ≡ mode_none
          → (s.vm.mode_states h.mode).rpc_for ≡ mode_none
          → IsValid h (entered h op arg s.vm.current_guest_mode s)
      after free idle = record {
        coherent = entered-IsCoherent;
        paired = entered-IsPaired free idle;
        handled = record {
          handler = v.handled.handler;
          trusted = v.handled.trusted;
          isolated = v.handled.isolated;
        };
      }

module _ (h : RpcHandler) (s : Hyp) (v : IsValid h s) where
  abbrev caller : ℕ
  caller = (s.vm.mode_states s.vm.current_guest_mode).rpc_for

  caller-lt : caller ≢ mode_none → caller < nguestmodes
  caller-lt ne = (v.paired.called s.vm.current_guest_mode caller v.coherent.bound ne refl).0

  finished-IsValid : caller ≢ mode_none → IsValid h (finished caller s)
  finished-IsValid ne = record {
    coherent = record {
      bound = caller-lt ne;
      pointer = refl;
      context = refl;
      domain =
          ground (
            arith,
            caller-lt ne,
            v.coherent.configured caller,
            finished-configured caller s caller,
          );
      configured = λ m b. ground (arith, v.coherent.configured m, finished-configured caller s m);
    };
    paired = record {
      answered = λ m k b ne' e. ground (
        arith,
        v.coherent.bound,
        v.paired.answered m k b ne',
        v.paired.called s.vm.current_guest_mode caller v.coherent.bound ne,
        finished-rpc_to caller s m,
        finished-rpc_for caller s k,
      );
      called = λ m k b ne' e. ground (
        arith,
        v.coherent.bound,
        v.paired.called m k b ne',
        v.paired.called s.vm.current_guest_mode caller v.coherent.bound ne,
        finished-rpc_for caller s m,
        finished-rpc_to caller s k,
      );
    };
    handled = record {
      handler = v.handled.handler;
      trusted = v.handled.trusted;
      isolated = v.handled.isolated;
    };
  }

  -- `hypercall_end_rpc` either halts the machine or keeps the modes valid; it makes no undefined
  -- access.
  pub hypercall_end_rpc-IsValid : Ensures (IsValid h) (hypercall_end_rpc s)
  hypercall_end_rpc-IsValid =
      rw (hypercall_end_rpc_lem s v.coherent caller-lt) (grind (arith, finished-IsValid))
