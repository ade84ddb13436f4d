-- ===== src/Hyper/Validity.antt =====
-- The invariant of the guest modes, and which changes of the state leave it alone.
use sth.Base.{◌/◌, ◌%◌, ℕ, ◌<◌, ◌≡◌, ◌≢◌, some, arith}
use sth.Hyper.{nguestmodes, mode_none, gm_trusted, RpcHandler, HcConfig, Hyp}
use sth.Hyper.Coherence.{IsCoherent}

-- A mode that waits for another is the one that the other works for, and the other way round.
pub record IsPaired (s : Hyp) : Type 0 where
  pub answered :
      (m h : ℕ)
      → m < nguestmodes
      → h ≢ mode_none
      → (s.vm.mode_states m).rpc_to ≡ h
      → (h < nguestmodes) × ((s.vm.mode_states h).rpc_for ≡ m)
  pub called :
      (m h : ℕ)
      → m < nguestmodes
      → h ≢ mode_none
      → (s.vm.mode_states m).rpc_for ≡ h
      → (h < nguestmodes) × ((s.vm.mode_states h).rpc_to ≡ m)

-- No mode but the trusted one has access to the trusted domain, and the trusted mode has none to the
-- domains of the kernel and of its tasks.
pub record Isolates (c : HcConfig) : Type 0 where
  pub others : (m : ℕ) → m < nguestmodes → m ≢ gm_trusted → (c.guest_modes m).domain_ac / 64 % 4 ≡ 0
  pub service : (c.guest_modes gm_trusted).domain_ac / 4 % 16 ≡ 0

-- The handler of the configuration runs in the trusted mode, and the modes are kept apart.
pub record IsHandled (h : RpcHandler) (s : Hyp) : Type 0 where
  pub handler : s.vm.config.rpc_handlers ≡ some h
  pub trusted : h.mode ≡ gm_trusted
  pub isolated : Isolates s.vm.config

-- The state of the modes between two entries of the hypervisor.
pub record IsValid (h : RpcHandler) (s : Hyp) : Type 0 where
  pub coherent : IsCoherent s
  pub paired : IsPaired s
  pub handled : IsHandled h s

-- The calls, the access rights and the configuration are the same in both states.
pub record SameCalls (s t : Hyp) : Type 0 where
  pub config : t.vm.config ≡ s.vm.config
  pub mode_config : (m : ℕ) → (t.vm.mode_states m).mode_config ≡ (s.vm.mode_states m).mode_config
  pub rpc_to : (m : ℕ) → (t.vm.mode_states m).rpc_to ≡ (s.vm.mode_states m).rpc_to
  pub rpc_for : (m : ℕ) → (t.vm.mode_states m).rpc_for ≡ (s.vm.mode_states m).rpc_for

-- The machine runs in `mode`: current mode, pointer, context and access register agree on it.
pub record Runs (mode : ℕ) (t : Hyp) : Type 0 where
  pub current : t.vm.current_guest_mode ≡ mode
  pub pointer : t.vm.current_mode_state ≡ some mode
  pub context : t.cpu.context ≡ some mode
  pub domain : t.cpu.domain ≡ (t.vm.config.guest_modes mode).domain_ac

module _ (h : RpcHandler) {s t : Hyp} (v : IsValid h s) (same : SameCalls s t) where
  -- Entering another mode keeps the invariant, if nothing else about the calls changes.
  pub Runs-IsValid : {mode : ℕ} → mode < nguestmodes → Runs mode t → IsValid h t
  Runs-IsValid {mode} b r = record {
    coherent = record {
      bound = ground (arith, r.current);
      pointer = ground (arith, r.current, r.pointer);
      context = ground (arith, r.current, r.context);
      domain = ground (arith, r.current, r.domain);
      configured = λ m bm. ground (arith, same.mode_config m, same.config, v.coherent.configured m);
    };
    paired = record {
      answered =
          λ m k bm ne e. ground (arith, same.rpc_to m, same.rpc_for k, v.paired.answered m k bm ne);
      called =
          λ m k bm ne e. ground (arith, same.rpc_for m, same.rpc_to k, v.paired.called m k bm ne);
    };
    handled = record {
      handler = ground (arith, same.config, v.handled.handler);
      trusted = v.handled.trusted;
      isolated = rw same.config v.handled.isolated;
    };
  }
