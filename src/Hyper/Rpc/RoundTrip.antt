-- ===== src/Hyper/Rpc/RoundTrip.antt =====
-- A call and its end, together.
use sth.Base.{◌∙◌, sym, ℕ, ◌≤◌, ◌≡◌, ◌≢◌, refl, arith}
use sth.Hyper.{mode_none, gm_trusted, RpcHandler, Hyp, ok}
use sth.Hyper.Rpc.{hypercall_rpc, hypercall_end_rpc}
use sth.Hyper.Rpc.Accept.{
  entered, entered-rpc_to, entered-rpc_for, entered-configured, entered-ctx, hypercall_rpc_lem,
}
use sth.Hyper.Rpc.Finish.{
  finished, finished-rpc_to, finished-rpc_for, finished-configured, finished-ctx,
  hypercall_end_rpc_lem,
}
use sth.Hyper.Validity.{IsValid}
use sth.Hyper.Rpc.Pairing.{hypercall_rpc-IsValid}

-- What a mode must meet to make the call `op`.
pub record MayCall (op : ℕ) (s : Hyp) : Type 0 where
  pub free : (s.vm.mode_states s.vm.current_guest_mode).rpc_to ≡ mode_none
  pub other : s.vm.current_guest_mode ≢ gm_trusted
  pub idle : (s.vm.mode_states gm_trusted).rpc_for ≡ mode_none
  pub known : op ≤ 4

module _ (h : RpcHandler) (op arg : ℕ) (s : Hyp) (v : IsValid h s) where
  abbrev pub cur : ℕ
  cur = s.vm.current_guest_mode

  pub rpc-ok→MayCall :
      {t : Hyp} → hypercall_rpc op arg s ≡ ok tt t → MayCall op s × (t ≡ entered h op arg cur s)
  rpc-ok→MayCall e =
      ground (arith, hypercall_rpc_lem op arg s h v.coherent v.handled.handler, v.handled.trusted)

  pub MayCall→rpc-ok : MayCall op s → hypercall_rpc op arg s ≡ ok tt (entered h op arg cur s)
  MayCall→rpc-ok c =
      ground (arith, hypercall_rpc_lem op arg s h v.coherent v.handled.handler, v.handled.trusted)

-- `u` is `s` but for the trusted mode's registers.
pub record Resumed (s u : Hyp) : Type 0 where
  pub mode : u.vm.current_guest_mode ≡ s.vm.current_guest_mode
  pub pointer : u.vm.current_mode_state ≡ s.vm.current_mode_state
  pub domain : u.cpu.domain ≡ s.cpu.domain
  pub save_area : u.cpu.context ≡ s.cpu.context
  pub others : u.cpu ≡ record (s.cpu) { domain = u.cpu.domain; context = u.cpu.context }
  pub config : u.vm.config ≡ s.vm.config
  pub guest_info : u.vm.guest_info ≡ s.vm.guest_info
  pub exception_vector : u.vm.exception_vector ≡ s.vm.exception_vector
  pub boot : u.boot ≡ s.boot
  pub tables : u.l2_index_p ≡ s.l2_index_p
  pub access : (m : ℕ) → (u.vm.mode_states m).mode_config ≡ (s.vm.mode_states m).mode_config
  pub interrupted : u.vm.interrupted_mode ≡ s.vm.interrupted_mode
  pub memory : u.mem ≡ s.mem
  pub waits : (m : ℕ) → (u.vm.mode_states m).rpc_to ≡ (s.vm.mode_states m).rpc_to
  pub serves : (m : ℕ) → (u.vm.mode_states m).rpc_for ≡ (s.vm.mode_states m).rpc_for
  pub registers : (m : ℕ) → m ≢ gm_trusted → (u.vm.mode_states m).ctx ≡ (s.vm.mode_states m).ctx

module _ (h : RpcHandler) (op arg : ℕ) (s : Hyp) (v : IsValid h s) where
  abbrev pub entry : Hyp
  entry = entered h op arg s.vm.current_guest_mode s

  pub entry-IsValid : MayCall op s → IsValid h entry
  entry-IsValid c =
      let kept = hypercall_rpc-IsValid h op arg s v in rw (MayCall→rpc-ok h op arg s v c) at kept

  pub end_rpc-entered :
      MayCall op s → hypercall_end_rpc entry ≡ ok tt (finished s.vm.current_guest_mode entry)
  end_rpc-entered c = ground (
    arith,
    hypercall_end_rpc_lem entry (entry-IsValid c).coherent,
    v.handled.trusted,
    v.coherent.bound,
    c.other,
  )

  -- From valid modes an accepted call can be ended at once, and then the whole state is as it was
  -- before the call but for the registers of the trusted mode.
  pub rpc-end_rpc :
      {t : Hyp}
      → hypercall_rpc op arg s ≡ ok tt t
      → (u : Hyp) × (hypercall_end_rpc t ≡ ok tt u) × Resumed s u
  rpc-end_rpc e =
      let (c, is) = rpc-ok→MayCall h op arg s v e in
      (
        finished s.vm.current_guest_mode entry,
        rw is (end_rpc-entered c),
        record {
          mode = refl;
          pointer = sym v.coherent.pointer;
          save_area = sym v.coherent.context;
          others = refl;
          config = refl;
          guest_info = refl;
          exception_vector = refl;
          boot = refl;
          tables = refl;
          access = λ m.
              finished-configured s.vm.current_guest_mode entry m
              ∙ entered-configured h op arg s.vm.current_guest_mode s m;
          domain = ground (
            arith,
            v.coherent.configured s.vm.current_guest_mode,
            v.coherent.bound,
            v.coherent.domain,
            finished-rpc_to s.vm.current_guest_mode entry s.vm.current_guest_mode,
          );
          interrupted = refl;
          memory = refl;
          waits = λ m. ground (
            arith,
            c.free,
            finished-rpc_to s.vm.current_guest_mode entry m,
            entered-rpc_to h op arg s.vm.current_guest_mode s m,
          );
          serves = λ m. ground (
            arith,
            c.idle,
            v.handled.trusted,
            finished-rpc_for s.vm.current_guest_mode entry m,
            entered-rpc_for h op arg s.vm.current_guest_mode s m,
          );
          registers = λ m ne. ground (
            arith,
            finished-ctx s.vm.current_guest_mode entry m,
            entered-ctx h op arg s.vm.current_guest_mode s m,
          );
        },
      )
