-- ===== src/Hyper/Stable.antt =====
-- Commands that keep the modes valid whenever they return, and how they are put together.
use sth.Base.{
  ℕ, ◌<◌, ◌%◌, ◌≡◌, ◌∙◌, refl, arith, Bool, true, false, ltb, leb, Option, none, some, ◌==◌, ◌∷◌,
  update, if◌then◌else◌,
}
use sth.Hyper.{
  nguestmodes, RpcHandler, Message, Hyp, Outcome, ok, halted, fault, out_of_fuel, M, pure, and_then,
  ◌>>=◌, hyper_panic, panic_if, get_vm, Cpu, modify_cpu, CopOp, cop_op, current, reg, set_reg,
  put_reg, put_mode, unknown_guest_mode, load, store,
}
use sth.Hyper.Mode.{change_guest_mode}
use sth.Hyper.Coherence.{Ensures, switched}
use sth.Hyper.Validity.{IsValid, SameCalls, Runs-IsValid}

-- If the run returns, it does so in a state with `P`.
abbrev pub Keeps : {A : Type 0} → (Hyp → Type 0) → Outcome A → Type 0
Keeps P (ok a s) = P s
Keeps P (halted m c) = Unit
Keeps P fault = Unit
Keeps P out_of_fuel = Unit

pub record Stable (h : RpcHandler) {A : Type 0} (m : M A) : Type 0 where
  pub keeps : (s : Hyp) → IsValid h s → Keeps (IsValid h) (m s)

change_guest_mode_lem :
    (mode : ℕ) (s : Hyp)
    → change_guest_mode mode s
      ≡ (if leb nguestmodes mode then halted unknown_guest_mode 1 else ok tt (switched mode s))
unfolding change_guest_mode
change_guest_mode_lem mode s = ground arith

module _ (h : RpcHandler) where
  and_then-Keeps :
      {A B : Type 0} (o : Outcome A) (k : A → M B)
      → Keeps (IsValid h) o
      → ((a : A) → Stable h (k a))
      → Keeps (IsValid h) (and_then o k)
  and_then-Keeps (ok a s) k v next = (next a).keeps s v
  and_then-Keeps (halted m c) k v next = tt
  and_then-Keeps fault k v next = tt
  and_then-Keeps out_of_fuel k v next = tt

  Ensures→Keeps : {A : Type 0} (o : Outcome A) → Ensures (IsValid h) o → Keeps (IsValid h) o
  Ensures→Keeps (ok a s) e = e
  Ensures→Keeps (halted m c) e = tt
  Ensures→Keeps fault e = absurd e
  Ensures→Keeps out_of_fuel e = absurd e

  pub Ensures→Stable :
      {A : Type 0} (m : M A) → ((s : Hyp) → IsValid h s → Ensures (IsValid h) (m s)) → Stable h m
  Ensures→Stable m e = record { keeps = λ s v. Ensures→Keeps (m s) (e s v) }

  pub bind-Stable :
      {A B : Type 0} (m : M A) (k : A → M B)
      → Stable h m
      → ((a : A) → Stable h (k a))
      → Stable h (m >>= k)
  bind-Stable m k a b = record { keeps = λ s v. and_then-Keeps (m s) k (a.keeps s v) b }

  pub if-Stable :
      {A : Type 0} (c : Bool) (m n : M A) → Stable h m → Stable h n → Stable h (if c then m else n)
  if-Stable true m n a b = a
  if-Stable false m n a b = b

  pub pure-Stable : {A : Type 0} (a : A) → Stable h (pure a)
  pure-Stable a = record { keeps = λ s v. v }

  pub hyper_panic-Stable : (m : Message) (c : ℕ) → Stable h (hyper_panic {A = Unit {0}} m c)
  hyper_panic-Stable m c = record { keeps = λ s v. tt }

  pub panic_if-Stable : (b : Bool) (m : Message) (c : ℕ) → Stable h (panic_if b m c)
  panic_if-Stable true m c = record { keeps = λ s v. tt }
  panic_if-Stable false m c = record { keeps = λ s v. v }

  pub get_vm-Stable : Stable h get_vm
  get_vm-Stable = record { keeps = λ s v. v }

  pub current-Stable : Stable h current
  current-Stable = record { keeps = λ s v. by_pointer s.vm.current_mode_state s v }
    where
      by_pointer :
          (o : Option ℕ) (s : Hyp)
          → IsValid h s
          → Keeps (IsValid h) (elim o as (λ _. Outcome ℕ) [ none ↦ fault | some m ↦ ok m s ])
      by_pointer none s v = tt
      by_pointer (some m) s v = v

  pub load-Stable : (a : ℕ) → Stable h (load a)
  load-Stable a = record { keeps = λ s v. by_test (a % 4 == 0) s v }
    where
      by_test :
          (b : Bool) (s : Hyp)
          → IsValid h s
          → Keeps (IsValid h) (if b then ok (s.mem a) s else fault)
      by_test true s v = v
      by_test false s v = tt

  pub reg-Stable : (mode i : ℕ) → Stable h (reg mode i)
  reg-Stable mode i = record { keeps = λ s v. by_test (ltb mode nguestmodes) s v }
    where
      by_test :
          (b : Bool) (s : Hyp)
          → IsValid h s
          → Keeps
              (IsValid h)
              (and_then (if b then ok (s.vm.mode_states mode) s else fault) (λ m. pure (m.ctx i)))
      by_test true s v = v
      by_test false s v = tt

  -- A change of the state that leaves the modes alone.
  pub same-IsValid :
      (s t : Hyp)
      → SameCalls s t
      → (t.vm.current_guest_mode ≡ s.vm.current_guest_mode)
      → (t.vm.current_mode_state ≡ s.vm.current_mode_state)
      → (t.cpu.context ≡ s.cpu.context)
      → (t.cpu.domain ≡ s.cpu.domain)
      → IsValid h s
      → IsValid h t
  same-IsValid s t same mode pointer context domain v =
      Runs-IsValid h v same v.coherent.bound (record {
        current = mode;
        pointer = pointer ∙ v.coherent.pointer;
        context = context ∙ v.coherent.context;
        domain = rw (same.config) (domain ∙ v.coherent.domain);
      })

  pub store-Stable : (a w : ℕ) → Stable h (store a w)
  store-Stable a w = record { keeps = λ s v. by_test (a % 4 == 0) s v }
    where
      by_test :
          (b : Bool) (s : Hyp)
          → IsValid h s
          → Keeps (IsValid h) (if b then ok tt (record s { mem = update s.mem a w }) else fault)
      by_test true s v =
          same-IsValid s (record s { mem = update s.mem a w })
            (record {
              config = refl;
              mode_config = λ m. refl;
              rpc_to = λ m. refl;
              rpc_for = λ m. refl;
            })
            refl refl refl refl v
      by_test false s v = tt

  pub cop_op-Stable : (op : CopOp) → Stable h (cop_op op)
  cop_op-Stable op = record {
    keeps = λ s v.
        same-IsValid s (record s { cpu = record (s.cpu) { ops = op ∷ s.cpu.ops } })
          (record {
            config = refl;
            mode_config = λ m. refl;
            rpc_to = λ m. refl;
            rpc_for = λ m. refl;
          })
          refl refl refl refl v;
  }

  put_reg-SameCalls : (mode i w : ℕ) (s : Hyp) → SameCalls s (put_reg mode i w s)
  put_reg-SameCalls mode i w s = record {
    config = refl;
    mode_config = λ m. ground arith;
    rpc_to = λ m. ground arith;
    rpc_for = λ m. ground arith;
  }

  pub set_reg-Stable : (mode i w : ℕ) → Stable h (set_reg mode i w)
  set_reg-Stable mode i w = record { keeps = λ s v. by_test (ltb mode nguestmodes) s v }
    where
      by_test :
          (b : Bool) (s : Hyp)
          → IsValid h s
          → Keeps (IsValid h) (
              and_then (if b then ok (s.vm.mode_states mode) s else fault) (λ m t.
                if b then ok tt (put_mode mode (record m { ctx = update m.ctx i w }) t) else fault))
      by_test true s v =
          same-IsValid s (put_reg mode i w s) (put_reg-SameCalls mode i w s) refl refl refl refl v
      by_test false s v = tt

  switched-IsValid :
      (mode : ℕ) (s : Hyp) → mode < nguestmodes → IsValid h s → IsValid h (switched mode s)
  switched-IsValid mode s b v =
      Runs-IsValid h v
        (record { config = refl; mode_config = λ m. refl; rpc_to = λ m. refl; rpc_for = λ m. refl })
        b
        (record {
          current = refl;
          pointer = refl;
          context = refl;
          domain = ground (arith, v.coherent.configured mode b);
        })

  pub change_guest_mode-Stable : (mode : ℕ) → Stable h (change_guest_mode mode)
  change_guest_mode-Stable mode = record {
    keeps = λ s v. rw (change_guest_mode_lem mode s) (grind (arith, switched-IsValid mode s));
  }

  pub modify_cpu-Stable :
      (f : Cpu → Cpu)
      → ((c : Cpu) → ((f c).context ≡ c.context) × ((f c).domain ≡ c.domain))
      → Stable h (modify_cpu f)
  modify_cpu-Stable f kept = record {
    keeps = λ s v.
        same-IsValid s (record s { cpu = f s.cpu })
          (record {
            config = refl;
            mode_config = λ m. refl;
            rpc_to = λ m. refl;
            rpc_for = λ m. refl;
          })
          refl refl (kept s.cpu).0 (kept s.cpu).1 v;
  }

-- The commands that the handlers are written in.
pub ruleset stable = (
  bind-Stable, if-Stable, pure-Stable, hyper_panic-Stable, panic_if-Stable, get_vm-Stable,
  current-Stable, load-Stable, store-Stable, reg-Stable, set_reg-Stable, cop_op-Stable,
  change_guest_mode-Stable,
)
