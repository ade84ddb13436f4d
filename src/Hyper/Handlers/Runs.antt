-- ===== src/Hyper/Handlers/Runs.antt =====
-- Runs of the machine: the guest changes registers and memory, and each exception enters its handler.
use sth.Base.{Bool, true, if◌then◌else◌, ℕ, ◌/◌, ◌%◌, ◌≡◌, ◌≢◌, refl, ap, sym, ◌∙◌, arith}
use sth.Hyper.{
  gm_trusted, Context, RpcHandler, Platform, Hyp, Outcome, ok, halted, fault, out_of_fuel, M,
  put_mode, ◌>>◌,
}
use sth.Hyper.Mode.{guests_init, start_guest}
use sth.Hyper.Config.{rpc_handler_trusted, linux_config}
use sth.Hyper.Boot.{start_guest-IsValid}
use sth.Hyper.Validity.{IsValid}
use sth.Hyper.Interrupt.{irq_handler}
use sth.Hyper.Interrupt.Validity.{irq_handler-Stable}
use sth.Hyper.Handlers.{swi_handler, prefetch_abort_handler, data_abort_handler}
use sth.Hyper.Handlers.Validity.{
  swi_handler-Stable, prefetch_abort_handler-Stable, data_abort_handler-Stable,
}
use sth.Hyper.Stable.{Stable, same-IsValid}

abbrev state_or : {A : Type 0} → Hyp → Outcome A → Hyp
state_or s (ok a t) = t
state_or s (halted m c) = s
state_or s fault = s
state_or s out_of_fuel = s

-- The exceptions, with what their handlers are given.
pub data Exception : Type 0 where
  swi : (param0 param1 param2 number : ℕ) → Exception
  prefetch_abort data_abort : (addr status : ℕ) → Exception
  interrupt : (irq : ℕ) → Exception

-- The model keeps the virtual machine and its configuration apart from memory. It stands for the
-- program as long as nothing reads or writes the words where these variables lie, the `owned` ones,
-- as words of memory. The handlers do not check this: they store through the stack pointer of the
-- kernel, which the guest sets.
module _ (owned : ℕ → Bool) where
  abbrev pub overlaid : (shadow : ℕ → ℕ) → Hyp → Hyp
  overlaid shadow s = record s { mem = λ a. if owned a then shadow a else s.mem a }

  -- The run is the same, and leaves these words alone, whatever they hold.
  abbrev pub Spares : M (Unit {0}) → Hyp → Hyp → Type 0
  Spares run s t = (shadow : ℕ → ℕ) → run (overlaid shadow s) ≡ ok tt (overlaid shadow t)

  abbrev pub SparesMemory : (memory : ℕ → ℕ) → Hyp → Type 0
  SparesMemory memory s = (a : ℕ) → owned a ≡ true → memory a ≡ s.mem a

-- The guest may leave any values in memory and in the registers of the current mode.
abbrev pub guest_ran : (ℕ → ℕ) → Context → Hyp → Hyp
guest_ran memory registers s =
    let cur = s.vm.current_guest_mode in
    record (put_mode cur (record (s.vm.mode_states cur) { ctx = registers }) s) { mem = memory }

module _ (owned : ℕ → Bool) (p : Platform) (fuel : ℕ) where
  abbrev pub handle : Exception → M (Unit {0})
  handle (swi a b c number) = swi_handler p fuel a b c number
  handle (prefetch_abort addr status) = prefetch_abort_handler addr status
  handle (data_abort addr status) = data_abort_handler addr status
  handle (interrupt irq) = irq_handler irq

  -- Runs in which neither the guest nor a handler touches the owned words. An interrupt may come at
  -- any time, also where the PSR of the mode masks it.
  pub data Reaches : Hyp → Hyp → Type 0 where
    here : {s : Hyp} → Reaches s s
    guest :
        {s u : Hyp} (memory : ℕ → ℕ) (registers : Context)
        → SparesMemory owned memory s
        → Reaches (guest_ran memory registers s) u
        → Reaches s u
    exception :
        {s t u : Hyp} (e : Exception)
        → handle e s ≡ ok tt t
        → Spares owned (handle e) s t
        → Reaches t u
        → Reaches s u

  module _ (h : RpcHandler) where
    handle-Stable : (e : Exception) → Stable h (handle e)
    handle-Stable (swi a b c number) = swi_handler-Stable h p fuel a b c number
    handle-Stable (prefetch_abort addr status) = prefetch_abort_handler-Stable h addr status
    handle-Stable (data_abort addr status) = data_abort_handler-Stable h addr status
    handle-Stable (interrupt irq) = irq_handler-Stable h irq

    handled-IsValid :
        (e : Exception) (s : Hyp) {t : Hyp} → IsValid h s → handle e s ≡ ok tt t → IsValid h t
    handled-IsValid e s v is = let kept = (handle-Stable e).keeps s v in rw is at kept

    -- An exception of any kind that is handled to the end, by a run that neither reads nor writes
    -- the words of memory where the virtual machine and its configuration lie, leaves the modes
    -- valid.
    pub handle-IsValid :
        (e : Exception) (s : Hyp) {t : Hyp}
        → IsValid h s
        → handle e s ≡ ok tt t
        → Spares owned (handle e) s t
        → IsValid h t
    handle-IsValid e s v is spares = handled-IsValid e s v is

    guest_ran-IsValid :
        (memory : ℕ → ℕ) (registers : Context) (s : Hyp)
        → IsValid h s
        → IsValid h (guest_ran memory registers s)
    guest_ran-IsValid memory registers s v =
        same-IsValid h s _
          (record {
            config = refl;
            mode_config = λ m. ground arith;
            rpc_to = λ m. ground arith;
            rpc_for = λ m. ground arith;
          })
          refl refl refl refl v

    -- The modes stay valid over every run.
    pub Reaches-IsValid : {s t : Hyp} → Reaches s t → IsValid h s → IsValid h t
    Reaches-IsValid here v = v
    Reaches-IsValid (guest {s} memory registers spares r) v =
        Reaches-IsValid r (guest_ran-IsValid memory registers s v)
    Reaches-IsValid (exception {s} e is spares r) v =
        Reaches-IsValid r (handle-IsValid e s v is spares)

  started-IsValid :
      (phys : ℕ) (s : Hyp) {a : Hyp}
      → (guests_init (linux_config phys) >> start_guest) s ≡ ok tt a
      → IsValid rpc_handler_trusted a
  started-IsValid phys s {a} e =
      let (b, is, valid, c1, c2, c3, c4) = start_guest-IsValid phys 0 s (omega arith) in
      let same : b ≡ a = ap (state_or s) (sym is ∙ e) in rw same at valid

  module _ (phys : ℕ) (s : Hyp) {a t : Hyp}
      (boots : (guests_init (linux_config phys) >> start_guest) s ≡ ok tt a)
      (runs : Reaches a t) where
    valid : IsValid rpc_handler_trusted t
    valid = Reaches-IsValid rpc_handler_trusted runs (started-IsValid phys s boots)

    -- Over every run of the booted machine in which each handler returns, and in which neither the
    -- guest nor a handler touches the words of memory where the virtual machine and its
    -- configuration lie: while a mode other than the trusted one runs, there is no access to the
    -- trusted domain.
    pub Reaches-isolated : t.vm.current_guest_mode ≢ gm_trusted → t.cpu.domain / 64 % 4 ≡ 0
    Reaches-isolated other =
        let none_open =
          valid.handled.isolated.others t.vm.current_guest_mode valid.coherent.bound other in
        omega (arith, none_open, valid.coherent.domain)

    -- Over every run of the booted machine in which each handler returns, and in which neither the
    -- guest nor a handler touches the words of memory where the virtual machine and its
    -- configuration lie: while the trusted mode runs, there is no access to the domains of the
    -- kernel and of its tasks.
    pub Reaches-confined : t.vm.current_guest_mode ≡ gm_trusted → t.cpu.domain / 4 % 16 ≡ 0
    Reaches-confined is = ground (arith, valid.handled.isolated.service, valid.coherent.domain)
