-- ===== src/Hyper/Handlers/Frame.antt =====
-- The frame of a system call on the stack of the kernel, and the return that reads it.
use Prim.Native.Nat.{bit_and}
use mathlib.Core.Path.{subst}
use sth.Base.{
  ℕ, zero, suc, ◌+◌, ◌*◌, ◌%◌, ◌^◌, ◌≤◌, ◌<◌, ◌≡◌, true, false, refl, sym, ◌∙◌, ap, arith, u32,
  sub32, not32, ◌==◌, ltb, ◌<<<◌, some, Bool-cases, inl, inr, update, eq→==, ne→==,
}
use sth.Hyper.{
  gm_kernel, gm_task, sp, pc, lr, psr, ModeState, hal_virt_start, nguestmodes, Hyp, Outcome, M,
  load, reg, set_reg, ◌>>=◌, ok, halted, fault, out_of_fuel, put_reg,
}
use sth.Hyper.Coherence.{switched, change_guest_mode-ok}
use sth.Hyper.Interrupt.{vector_entry, irq_mask}
use sth.Hyper.Registers.{in_kernel, hypercall_restore_linux_regs}
use sth.Hyper.Registers.Return.{restore_linux_regs-escalates}
use sth.Hyper.Handlers.{push_regs, push_context, push_frame, enter_kernel, system_call}

-- The words from `to` on, `left` of them, are the registers of `mode` from `i` on, and the words
-- below stay.
record Pushed (mode to i left : ℕ) (s : Hyp) (m : ℕ → ℕ) : Type 0 where
  words : (j : ℕ) → j < left → m (to + 4 * j) ≡ (s.vm.mode_states mode).ctx (i + j)
  below : (b : ℕ) → b < to → m b ≡ s.mem b

push_more :
    (mode to i left : ℕ) (s : Hyp) (m : ℕ → ℕ)
    → mode < nguestmodes
    → to % 4 ≡ 0
    → to + 4 < 2 ^ 32
    → push_regs
        (λ i w. w)
        mode
        (to + 4)
        (i + 1)
        left
        (record s { mem = update s.mem to ((s.vm.mode_states mode).ctx i) })
      ≡ ok tt (record s { mem = m })
    → push_regs (λ i w. w) mode to i (suc left) s ≡ ok tt (record s { mem = m })
unfolding push_regs
push_more mode to i left s m b a w later =
    let bound : ltb mode nguestmodes ≡ true = ground arith in
    let even : (to % 4 == 0) ≡ true = eq→== (to % 4) 0 a in
    let next : u32 (to + 4) ≡ to + 4 = omega arith in rw (bound, even, next) later

push_regs-Pushed :
    (mode to i left : ℕ) (s : Hyp)
    → mode < nguestmodes
    → to % 4 ≡ 0
    → to + 4 * left < 2 ^ 32
    → (m : ℕ → ℕ) × (push_regs (λ i w. w) mode to i left s ≡ ok tt (record s { mem = m }))
      × Pushed mode to i left s m
unfolding push_regs
push_regs-Pushed mode to i zero s b a w =
    (s.mem, refl, record { words = λ j lt. absurd (omega arith); below = λ b lt. refl })
push_regs-Pushed mode to i (suc left) s b a w =
    let s1 : Hyp = record s { mem = update s.mem to ((s.vm.mode_states mode).ctx i) } in
    let (m, run, done) =
      push_regs-Pushed mode (to + 4) (i + 1) left s1 b (omega arith) (omega arith) in
    (
      m,
      push_more mode to i left s m b a (omega arith) run,
      record {
        words = λ j lt.
            by_index m (done.below to (omega arith) ∙ rw (eq→== to to refl) refl) done.words j lt;
        below = λ b lt. done.below b (omega arith) ∙ rw (ne→== b to (omega arith)) refl;
      },
    )
  where
    by_index :
        (m : ℕ → ℕ)
        → m to ≡ (s.vm.mode_states mode).ctx i
        → ((j : ℕ) → j < left → m (to + 4 + 4 * j) ≡ (s.vm.mode_states mode).ctx (i + 1 + j))
        → (j : ℕ) → j < suc left
        → m (to + 4 * j) ≡ (s.vm.mode_states mode).ctx (i + j)
    by_index m first later zero lt =
        let here : to + 4 * 0 ≡ to = omega arith in
        let index : i + 0 ≡ i = omega arith in rw (here, index) first
    by_index m first later (suc j) lt =
        let there : to + 4 * suc j ≡ to + 4 + 4 * j = omega arith in
        let index : i + suc j ≡ i + 1 + j = omega arith in rw (there, index) (later j (omega arith))

push_context-Pushed :
    (to : ℕ) (s : Hyp)
    → to % 4 ≡ 0
    → to + 68 < 2 ^ 32
    → (m : ℕ → ℕ) × (push_context to s ≡ ok tt (record s { mem = m })) × Pushed gm_task to 0 17 s m
unfolding push_context
push_context-Pushed to s a w = push_regs-Pushed gm_task to 0 17 s (omega arith) a (omega arith)

module _ (s : Hyp) where
  -- Where the frame begins, 80 bytes below the stack pointer of the kernel.
  abbrev pub frame_place : ℕ
  frame_place = sub32 ((s.vm.mode_states gm_kernel).ctx sp) 80

  abbrev moved : Hyp
  moved = put_reg gm_kernel sp frame_place (switched gm_kernel s)

  abbrev arguments : ℕ → ℕ
  arguments =
      update (update s.mem frame_place ((s.vm.mode_states gm_task).ctx 4)) (frame_place + 4)
        ((s.vm.mode_states gm_task).ctx 5)

  push_frame-run :
      (m : ℕ → ℕ)
      → frame_place % 4 ≡ 0
      → frame_place + 80 ≤ 2 ^ 32
      → push_context (frame_place + 8) (record moved { mem = arguments })
        ≡ ok tt (record moved { mem = m })
      → push_frame (switched gm_kernel s)
        ≡ ok tt
            (record moved { mem = update m (frame_place + 76) ((s.vm.mode_states gm_task).ctx 0) })
  unfolding push_frame
  push_frame-run m a w run =
      let even : (frame_place % 4 == 0) ≡ true = eq→== (frame_place % 4) 0 a in
      let even4 : ((frame_place + 4) % 4 == 0) ≡ true =
        eq→== ((frame_place + 4) % 4) 0 (omega (arith, a)) in
      let even76 : ((frame_place + 76) % 4 == 0) ≡ true =
        eq→== ((frame_place + 76) % 4) 0 (omega (arith, a)) in
      let at4 : u32 (frame_place + 4) ≡ frame_place + 4 = omega (arith, w) in
      let at8 : u32 (frame_place + 8) ≡ frame_place + 8 = omega (arith, w) in
      let at76 : u32 (frame_place + 76) ≡ frame_place + 76 = omega (arith, w) in
      rw (even, at4, even4, at8, run, at76, even76) refl

-- A command gives a state with `P` where it returns.
abbrev Gives : {A : Type 0} → (Hyp → Type 0) → Outcome A → Type 0
Gives P (ok a s) = P s
Gives P (halted m c) = Unit
Gives P fault = Unit
Gives P out_of_fuel = Unit

load-Gives :
    {A : Type 0}
    → (P : Hyp → Type 0) (a : ℕ) (s : Hyp) (k : ℕ → M A) → Gives P (k (s.mem a) s)
    → Gives P ((load a >>= k) s)
load-Gives P a s k g = elim (Bool-cases (a % 4 == 0)) [ inl even ↦ rw even g | inr odd ↦ rw odd tt ]

-- The kernel's frame is at `f`, with `word` in the place of the task's stack pointer.
record HasFrame (f word : ℕ) (t : Hyp) : Type 0 where
  stack : (t.vm.mode_states gm_kernel).ctx sp ≡ f
  saved : t.mem (f + 60) ≡ word

module _ (s : Hyp) (m : ℕ → ℕ) where
  -- The kernel runs with the modes `modes`.
  abbrev running : (ℕ → ModeState) → Hyp
  running modes = record s {
    vm = record (s.vm) {
      mode_states = modes;
      current_mode_state = some gm_kernel;
      current_guest_mode = gm_kernel;
    };
    cpu = record (s.cpu) {
      context = some gm_kernel;
      domain = (s.vm.mode_states gm_kernel).mode_config.domain_ac;
    };
    mem = m;
  }

  -- The six arguments of the call are the kernel's.
  abbrev with_arguments : (ℕ → ModeState) → Hyp
  with_arguments modes =
      let r = (modes gm_task).ctx in
      put_reg gm_kernel 5 (r 5) (
        put_reg gm_kernel 4 (r 4) (
          put_reg gm_kernel 3 (r 3) (
            put_reg gm_kernel 2 (r 2)
              (put_reg gm_kernel 1 (r 1) (put_reg gm_kernel 0 (r 0) (running modes))))))

  -- The kernel goes on at the function of the call.
  abbrev at_call : M (Unit {0})
  at_call = do
    table ← vector_entry 2
    n ← reg gm_kernel 7
    entry ← load (u32 (table + (n <<< 2)))
    set_reg gm_kernel pc entry

  abbrev at_number : (ℕ → ModeState) → ℕ → ℕ
  at_number modes table = u32 (table + ((modes gm_kernel).ctx 7 <<< 2))

  at_vector :
      (modes : ℕ → ModeState)
      → at_call (with_arguments modes)
        ≡ (load (u32 (s.vm.exception_vector + 8)) >>= λ table.
              load (at_number modes table) >>= set_reg gm_kernel pc)
            (with_arguments modes)
  at_vector modes = elim (Bool-cases (u32 (s.vm.exception_vector + 8) % 4 == 0)) [
    | inl even ↦ rw even refl
    | inr odd ↦ rw odd refl
  ]

  at_function :
      (modes : ℕ → ModeState)
      → ltb ((modes gm_task).ctx 7) s.vm.guest_info.nr_syscalls ≡ true
      → enter_kernel (running modes) ≡ at_call (with_arguments modes)
  unfolding enter_kernel
  at_function modes known = rw known refl

  enter_kernel-HasFrame :
      (f word : ℕ) (modes : ℕ → ModeState)
      → (modes gm_kernel).ctx sp ≡ f
      → m (f + 60) ≡ word
      → Gives (HasFrame f word) (enter_kernel (running modes))
  unfolding enter_kernel
  enter_kernel-HasFrame f word modes at saved =
      elim (Bool-cases (ltb ((modes gm_task).ctx 7) s.vm.guest_info.nr_syscalls)) [
        | inl known ↦
            rw (at_function modes known, at_vector modes)
              (load-Gives (HasFrame f word) (u32 (s.vm.exception_vector + 8)) (with_arguments modes)
                (λ table. load (at_number modes table) >>= set_reg gm_kernel pc)
                (load-Gives (HasFrame f word)
                  (at_number modes (m (u32 (s.vm.exception_vector + 8)))) (with_arguments modes)
                  (set_reg gm_kernel pc) (record { stack = at; saved = saved })))
        | inr other ↦ rw other (elim (Bool-cases (u32 (s.vm.exception_vector + 32) % 4 == 0)) [
          | inl even ↦ rw even (record { stack = at; saved = saved })
          | inr odd ↦ rw odd tt
        ])
      ]

-- The modes when the kernel begins with the call.
abbrev resumed_modes : Hyp → (ℕ → ℕ) → ℕ → ModeState
resumed_modes s m =
    let unmasked = bit_and (((moved s).vm.mode_states gm_kernel).ctx psr) (not32 irq_mask) in
    let back = m (u32 (s.vm.exception_vector + 36)) in
    let number = (s.vm.mode_states gm_task).ctx 7 in
    (put_reg gm_kernel 7 number
      (put_reg gm_kernel lr back (put_reg gm_kernel psr unmasked (moved s)))).vm.mode_states

module _ (s : Hyp) (m : ℕ → ℕ) (word : ℕ) (saved : m (frame_place s + 60) ≡ word) where
  -- What follows the frame.
  system_call-rest :
      push_frame (switched gm_kernel s) ≡ ok tt (record (moved s) { mem = m })
      → Gives (HasFrame (frame_place s) word) (system_call s)
  unfolding system_call
  system_call-rest run =
      rw (change_guest_mode-ok gm_kernel s (omega arith), run)
        (elim (Bool-cases (u32 (s.vm.exception_vector + 36) % 4 == 0)) [
          | inl even ↦
              rw even
                (enter_kernel-HasFrame s m (frame_place s) word (resumed_modes s m) refl saved)
          | inr odd ↦ rw odd tt
        ])

-- The frame of a system call that returns lies below the stack pointer of the kernel, and has the
-- task's stack pointer at 60.
system_call-HasFrame :
    (s : Hyp) {t : Hyp}
    → frame_place s % 4 ≡ 0
    → frame_place s + 80 ≤ 2 ^ 32
    → system_call s ≡ ok tt t
    → HasFrame (frame_place s) ((s.vm.mode_states gm_task).ctx sp) t
system_call-HasFrame s {t} a w e =
    let f = frame_place s in
    let (m, run, done) =
      push_context-Pushed (f + 8) (record (moved s) { mem = arguments s }) (omega (arith, a))
        (omega (arith, w)) in
    let here : f + 8 + 4 * 13 ≡ f + 60 = omega arith in
    let word : m (f + 60) ≡ (s.vm.mode_states gm_task).ctx sp =
      ap m (sym here) ∙ done.words 13 (omega arith) in
    let behind : (f + 60 == f + 76) ≡ false = ne→== (f + 60) (f + 76) (omega arith) in
    subst (Gives (HasFrame f ((s.vm.mode_states gm_task).ctx sp))) e (
      system_call-rest s (update m (f + 76) ((s.vm.mode_states gm_task).ctx 0))
        ((s.vm.mode_states gm_task).ctx sp) (rw behind word) (push_frame-run s m a w run))

-- A task whose stack pointer lies in the addresses of the kernel and that makes a system call goes on
-- in the mode of the kernel, at that stack pointer as its address, when the hypercall for the end of
-- the system call follows at once: the frame has the stack pointer where the hypercall reads the
-- program counter. The stack pointer of the kernel is a multiple of 4, from 0xc0000050 on and at most
-- the base of the hypervisor.
pub system_call-escalates :
    (value : ℕ) (s : Hyp) {t : Hyp}
    → (s.vm.mode_states gm_kernel).ctx sp % 4 ≡ 0
    → 0xc000_0050 ≤ (s.vm.mode_states gm_kernel).ctx sp
    → (s.vm.mode_states gm_kernel).ctx sp ≤ hal_virt_start
    → in_kernel ((s.vm.mode_states gm_task).ctx sp) ≡ true
    → system_call s ≡ ok tt t
    → (u : Hyp) × (hypercall_restore_linux_regs value true t ≡ ok tt u)
      × (u.vm.current_guest_mode ≡ gm_kernel)
      × ((u.vm.mode_states gm_kernel).ctx pc ≡ (s.vm.mode_states gm_task).ctx sp)
system_call-escalates value s {t} a lo hi inside e =
    let done = system_call-HasFrame s (omega (arith, a, lo, hi)) (omega (arith, lo, hi)) e in
    let place : (t.vm.mode_states gm_kernel).ctx sp + 80 ≡ (s.vm.mode_states gm_kernel).ctx sp =
      omega (arith, done.stack, lo, hi) in
    let word : t.mem ((t.vm.mode_states gm_kernel).ctx sp + 60)
        ≡ (s.vm.mode_states gm_task).ctx sp =
      ap (λ k. t.mem (k + 60)) (done.stack) ∙ done.saved in
    let (u, run, mode, at) =
      restore_linux_regs-escalates value t (omega (arith, place, a)) (omega (arith, place, lo))
        (omega (arith, place, hi)) (ap in_kernel word ∙ inside) in
    (u, run, mode, at ∙ word)
