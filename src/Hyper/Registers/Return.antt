-- ===== src/Hyper/Registers/Return.antt =====
-- Where `hypercall_restore_linux_regs` goes on after a system call.
use sth.Base.{ℕ, zero, suc, ◌+◌, ◌%◌, ◌≤◌, ◌<◌, ◌≡◌, true, false, refl, arith, u32, bit_and, ◌==◌}
use sth.Hyper.{nguestmodes, gm_kernel, sp, lr, pc, psr, hal_virt_start, Hyp, ok, put_reg}
use sth.Hyper.Coherence.{switched, change_guest_mode-ok}
use sth.Hyper.Registers.{
  not_kernel_space, pop_regs, in_kernel, restore_kernel, hypercall_restore_linux_regs,
}

module _ (mode : ℕ) (b : mode < nguestmodes) where
  -- From an aligned address every register is filled, and memory stays as it was.
  pop_regs-ok :
      (from i left : ℕ) (s : Hyp)
      → from % 4 ≡ 0
      → (t : Hyp) × (pop_regs mode from i left s ≡ ok tt t) × (t.mem ≡ s.mem)
  unfolding pop_regs
  pop_regs-ok from i zero s a = (s, refl, refl)
  pop_regs-ok from i (suc left) s a =
      let (t, e, m) =
        pop_regs-ok (u32 (from + 4)) (i + 1) left (put_reg mode i (s.mem from) s) (omega arith) in
      (t, ground (arith, e), m)

module _ (stack mode stack_pc : ℕ) (s : Hyp) (a : stack % 4 ≡ 0) where
  restore_kernel-ok :
      (t : Hyp) × (restore_kernel stack mode stack_pc s ≡ ok tt t)
      × (t.vm.current_guest_mode ≡ gm_kernel)
      × ((t.vm.mode_states gm_kernel).ctx pc ≡ stack_pc)
  unfolding restore_kernel
  restore_kernel-ok =
      let (t, e, m) = pop_regs-ok gm_kernel (omega arith) stack 0 13 s a in
      let t1 = put_reg gm_kernel lr (t.mem (u32 (stack + 56))) t in
      let t2 = put_reg gm_kernel psr (bit_and 0xffff_fff0 mode) t1 in
      let t3 = put_reg gm_kernel pc stack_pc t2 in
      let t4 = put_reg gm_kernel sp (u32 ((t3.vm.mode_states gm_kernel).ctx sp + 72)) t3 in
      (
        switched gm_kernel t4,
        ground (arith, e, change_guest_mode-ok gm_kernel t4 (omega arith)),
        refl,
        refl,
      )

module _ (value : ℕ) (s : Hyp) where
  -- The stack pointer of the kernel, where the frame of a system call begins.
  abbrev pub frame : ℕ
  frame = (s.vm.mode_states gm_kernel).ctx sp

  -- At the end of a system call, the word that decides on the mode is that of the task's stack
  -- pointer in the frame of 20 words (two arguments, then 17 registers, the first again). If it lies
  -- in the kernel's addresses, the machine goes on in the kernel mode, at this word as its address.
  pub restore_linux_regs-escalates :
      frame % 4 ≡ 0
      → 0xc000_0000 ≤ frame
      → frame + 68 ≤ hal_virt_start
      → in_kernel (s.mem (frame + 60)) ≡ true
      → (t : Hyp) × (hypercall_restore_linux_regs value true s ≡ ok tt t)
        × (t.vm.current_guest_mode ≡ gm_kernel)
        × ((t.vm.mode_states gm_kernel).ctx pc ≡ s.mem (frame + 60))
  unfolding hypercall_restore_linux_regs
  restore_linux_regs-escalates a lo hi inside =
      let (t, e, mode, at) =
        restore_kernel-ok frame (s.mem (frame + 72)) (s.mem (frame + 60)) s a in
      let kept : not_kernel_space frame 68 ≡ false = ground arith in
      let at_psr : u32 (frame + (64 + 8)) ≡ frame + 72 = omega arith in
      let at_pc : u32 (frame + 60) ≡ frame + 60 = omega arith in
      let aligned_psr : ((frame + 72) % 4 == 0) ≡ true = ground arith in
      let aligned_pc : ((frame + 60) % 4 == 0) ≡ true = ground arith in
      (t, rw (kept, at_psr, at_pc, aligned_psr, aligned_pc, inside) e, mode, at)
