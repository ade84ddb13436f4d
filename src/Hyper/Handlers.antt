-- ===== src/Hyper/Handlers.antt =====
-- The handlers of exceptions (core/hypervisor/handlers.c, core/hypervisor/hypercalls.h).
pub mod Validity
pub mod Runs
pub mod Frame
use sth.Base.{
  ℕ, zero, suc, ◌+◌, ◌*◌, bit_and, bit_or, Bool, not, ◌&&◌, ltb, ◌==◌, if◌then◌else◌, u32, sub32,
  not32, ◌<<<◌,
}
use sth.Hyper.{
  gm_kernel, gm_task, sp, lr, pc, psr, Platform, M, pure, ◌>>=◌, ◌>>◌, hyper_panic,
  unknown_hypercall, get_vm, modify_cpu, current, reg, set_reg, load, store,
}
use sth.Hyper.Mode.{change_guest_mode}
use sth.Hyper.Rpc.{hypercall_rpc, hypercall_end_rpc}
use sth.Hyper.Interrupt.{irq_mask, vector_entry, hypercall_interrupt_set, hypercall_end_interrupt}
use sth.Hyper.Cache.SetWay.{hypercall_cache_op}
use sth.Hyper.Mmu.{hypercall_create_section, hypercall_switch_mm, hypercall_set_pte}
use sth.Hyper.PageDirectory.{hypercall_new_pgd, hypercall_free_pgd, hypercall_set_pmd}
use sth.Hyper.Registers.{
  hypercall_restore_regs, hypercall_restore_linux_regs, hypercall_set_tls, hypercall_guest_init,
}

-- `*sp++ = *context++`, `left` times, from register `i` of `mode` on, each word changed by `f`.
pub push_regs : (f : ℕ → ℕ → ℕ) (mode to i left : ℕ) → M (Unit {0})
push_regs f mode to i zero = pure tt
push_regs f mode to i (suc left) = do
  w ← reg mode i
  store to (f i w)
  push_regs f mode (u32 (to + 4)) (i + 1) left

unfoldable pub push_context : (to : ℕ) → M (Unit {0})
unfolding push_regs
push_context to = push_regs (λ i w. w) gm_task to 0 17

-- The frame of a system call on the kernel's stack: two arguments, 17 registers, the first again.
-- Its address is not checked.
push_frame : M (Unit {0})
push_frame = do
  cur ← current
  stack ← reg cur sp
  set_reg cur sp (sub32 stack 80)
  stack ← reg gm_kernel sp
  r4 ← reg gm_task 4
  store stack r4
  r5 ← reg gm_task 5
  store (u32 (stack + 4)) r5
  push_context (u32 (stack + 8))
  r0 ← reg gm_task 0
  store (u32 (stack + 76)) r0

-- `for(i = 0; i <= 5; i++)`, with `left` rounds left.
copy_params : (i left : ℕ) → M (Unit {0})
copy_params i zero = pure tt
copy_params i (suc left) = do
  cur ← current
  w ← reg gm_task i
  set_reg cur i w
  copy_params (i + 1) left

-- Where the kernel goes on: at the function of the system call, or at its own handler for the others.
enter_kernel : M (Unit {0})
unfolding copy_params
enter_kernel = do
  vm ← get_vm
  cur ← current
  r7 ← reg gm_task 7
  if ltb r7 vm.guest_info.nr_syscalls
      then (do
        copy_params 0 6
        table ← vector_entry 2
        n ← reg cur 7
        entry ← load (u32 (table + (n <<< 2)))
        set_reg cur pc entry)
      else (do
        set_reg cur 0 r7
        k ← reg gm_kernel sp
        set_reg cur 1 (u32 (k + 8))
        entry ← vector_entry 8
        set_reg cur pc entry)

unfoldable pub system_call : M (Unit {0})
unfolding push_frame enter_kernel
system_call = do
  change_guest_mode gm_kernel
  push_frame
  cur ← current
  p ← reg cur psr
  set_reg cur psr (bit_and p (not32 irq_mask))
  back ← vector_entry 9
  set_reg cur lr back
  r7 ← reg gm_task 7
  set_reg cur 7 r7
  enter_kernel

module _ (p : Platform) (fuel : ℕ) where
  -- The `switch` on the hypercall's number.
  unfoldable pub hypercall : (number param0 param1 param2 : ℕ) → M (Unit {0})
  hypercall number param0 param1 param2 =
      if number == 1000
      then hypercall_guest_init p fuel param0
      else if number == 1001
      then hypercall_interrupt_set param0 param1
      else if number == 1002
      then hypercall_end_interrupt
      else if number == 1004
      then hypercall_cache_op p fuel param0 param1 param2
      else if number == 1015
      then hypercall_set_tls param0
      else if number == 1014
      then modify_cpu (λ c. record c { context_id = param0 })
      else if number == 1012
      then hypercall_restore_linux_regs param0 (not (param1 == 0))
      else if number == 1013
      then hypercall_restore_regs param0
      else if number == 1008
      then hypercall_switch_mm p param0 param1
      else if number == 1006
      then hypercall_new_pgd p fuel param0
      else if number == 1007
      then hypercall_free_pgd p fuel param0
      else if number == 1009
      then hypercall_create_section p param0 param1 param2
      else if number == 1010
      then hypercall_set_pmd p param0 param1
      else if number == 1011
      then hypercall_set_pte param0 param1 param2
      else if number == 1020
      then hypercall_rpc param0 param1
      else if number == 1021
      then hypercall_end_rpc
      else (do cur ← current; reg cur pc; hyper_panic unknown_hypercall 1)

  unfoldable pub swi_handler : (param0 param1 param2 number : ℕ) → M (Unit {0})
  swi_handler param0 param1 param2 number = do
    vm ← get_vm
    if vm.current_guest_mode == gm_task
        then (if number == 1020
            then hypercall_rpc param0 param1
            else if number == 1021
            then hypercall_end_rpc
            else system_call)
        else hypercall number param0 param1 param2

-- The frame of an abort, the registers for the kernel's handler `v`, and the way back.
enter_abort : (f : ℕ → ℕ → ℕ → ℕ) (v addr status : ℕ) → M (Unit {0})
unfolding push_regs
enter_abort f v addr status = do
  vm ← get_vm
  let interrupted_mode = vm.current_guest_mode
  change_guest_mode gm_kernel
  stack ← reg gm_kernel sp
  set_reg gm_kernel sp (sub32 stack 72)
  stack ← reg gm_kernel sp
  push_regs (f interrupted_mode) interrupted_mode stack 0 17
  store (u32 (stack + 68)) 0xffff_ffff
  set_reg gm_kernel 0 addr
  set_reg gm_kernel 1 status
  stack ← reg gm_kernel sp
  set_reg gm_kernel 2 stack
  p ← reg gm_kernel psr
  (if bit_and p 0xf == 0
      then set_reg gm_kernel psr (bit_or p irq_mask)
      else set_reg gm_kernel psr (bit_and p (not32 irq_mask)))
  entry ← vector_entry v
  set_reg gm_kernel pc entry
  back ← vector_entry 10
  set_reg gm_kernel lr back

-- The parameter `unused` and the output of addresses in the kernel are left out; the result is
-- always RV_OK.
unfoldable pub prefetch_abort_handler : (addr status : ℕ) → M (Unit {0})
unfolding enter_abort
prefetch_abort_handler addr status = enter_abort (λ interrupted_mode i w. w) 3 addr status

-- The kernel's own stack pointer is saved as it was before the frame.
unfoldable pub data_abort_handler : (addr status : ℕ) → M (Unit {0})
unfolding enter_abort
data_abort_handler addr status =
    enter_abort
      (λ interrupted_mode i w. if i == 13 && interrupted_mode == 1 then u32 (w + 72) else w) 4 addr
      status
