-- ===== src/Hyper/Registers.antt =====
-- Registers and boot information of the guest: core/hypervisor/hypercalls/hypercalls.c,
-- core/hypervisor/hypercalls/hyp_cpu.c and `clear_linux_mappings` of
-- core/hypervisor/linux/linux_init.c. The loops over addresses take fuel.
pub mod Validity
pub mod Return
pub mod Clear
use sth.Base.{
  ℕ, zero, suc, ◌+◌, ◌-◌, ◌*◌, bit_and, Bool, not, ◌&&◌, ◌||◌, leb, ltb, ◌==◌, if◌then◌else◌, u32,
  sub32, ◌>>>◌,
}
use sth.Hyper.{
  gm_kernel, gm_task, hal_virt_start, sp, lr, pc, psr, Platform, M, pure, ◌>>=◌, ◌>>◌, panic_if,
  not_kernel_pointer, boot_info_twice, clear_hypervisor_page, out_of_fuel, get_vm, set_vm,
  modify_cpu, cop_op, current, reg, set_reg, load, store, flpt_va, dcache_invalidate_mva,
}
use sth.Hyper.Mode.{change_guest_mode}

-- `*context++ = *from++`, `left` times, from register `i` of `mode` on.
pub pop_regs : (mode from i left : ℕ) → M (Unit {0})
pop_regs mode from i zero = pure tt
pop_regs mode from i (suc left) = do
  w ← load from
  set_reg mode i w
  pop_regs mode (u32 (from + 4)) (i + 1) left

-- The address is outside [0xc0000000, HAL_VIRT_START - size].
abbrev pub not_kernel_space : (a size : ℕ) → Bool
not_kernel_space a size = ltb a 0xc000_0000 || ltb (hal_virt_start - size) a

unfoldable pub hypercall_restore_regs : ℕ → M (Unit {0})
unfolding pop_regs
hypercall_restore_regs regs = do
  panic_if (not_kernel_space regs 68) not_kernel_pointer 1
  cur ← current
  pop_regs cur regs 0 16
  w ← load (u32 (regs + 64))
  set_reg cur psr (bit_and 0xffff_fff0 w)

-- A program counter in the kernel, outside the helpers that the kernel gives to its tasks.
abbrev pub in_kernel : ℕ → Bool
in_kernel stack_pc =
    not (ltb stack_pc 0xc000_0000 || (ltb stack_pc 0xffff_1000 && leb 0xffff_0fa0 stack_pc))

restore_kernel : (stack mode stack_pc : ℕ) → M (Unit {0})
unfolding pop_regs
restore_kernel stack mode stack_pc = do
  pop_regs gm_kernel stack 0 13
  w ← load (u32 (stack + 56))
  set_reg gm_kernel lr w
  set_reg gm_kernel psr (bit_and 0xffff_fff0 mode)
  set_reg gm_kernel pc stack_pc
  k ← reg gm_kernel sp
  set_reg gm_kernel sp (u32 (k + 72))
  change_guest_mode gm_kernel

restore_task : (stack mode offset return_value : ℕ) (syscall : Bool) → M (Unit {0})
unfolding pop_regs
restore_task stack mode offset return_value syscall = do
  (if syscall
      then set_reg gm_task 0 return_value >> pop_regs gm_task (u32 (stack + 12)) 1 15
      else pop_regs gm_task stack 0 16)
  set_reg gm_task psr (bit_and 0xffff_fff0 mode)
  k ← reg gm_kernel sp
  set_reg gm_kernel sp (u32 (k + (72 + offset)))
  change_guest_mode gm_task

unfoldable pub hypercall_restore_linux_regs : (return_value : ℕ) (syscall : Bool) → M (Unit {0})
unfolding restore_kernel restore_task
hypercall_restore_linux_regs return_value syscall = do
  let offset = if syscall then 8 else 0
  stack ← reg gm_kernel sp
  panic_if (not_kernel_space stack 68) not_kernel_pointer 1
  mode ← load (u32 (stack + (64 + offset)))
  stack_pc ← load (u32 (stack + 60))
  if in_kernel stack_pc
      then restore_kernel stack mode stack_pc
      else restore_task stack mode offset return_value syscall

abbrev pub hypercall_set_tls : ℕ → M (Unit {0})
hypercall_set_tls thread_id = modify_cpu (λ c. record c { thread_id = thread_id })

module _ (p : Platform) where
  -- Two entries of the table; `offset` counts entries.
  abbrev pub clear_pair : ℕ → M (Unit {0})
  clear_pair address = do
    let offset = address >>> 21
    store (u32 (flpt_va p + 4 * offset)) 0
    store (u32 (flpt_va p + 4 * (offset + 1))) 0
    cop_op (dcache_invalidate_mva (flpt_va p))

  -- `for( ; address < bound; address += 0x200000)`; the address at the end is returned.
  pub clear_loop : (bound fuel address : ℕ) → M ℕ
  clear_loop bound zero address = λ s. out_of_fuel
  clear_loop bound (suc fuel) address =
      let rest = clear_loop bound fuel (u32 (address + 0x20_0000)) in
      if ltb address bound then clear_pair address >> rest else pure address

  unfoldable pub clear_linux_mappings : (fuel : ℕ) → M (Unit {0})
  unfolding clear_loop
  clear_linux_mappings fuel = do
    vm ← get_vm
    let g = vm.guest_info
    a ← clear_loop (sub32 g.page_offset 0x100_0000) fuel 0
    clear_loop g.page_offset fuel a
    panic_if (ltb hal_virt_start g.vmalloc_end) clear_hypervisor_page 1
    clear_loop g.vmalloc_end fuel (u32 (g.page_offset + g.guest_size))
    pure tt

  -- The structure `boot_info` at `info`: five words of `guest_info`, then three of the processor.
  unfoldable pub hypercall_guest_init : (fuel info : ℕ) → M (Unit {0})
  hypercall_guest_init fuel info = do
    boot ← (λ s. pure s.boot s)
    panic_if (not (boot == 0)) boot_info_twice 1
    panic_if (not_kernel_space info 32) not_kernel_pointer 1
    (λ s. pure tt (record s { boot = u32 (boot + 1) }))
    store (u32 (info + 20)) p.cpu_id
    store (u32 (info + 24)) p.cpu_mmf
    store (u32 (info + 28)) p.cpu_cr
    nr_syscalls ← load info
    page_offset ← load (u32 (info + 4))
    phys_offset ← load (u32 (info + 8))
    vmalloc_end ← load (u32 (info + 12))
    guest_size ← load (u32 (info + 16))
    vm ← get_vm
    set_vm (record vm {
      guest_info = record {
        nr_syscalls = nr_syscalls;
        page_offset = page_offset;
        phys_offset = phys_offset;
        vmalloc_end = vmalloc_end;
        guest_size = guest_size;
      };
      exception_vector = page_offset;
    })
    clear_linux_mappings fuel
