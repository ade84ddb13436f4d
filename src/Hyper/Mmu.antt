-- ===== src/Hyper/Mmu.antt =====
-- The page table hypercalls (core/hypervisor/hypercalls/hyp_mmu.c). `isb` and `dsb` order
-- operations that the model takes in program order, and are left out.
pub mod Section
pub mod Entry
pub mod Switch
pub mod Validity
use sth.Base.{
  ℕ, zero, suc, ◌+◌, ◌-◌, ◌*◌, bit_and, bit_or, Bool, not, ◌&&◌, ◌||◌, ltb, leb, ◌==◌,
  if◌then◌else◌, u32, sub32, not32, ◌<<<◌, ◌>>>◌,
}
use sth.Hyper.{
  hal_virt_start, GuestInfo, Platform, M, pure, ◌>>=◌, ◌>>◌, panic_if, get_vm, modify_cpu, cop_op,
  load, store, flpt_va, get_virt, dcache_invalidate_mva, tlb_invalidate_mva, branch_pred_inval_all,
  sensitive_virtual_address, foreign_physical_address, outside_address_space, table_base_not_kernel,
  table_base_writable,
}
use sth.Hyper.Config.{dom_kernel}
use sth.Hyper.Cache.{hypercall_dcache_clean_area}
use sth.Hyper.PageTable.{
  l1_pt_addr, l1_section_addr, l2_small_addr, ap_user_ro, ap_user_rw, mlt_user_ram,
  pt_create_coarse, clear_words,
}

-- `pa >= PHYS_OFFSET && pa < PHYS_OFFSET + guest_size`
abbrev pub owns : GuestInfo → ℕ → Bool
owns g pa = leb g.phys_offset pa && ltb pa (u32 (g.phys_offset + g.guest_size))

-- The attributes of a guest's section: its domain is set.
abbrev pub kernel_attr : ℕ → ℕ
kernel_attr page_attr = bit_or (bit_and page_attr (not32 0x1e0)) (dom_kernel <<< 5)

unfoldable pub hypercall_set_pte : (va linux_pte phys_pte : ℕ) → M (Unit {0})
hypercall_set_pte va linux_pte phys_pte = do
  let phys_va = sub32 va 0x800
  vm ← get_vm
  let pa = l2_small_addr phys_pte
  panic_if (ltb phys_va vm.guest_info.page_offset || ltb (hal_virt_start - 4) va)
      outside_address_space 1
  panic_if (not (phys_pte == 0) && not (owns vm.guest_info pa)) foreign_physical_address 1
  store phys_va phys_pte
  store va linux_pte
  cop_op (dcache_invalidate_mva phys_va)

-- LINUX_VA
abbrev pub linux_va : (phys_offset x : ℕ) → ℕ
linux_va phys_offset x = u32 ((sub32 x phys_offset <<< 4 >>> 24) + 0xc00)

-- The word of the second-level table that maps the page directory `table_base`.
abbrev pub table_entry : (l2_pt table_base : ℕ) → ℕ
table_entry l2_pt table_base = u32 (l2_pt + 4 * (table_base <<< 12 >>> 24))

module _ (p : Platform) where
  abbrev pub pmd_of : ℕ → ℕ
  pmd_of va = u32 (flpt_va p + (va >>> 20) * 4)

  unfoldable pub hypercall_create_section : (va pa page_attr : ℕ) → M (Unit {0})
  hypercall_create_section va pa page_attr = do
    vm ← get_vm
    panic_if (leb hal_virt_start va && ltb va (hal_virt_start + 0x100_0000))
        sensitive_virtual_address 1
    panic_if (not (owns vm.guest_info pa)) foreign_physical_address 1
    if va == 0xc000_0000 then pure tt else (do
      store (pmd_of va) (bit_or pa (kernel_attr page_attr))
      cop_op (dcache_invalidate_mva (pmd_of va)))

  unfoldable pub hypercall_switch_mm : (table_base context_id : ℕ) → M (Unit {0})
  hypercall_switch_mm table_base context_id = do
    vm ← get_vm
    let pgd_va = linux_va vm.guest_info.phys_offset table_base
    let va = pgd_va <<< 20
    panic_if (ltb va vm.guest_info.page_offset || ltb (hal_virt_start - 0x4000) va)
        table_base_not_kernel 1
    l1 ← load (u32 (flpt_va p + 4 * pgd_va))
    let l2_pt = get_virt p (l1_pt_addr l1)
    l2 ← load (table_entry l2_pt table_base)
    panic_if (not (bit_and l2 0x10 == 0)) table_base_writable 1
    modify_cpu (λ c. record c { context_id = 0 })
    modify_cpu (λ c. record c { translation_table0 = table_base })
    modify_cpu (λ c. record c { context_id = context_id })
