-- ===== src/Hyper/PageDirectory.antt =====
-- The hypercalls on the guest's page directories: `hypercall_free_pgd`, `hypercall_new_pgd` and
-- `hypercall_set_pmd` of core/hypervisor/hypercalls/hyp_mmu.c. `fuel` is for the loop that cleans
-- the data cache.
pub mod Validity
use sth.Base.{
  ℕ, zero, suc, ◌+◌, ◌-◌, ◌*◌, ◌/◌, bit_and, bit_or, Bool, not, ◌&&◌, ◌||◌, ltb, leb, ◌==◌,
  if◌then◌else◌, u32, sub32, not32, ◌<<<◌, ◌>>>◌,
}
use sth.Hyper.{
  hal_virt_start, GuestInfo, Platform, M, pure, ◌>>=◌, ◌>>◌, panic_if, get_vm, cop_op, load, store,
  flpt_va, get_virt, dcache_invalidate_mva, tlb_invalidate_mva, branch_pred_inval_all,
  foreign_physical_address, outside_address_space,
}
use sth.Hyper.Cache.{hypercall_dcache_clean_area}
use sth.Hyper.PageTable.{
  l1_pt_addr, l1_section_addr, l2_small_addr, ap_user_ro, ap_user_rw, mlt_user_ram,
  pt_create_coarse, clear_words,
}
use sth.Hyper.Mmu.{owns}

-- `va` is forgotten by the TLB and the branch predictor.
abbrev invalidate_mapping : ℕ → M (Unit {0})
invalidate_mapping va = cop_op (tlb_invalidate_mva va) >> cop_op branch_pred_inval_all

-- The two permission bits of a small page.
abbrev set_ap : (ap entry : ℕ) → ℕ
set_ap ap entry = bit_or (bit_and entry (not32 (3 <<< 4))) (ap <<< 4)

-- `(pgd << 12) >> 24`, the place of a page in its second-level table
abbrev lvl2_index : ℕ → ℕ
lvl2_index pgd = pgd <<< 12 >>> 24

abbrev linux_address : GuestInfo → ℕ → ℕ
linux_address g pa = u32 (sub32 pa g.phys_offset + g.page_offset)

-- The four entries from index `i` on are made writable.
make_rw : GuestInfo → (l2_pt i left : ℕ) → M (Unit {0})
make_rw g l2_pt i zero = pure tt
make_rw g l2_pt i (suc left) = do
  let at = u32 (l2_pt + 4 * i)
  entry ← load at
  store at (bit_or entry 0x30)
  cop_op (dcache_invalidate_mva at)
  invalidate_mapping (linux_address g (l2_small_addr (bit_or entry 0x30)))
  make_rw g l2_pt (i + 1) left

-- The four entries from index `i` on are made read only.
make_ro : GuestInfo → (l2_pt i left : ℕ) → M (Unit {0})
make_ro g l2_pt i zero = pure tt
make_ro g l2_pt i (suc left) = do
  let at = u32 (l2_pt + 4 * i)
  entry ← load at
  invalidate_mapping (linux_address g (l2_small_addr entry))
  store at (set_ap ap_user_ro entry)
  cop_op (dcache_invalidate_mva at)
  make_ro g l2_pt (i + 1) left

-- `memcpy(dst, src, 4 * n)` of aligned words
copy_words : (dst src n : ℕ) → M (Unit {0})
copy_words dst src zero = pure tt
copy_words dst src (suc n) = do
  w ← load src
  store dst w
  copy_words (u32 (dst + 4)) (u32 (src + 4)) n

-- The address is outside [PAGE_OFFSET, HAL_VIRT_START - size].
abbrev outside : GuestInfo → (a size : ℕ) → Bool
outside g a size = ltb a g.page_offset || ltb (hal_virt_start - size) a

module _ (p : Platform) where
  abbrev l1_at : ℕ → ℕ
  l1_at va = u32 (flpt_va p + 4 * (va >>> 20))

  unfoldable pub hypercall_free_pgd : (fuel pgd : ℕ) → M (Unit {0})
  unfolding make_rw
  hypercall_free_pgd fuel pgd = do
    vm ← get_vm
    panic_if (outside vm.guest_info pgd 0x4000) outside_address_space 1
    l1 ← load (l1_at pgd)
    make_rw vm.guest_info (get_virt p (l1_pt_addr l1)) (lvl2_index pgd) 4
    hypercall_dcache_clean_area p fuel pgd 0x4000

  -- The second-level table that maps `pgd`; a section is split into one first.
  directory_table : GuestInfo → (pgd : ℕ) → M ℕ
  directory_table g pgd = do
    slpt_pa ← load (l1_at pgd)
    if bit_and slpt_pa 2 == 0 then pure (get_virt p (l1_pt_addr slpt_pa)) else (do
      invalidate_mapping (linux_address g (l1_pt_addr slpt_pa))
      store (l1_at pgd) 0
      pt_create_coarse p (flpt_va p) (l1_section_addr pgd) (l1_section_addr slpt_pa) 0x10_0000
          mlt_user_ram
      entry ← load (l1_at pgd)
      cop_op (dcache_invalidate_mva (u32 ((pgd >>> 20) * 4 + flpt_va p)))
      pure (get_virt p (l1_pt_addr entry)))

  unfoldable pub hypercall_new_pgd : (fuel pgd : ℕ) → M (Unit {0})
  unfolding make_ro copy_words directory_table
  hypercall_new_pgd fuel pgd = do
    vm ← get_vm
    panic_if (outside vm.guest_info pgd 0x4000) outside_address_space 1
    l2_pt ← directory_table vm.guest_info pgd
    make_ro vm.guest_info l2_pt (lvl2_index pgd) 4
    clear_words pgd (0x2fc0 / 4)
    copy_words (u32 (pgd + 0x2fc0)) (u32 (flpt_va p + 0x2fc0)) (0x1040 / 4)
    hypercall_dcache_clean_area p fuel pgd 0x4000

  -- The place of the entry: in the master table for the swapper's page, else where `pmd` points.
  abbrev l1_pt_of : GuestInfo → ℕ → ℕ
  l1_pt_of g pmd =
      if leb (u32 (g.page_offset + 0x4000)) pmd && ltb pmd (u32 (g.page_offset + 0x8000))
      then u32 (flpt_va p + sub32 (sub32 pmd g.page_offset) 0x4000)
      else pmd

  -- A section under the page table `pte` is replaced by small pages.
  split_section : GuestInfo → (pmd pte sect_idx : ℕ) → M (Unit {0})
  split_section g pmd pte sect_idx = do
    let l1_pt_va = u32 (sect_idx + flpt_va p)
    slpt_pa ← load l1_pt_va
    if bit_and slpt_pa 2 == 0 then pure tt else (do
      invalidate_mapping (linux_address g (l2_small_addr pte))
      store l1_pt_va 0
      pt_create_coarse p (flpt_va p) (u32 (sect_idx * 4) <<< 16) (l2_small_addr slpt_pa) 0x10_0000
          mlt_user_ram
      cop_op (
          dcache_invalidate_mva (
            if ltb 0xc000_8000 pmd
            then u32 ((pmd >>> 20) * 4 + flpt_va p)
            else u32 (sub32 pmd 0xc000_4000 + flpt_va p))))

  -- The permission of the small page that holds the table `val`.
  protect : (ap val sect_idx : ℕ) → M ℕ
  protect ap val sect_idx = do
    l2_pt_phys ← load (u32 (sect_idx + flpt_va p))
    let l2_pt_va = l1_pt_addr (get_virt p l2_pt_phys)
    let at = u32 (l2_pt_va + 4 * lvl2_index val)
    entry ← load at
    store at (set_ap ap entry)
    pure at

  install : GuestInfo → (l1_pt val sect_idx : ℕ) → M (Unit {0})
  unfolding protect
  install g l1_pt val sect_idx = do
    invalidate_mapping (linux_address g val)
    protect ap_user_ro val sect_idx
    store l1_pt val
    store (u32 (l1_pt + 4)) (u32 (val + 256 * 4))
    cop_op (dcache_invalidate_mva l1_pt)

  remove : GuestInfo → (l1_pt sect_idx : ℕ) → M (Unit {0})
  unfolding protect
  remove g l1_pt sect_idx = do
    old ← load l1_pt
    invalidate_mapping (linux_address g old)
    at ← protect ap_user_rw old sect_idx
    cop_op (dcache_invalidate_mva at)
    store l1_pt 0
    store (u32 (l1_pt + 4)) 0
    cop_op (dcache_invalidate_mva l1_pt)

  unfoldable pub hypercall_set_pmd : (pmd val : ℕ) → M (Unit {0})
  unfolding split_section install remove
  hypercall_set_pmd pmd val = do
    vm ← get_vm
    let g = vm.guest_info
    panic_if (outside g pmd 4) outside_address_space 1
    panic_if (not (val == 0) && not (owns g (l1_section_addr val))) foreign_physical_address 1
    let l1_pt = l1_pt_of g pmd
    pte ← (if val == 0 then load l1_pt else pure val)
    let sect_idx = u32 ((sub32 pte g.phys_offset >>> 20) * 4 + 0x3000)
    split_section g pmd pte sect_idx
    if val == 0 then remove g l1_pt sect_idx else install g l1_pt val sect_idx
