-- ===== src/Hyper/PageTable.antt =====
-- Building page tables (core/hw/cpu/arm/arm_common/arm_mmu_pt.c, mmu.h).
pub mod Validity
pub mod Pages
pub mod Tables
use sth.Base.{
  ℕ, zero, suc, ◌+◌, ◌*◌, bit_and, bit_or, Bool, true, false, ◌&&◌, Option, none, some, ltb, ◌==◌,
  if◌then◌else◌, u32, not32, ◌<<<◌, ◌>>>◌,
}
use sth.Hyper.{Platform, M, pure, ◌>>=◌, ◌>>◌, ok, fault, load, store, slpt_va, get_virt, get_phys}
use sth.Hyper.Config.{dom_default, dom_kernel, dom_trusted}

-- Access permissions: MMU_AP_SUP_RW, MMU_AP_USER_RO, MMU_AP_USER_RW
abbrev pub ap_sup_rw : ℕ
ap_sup_rw = 1

abbrev pub ap_user_ro : ℕ
ap_user_ro = 2

abbrev pub ap_user_rw : ℕ
ap_user_rw = 3

-- MMU_FLAG_B | MMU_FLAG_C
abbrev pub flags_cached : ℕ
flags_cached = 0xc

-- `memory_layout_type` of core/include/types.h
pub data MemType : Type 0 where
  mlt_none mlt_hyper_ram mlt_hyper_rom mlt_user_ram mlt_user_rom mlt_trusted_ram : MemType
  mlt_io_rw_reg mlt_io_ro_reg mlt_io_hyp_reg : MemType

-- MMU_L1_PT_ADDR, MMU_L1_SECTION_ADDR and MMU_L2_SMALL_ADDR
abbrev pub l1_pt_addr : ℕ → ℕ
l1_pt_addr a = bit_and a 0xffff_fc00

abbrev pub l1_section_addr : ℕ → ℕ
l1_section_addr a = bit_and a 0xfff0_0000

abbrev pub l2_small_addr : ℕ → ℕ
l2_small_addr a = bit_and a 0xffff_f000

abbrev pub set_l2_index_p : ℕ → M (Unit {0})
set_l2_index_p n s = ok tt (record s { l2_index_p = n })

-- `memset(a, 0, 4 * n)` at an aligned address
pub clear_words : (a n : ℕ) → M (Unit {0})
clear_words a zero = pure tt
clear_words a (suc n) = store a 0 >> clear_words (u32 (a + 4)) n

-- `map_section`: the entry of `va` in the page directory
unfoldable pub map_section : (page_dir va pa : ℕ) (cache : Bool) → M (Unit {0})
map_section page_dir va pa cache =
    let page_attr =
      if cache then bit_or (bit_or (ap_sup_rw <<< 10) flags_cached) 2 else bit_or (3 <<< 10) 2 in
    store (u32 (page_dir + 4 * (va >>> 20))) (bit_or (bit_and pa 0xfff0_0000) page_attr)

module _ (p : Platform) where
  -- The physical address of a fresh table of 256 entries, or 0.
  pub pt_get_empty_l2 : M ℕ
  pt_get_empty_l2 = do
    n ← (λ s. ok s.l2_index_p s)
    if ltb 0x8000 (u32 (n * 0x400)) then pure 0 else (do
      clear_words (u32 (slpt_va p + u32 (n * 0x400))) 256
      set_l2_index_p (u32 (n + 1))
      pure (u32 (get_phys p (slpt_va p) + u32 (n * 0x400))))

unfoldable pub pt_create_section : (l1 va pa : ℕ) → MemType → M Bool
pt_create_section l1 va pa mem_type = do
  let index = va >>> 20
  val ← load (u32 (l1 + 4 * index))
  let attr = bit_or (bit_or pa 0x12) (ap_user_rw <<< 10)
  if (bit_and va 0xf_ffff == 0) && (bit_and val 3 == 0)
      then elim mem_type [
        | mlt_user_ram ↦ do
          store (u32 (l1 + 4 * index))
              (bit_or (bit_or (bit_and attr (not32 0x10)) 0xc) (dom_kernel <<< 5))
          pure true
        | mlt_trusted_ram ↦ do
          store (u32 (l1 + 4 * index))
              (bit_or (bit_or (bit_and attr (not32 0x10)) 0xc) (dom_trusted <<< 5))
          pure true
        | _ ↦ pure false
      ]
      else pure false

-- Domain, access permission and flags of a coarse mapping.
pub record CoarseAttr : Type 0 where
  pub domain : ℕ
  pub ap : ℕ
  pub flags : ℕ

-- The `switch`; on the types that it does not name `domain` and `ap` have no value.
abbrev pub coarse_attr : MemType → Option CoarseAttr
coarse_attr mlt_trusted_ram =
    some (record { domain = dom_trusted; ap = ap_user_rw; flags = flags_cached })
coarse_attr mlt_io_hyp_reg = some (record { domain = dom_default; ap = ap_sup_rw; flags = 1 })
coarse_attr mlt_io_rw_reg = some (record { domain = dom_default; ap = ap_user_rw; flags = 1 })
coarse_attr mlt_io_ro_reg = some (record { domain = dom_default; ap = ap_user_ro; flags = 1 })
coarse_attr mlt_user_ram =
    some (record { domain = dom_kernel; ap = ap_user_rw; flags = flags_cached })
coarse_attr mlt_user_rom =
    some (record { domain = dom_default; ap = ap_user_ro; flags = flags_cached })
coarse_attr mlt_none = none
coarse_attr mlt_hyper_ram = none
coarse_attr mlt_hyper_rom = none

abbrev pub small_page : (ap flags pa : ℕ) → ℕ
small_page ap flags pa = bit_or (bit_or (bit_or pa (ap <<< 4)) flags) 2

-- `while(count)`: the entries from `slpt_index` on
pub fill_table : (ap flags table2 count slpt_index pa : ℕ) → M (Unit {0})
fill_table ap flags table2 zero slpt_index pa = pure tt
fill_table ap flags table2 (suc count) slpt_index pa =
    store (u32 (table2 + 4 * slpt_index)) (small_page ap flags pa)
    >> fill_table ap flags table2 count (slpt_index + 1) (u32 (pa + 0x1000))

module _ (p : Platform) where
  -- The second-level table of an entry, made if there is none; `none` if there is no room.
  pub new_table : (entry : ℕ) → CoarseAttr → M (Option ℕ)
  unfolding pt_get_empty_l2
  new_table entry attr = do
    table2_pa ← pt_get_empty_l2 p
    if table2_pa == 0 then pure none else (do
      store entry (bit_or (bit_or table2_pa (attr.domain <<< 5)) 1)
      pure (some table2_pa))

  pub coarse_table : (entry : ℕ) → CoarseAttr → M (Option ℕ)
  unfolding new_table
  coarse_table entry attr = do
    val ← load entry
    if bit_and val 3 == 0 then new_table entry attr else pure (some (l1_pt_addr val))

  pub coarse_with : CoarseAttr → (pt va pa size : ℕ) → M Bool
  unfolding coarse_table fill_table
  coarse_with attr pt va pa size = do
    table ← coarse_table (u32 (pt + 4 * (va >>> 20))) attr
    elim table [
      | none ↦ pure false
      | some table2_pa ↦ do
        fill_table attr.ap attr.flags (get_virt p table2_pa) (size >>> 12)
            (bit_and va 0xf_f000 >>> 12) pa
        pure true
    ]

  unfoldable pub pt_create_coarse : (pt va pa size : ℕ) → MemType → M Bool
  unfolding coarse_with
  pt_create_coarse pt va pa size mem_type = elim (coarse_attr mem_type) [
    | none ↦ λ s. fault
    | some attr ↦ coarse_with attr pt va pa size
  ]

  unfoldable pub pt_map : (va pa size : ℕ) → MemType → M Bool
  pt_map va pa size mem_type = pt_create_coarse p.hyper_pt_start va pa size mem_type
