-- ===== src/Hyper/Cache.antt =====
-- Cache and TLB operations: core/hypervisor/hypercalls/hyp_cache.c, and the routines of
-- core/hw/cpu/arm/armv7a/cpu_mem.c that they call. A loop by address takes fuel.
pub mod Area
pub mod SetWay
pub mod Validity
use sth.Base.{
  ℕ, zero, suc, ◌+◌, ◌-◌, ◌*◌, bit_and, bit_or, Bool, true, false, ◌&&◌, ltb, ◌==◌, if◌then◌else◌,
  u32, ◌<<<◌, ◌>>>◌,
}
use sth.Hyper.{
  Platform, Hyp, M, pure, ◌>>=◌, ◌>>◌, out_of_fuel, hyper_panic, not_implemented, cop_op,
  dcache_invalidate_mva, dcache_clean_invalidate_mva, icache_invalidate_all, branch_pred_inval_all,
  tlb_invalidate_all, tlb_invalidate_all_inst, tlb_invalidate_all_data, tlb_invalidate_mva,
  tlb_invalidate_asid,
}

-- The operations FLUSH and CLEAN of `mem_cache_dcache_area`; any other does nothing.
pub data AreaOp : Type 0 where
  flush clean : AreaOp

abbrev pub area_op : AreaOp → ℕ → M (Unit {0})
area_op flush next = cop_op (dcache_clean_invalidate_mva next)
area_op clean next = cop_op (dcache_invalidate_mva next)

-- `do { ... next += cache_size; } while(next < end)`
pub area_loop : AreaOp → (cache_size end fuel next : ℕ) → M (Unit {0})
area_loop op cache_size end zero next = λ s. out_of_fuel
area_loop op cache_size end (suc fuel) next =
    let rest = area_loop op cache_size end fuel (u32 (next + cache_size)) in
    area_op op next >> (if ltb (u32 (next + cache_size)) end then rest else pure tt)

-- 16 bytes shifted by the encoding in the low three bits of the register of the selected cache.
abbrev pub cache_line : Platform → Hyp → ℕ
cache_line p s = 16 <<< bit_and (p.ccsidr s.cpu.csselr) 7

unfoldable pub mem_cache_dcache_area : Platform → (fuel va size : ℕ) → AreaOp → M (Unit {0})
unfolding area_loop
mem_cache_dcache_area p fuel va size op s =
    area_loop op (cache_line p s) (u32 (va + size)) fuel va s

unfoldable pub mem_mmu_tlb_invalidate_all : (inst data_ : Bool) → M (Unit {0})
mem_mmu_tlb_invalidate_all true true = cop_op tlb_invalidate_all
mem_mmu_tlb_invalidate_all true false = cop_op tlb_invalidate_all_inst
mem_mmu_tlb_invalidate_all false true = cop_op tlb_invalidate_all_data
mem_mmu_tlb_invalidate_all false false = pure tt

abbrev pub hypercall_dcache_clean_area : Platform → (fuel va size : ℕ) → M (Unit {0})
hypercall_dcache_clean_area p fuel va size = mem_cache_dcache_area p fuel va size clean

abbrev pub hypercall_dcache_flush_area : Platform → (fuel va size : ℕ) → M (Unit {0})
hypercall_dcache_flush_area p fuel va size = mem_cache_dcache_area p fuel va size flush
