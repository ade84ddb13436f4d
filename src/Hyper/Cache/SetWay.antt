-- ===== src/Hyper/Cache/SetWay.antt =====
-- Invalidation of the data caches by set and way (core/hw/cpu/arm/armv7a/cpu_mem.c), and the
-- dispatcher of the cache hypercall (core/hypervisor/hypercalls/hyp_cache.c).
pub mod Validity
use sth.Base.{
  ℕ, zero, suc, ◌+◌, ◌-◌, bit_and, bit_or, Bool, true, ◌||◌, ◌==◌, if◌then◌else◌, u32, sub32, ◌<<<◌,
  ◌>>>◌,
}
use sth.Hyper.{
  Platform, CopOp, M, pure, ◌>>=◌, ◌>>◌, hyper_panic, not_implemented, modify_cpu, cop_op,
  dcache_invalidate_mva, icache_invalidate_all, branch_pred_inval_all, tlb_invalidate_all,
  tlb_invalidate_mva, tlb_invalidate_asid, dcache_clean_invalidate_sw, dcache_invalidate_sw,
}
use sth.Hyper.Cache.{
  mem_mmu_tlb_invalidate_all, hypercall_dcache_clean_area, hypercall_dcache_flush_area,
}

-- `while (temp)`: how often `temp` can be halved; 32 rounds are enough for a word.
bit_length : (fuel temp : ℕ) → ℕ
bit_length zero temp = 0
bit_length (suc fuel) temp =
    let rest = bit_length fuel (temp >>> 1) in if temp == 0 then 0 else rest + 1

-- Of a number that is not 0.
abbrev log_2_n_round_up : ℕ → ℕ
log_2_n_round_up n = if bit_and n (sub32 n 1) == 0 then bit_length 32 n - 1 else bit_length 32 n

abbrev setway_op : (clean_it : Bool) → ℕ → CopOp
setway_op clean_it v = if clean_it then dcache_clean_invalidate_sw v else dcache_invalidate_sw v

-- `for (set = num_sets - 1; set >= 0; set--)`
pub set_loop : (clean_it : Bool) (level log2_line_len way_bits sets : ℕ) → M (Unit {0})
set_loop clean_it level log2_line_len way_bits zero = pure tt
set_loop clean_it level log2_line_len way_bits (suc set) =
    cop_op (setway_op clean_it (bit_or (bit_or (level <<< 1) (set <<< log2_line_len)) way_bits))
    >> set_loop clean_it level log2_line_len way_bits set

-- `for (way = num_ways - 1; way >= 0; way--)`
pub way_loop : (clean_it : Bool) (level log2_line_len way_shift num_sets ways : ℕ) → M (Unit {0})
unfolding set_loop
way_loop clean_it level log2_line_len way_shift num_sets zero = pure tt
way_loop clean_it level log2_line_len way_shift num_sets (suc way) =
    set_loop clean_it level log2_line_len (way <<< way_shift) num_sets
    >> way_loop clean_it level log2_line_len way_shift num_sets way

-- The loops, with the sizes that the cache size register gives.
ways : (clean_it : Bool) (level ccsidr : ℕ) → M (Unit {0})
unfolding way_loop bit_length
ways clean_it level ccsidr =
    let num_ways = (bit_and ccsidr (0x3ff <<< 3) >>> 3) + 1 in
    let num_sets = (bit_and ccsidr (0x7fff <<< 13) >>> 13) + 1 in
    way_loop clean_it level (bit_and ccsidr 7 + 2 + 2) (32 - log_2_n_round_up num_ways) num_sets
      num_ways

module _ (p : Platform) where
  setway : (level : ℕ) (clean_it : Bool) → M (Unit {0})
  unfolding ways
  setway level clean_it = do
    modify_cpu (λ c. record c { csselr = level <<< 1 })
    ccsidr ← (λ s. pure (p.ccsidr s.cpu.csselr) s)
    ways clean_it level ccsidr

  abbrev cache_type : ℕ → ℕ
  cache_type level_start_bit = bit_and (p.clidr >>> level_start_bit) 7

  abbrev has_data : ℕ → Bool
  has_data type = type == 2 || type == 3 || type == 4

  -- `for (level = 0; level < 8; level++)`, with `left` rounds left.
  pub level_loop : (clean_it : Bool) (level level_start_bit left : ℕ) → M (Unit {0})
  unfolding setway
  level_loop clean_it level level_start_bit zero = pure tt
  level_loop clean_it level level_start_bit (suc left) =
      (if has_data (cache_type level_start_bit) then setway level clean_it else pure tt)
      >> level_loop clean_it (level + 1) (level_start_bit + 3) left

  abbrev mem_icache_invalidate : Bool → M (Unit {0})
  mem_icache_invalidate clean_it = level_loop clean_it 0 0 8

  unfoldable pub mem_cache_invalidate : (inst_inv data_inv data_writeback : Bool) → M (Unit {0})
  unfolding level_loop
  mem_cache_invalidate inst_inv data_inv data_writeback = do
    (if data_inv then mem_icache_invalidate data_writeback else pure tt)
    if inst_inv then cop_op icache_invalidate_all else pure tt

  abbrev hypercall_flush_all : M (Unit {0})
  hypercall_flush_all = mem_mmu_tlb_invalidate_all true true >> mem_cache_invalidate true true true

  -- An operation that is not known is only reported.
  unfoldable pub hypercall_cache_op : (fuel op va size : ℕ) → M (Unit {0})
  hypercall_cache_op fuel op va size =
      if op == 0
      then hypercall_flush_all
      else if op == 1
      then hypercall_dcache_flush_area p fuel va size
      else if op == 2
      then hypercall_dcache_clean_area p fuel va size
      else if op == 3
      then cop_op (dcache_invalidate_mva va)
      else if op == 4
      then cop_op icache_invalidate_all
      else if op == 5
      then hyper_panic not_implemented 1
      else if op == 6
      then cop_op branch_pred_inval_all
      else if op == 7
      then cop_op tlb_invalidate_all
      else if op == 8
      then cop_op (tlb_invalidate_mva va)
      else if op == 9
      then cop_op (tlb_invalidate_asid va)
      else pure tt
