-- ===== src/Hyper/Cache/SetWay/Validity.antt =====
-- The invalidation by set and way, and the cache hypercall, keep the modes valid.
use sth.Base.{ℕ, zero, suc, Bool, true, refl, ◌<<<◌}
use sth.Hyper.{RpcHandler, Platform, Hyp, pure, modify_cpu}
use sth.Hyper.Cache.{mem_mmu_tlb_invalidate_all}
use sth.Hyper.Cache.Validity.{mem_cache_dcache_area-Stable}
use sth.Hyper.Cache.SetWay.{
  set_loop, way_loop, ways, setway, level_loop, mem_cache_invalidate, hypercall_cache_op,
}
use sth.Hyper.Stable.{Stable, stable, modify_cpu-Stable, bind-Stable, cop_op-Stable}

module _ (h : RpcHandler) where
  set_loop-Stable :
      (clean_it : Bool) (level len way sets : ℕ) → Stable h (set_loop clean_it level len way sets)
  unfolding set_loop
  set_loop-Stable clean_it level len way zero = search stable
  set_loop-Stable clean_it level len way (suc set) =
      bind-Stable h _ _ (cop_op-Stable h _) (λ _. set_loop-Stable clean_it level len way set)

  way_loop-Stable :
      (clean_it : Bool) (level len shift sets ways : ℕ)
      → Stable h (way_loop clean_it level len shift sets ways)
  unfolding way_loop
  way_loop-Stable clean_it level len shift sets zero = search stable
  way_loop-Stable clean_it level len shift sets (suc way) =
      bind-Stable h _ _ (set_loop-Stable clean_it level len (way <<< shift) sets)
        (λ _. way_loop-Stable clean_it level len shift sets way)

  select-Stable : (n : ℕ) → Stable h (modify_cpu (λ c. record c { csselr = n }))
  select-Stable n = modify_cpu-Stable h _ (λ c. (refl, refl))

  read-Stable : (f : Hyp → ℕ) → Stable h (λ s. pure (f s) s)
  read-Stable f = record { keeps = λ s v. v }

  ways-Stable : (clean_it : Bool) (level ccsidr : ℕ) → Stable h (ways clean_it level ccsidr)
  unfolding ways
  ways-Stable clean_it level ccsidr = search way_loop-Stable

  setway-Stable : (p : Platform) (level : ℕ) (clean_it : Bool) → Stable h (setway p level clean_it)
  unfolding setway
  setway-Stable p level clean_it = bind-Stable h _ _ (select-Stable (level <<< 1)) (λ _.
      bind-Stable h _ _ (read-Stable (λ s. p.ccsidr s.cpu.csselr)) (ways-Stable clean_it level))

  level_loop-Stable :
      (p : Platform) (clean_it : Bool) (level bit left : ℕ)
      → Stable h (level_loop p clean_it level bit left)
  unfolding level_loop
  level_loop-Stable p clean_it level bit zero = search stable
  level_loop-Stable p clean_it level bit (suc left) =
      let rest : (l b : ℕ) → Stable h (level_loop p clean_it l b left) =
        λ l b. level_loop-Stable p clean_it l b left in
      search (stable, setway-Stable, rest) depth 10

  mem_cache_invalidate-Stable :
      (p : Platform) (inst data_ writeback : Bool)
      → Stable h (mem_cache_invalidate p inst data_ writeback)
  unfolding mem_cache_invalidate
  mem_cache_invalidate-Stable p inst data_ writeback = search (stable, level_loop-Stable) depth 10

  tlb-Stable : Stable h (mem_mmu_tlb_invalidate_all true true)
  unfolding mem_mmu_tlb_invalidate_all
  tlb-Stable = search stable

  pub hypercall_cache_op-Stable :
      (p : Platform) (fuel op va size : ℕ) → Stable h (hypercall_cache_op p fuel op va size)
  unfolding hypercall_cache_op
  hypercall_cache_op-Stable p fuel op va size =
      search (stable, tlb-Stable, mem_cache_invalidate-Stable, mem_cache_dcache_area-Stable) depth
        20
