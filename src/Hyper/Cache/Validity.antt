-- ===== src/Hyper/Cache/Validity.antt =====
-- The operations on caches keep the modes valid.
use sth.Base.{ℕ, zero, suc}
use sth.Hyper.{RpcHandler, Platform}
use sth.Hyper.Cache.{AreaOp, flush, clean, area_op, area_loop, mem_cache_dcache_area}
use sth.Hyper.Stable.{Stable, stable}

module _ (h : RpcHandler) where
  area_op-Stable : (op : AreaOp) (a : ℕ) → Stable h (area_op op a)
  area_op-Stable flush a = search stable
  area_op-Stable clean a = search stable

  area_loop-Stable : (op : AreaOp) (c end fuel next : ℕ) → Stable h (area_loop op c end fuel next)
  unfolding area_loop
  area_loop-Stable op c end zero next = record { keeps = λ s v. tt }
  area_loop-Stable op c end (suc fuel) next =
      let rest : (a : ℕ) → Stable h (area_loop op c end fuel a) = area_loop-Stable op c end fuel in
      search (stable, area_op-Stable, rest) depth 10

  pub mem_cache_dcache_area-Stable :
      (p : Platform) (fuel va size : ℕ) (op : AreaOp)
      → Stable h (mem_cache_dcache_area p fuel va size op)
  unfolding mem_cache_dcache_area
  mem_cache_dcache_area-Stable p fuel va size op = record {
    keeps = λ s v. (area_loop-Stable op _ _ fuel va).keeps s v;
  }
