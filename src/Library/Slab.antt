-- ===== src/Library/Slab.antt =====
-- Object caches (library/util/src/slab.c): a pool whose objects are constructed when they are first
-- handed out. The constructor and the destructor are functions of the object that change a world
-- `W`, in which their user data and the objects' memory stand.
pub mod Cache
pub mod Laws
use sth.Base.{
  ℕ, zero, suc, ◌+◌, Bool, true, false, Option, none, some, ◌==◌, if◌then◌else◌, slt, u32, sub32,
}
use sth.Library.Pool.{Pool, pool_init, pool_cleanup, pool_alloc, pool_free, pool_get_raw}

module _ (W : Type 0) where
  pub record Slab : Type 0 where
    pub const_bottom : ℕ
    pub pool : Pool
    pub constructor_ : Option (ℕ → W → W)
    pub destructor_ : Option (ℕ → W → W)

  -- A callback that is not null is called.
  abbrev pub call : Option (ℕ → W → W) → ℕ → W → W
  call none object w = w
  call (some f) object w = f object w

  -- The fields before the pool are set even if it fails; `const_bottom` is not.
  abbrev finish_init : Slab → Bool × Pool → Bool × Slab
  finish_init ctxt (ok, pool) =
      if ok
      then (true, record ctxt { pool = pool; const_bottom = sub32 pool.count 1 })
      else (false, record ctxt { pool = pool })

  unfoldable pub slab_init :
      (malloc : ℕ → ℕ)
      → Slab
      → (item_size item_count : ℕ) → (c d : Option (ℕ → W → W)) → Bool × Slab
  slab_init malloc ctxt item_size item_count c d =
      finish_init (record ctxt { constructor_ = c; destructor_ = d })
        (pool_init malloc ctxt.pool item_size item_count)

  -- `while( ++const_bottom < count)`, with `rounds` rounds at most.
  unfoldable pub destruct_from : (rounds : ℕ) → Slab → W → Slab × W
  destruct_from zero ctxt w = (ctxt, w)
  destruct_from (suc rounds) ctxt w =
      let next = record ctxt { const_bottom = u32 (ctxt.const_bottom + 1) } in
      let rest =
        destruct_from rounds next
          (call ctxt.destructor_ (pool_get_raw ctxt.pool next.const_bottom) w) in
      if slt next.const_bottom ctxt.pool.count then rest else (next, w)

  abbrev pub without_pool : Slab × W → Slab × W
  without_pool (ctxt, w) = (record ctxt { pool = pool_cleanup ctxt.pool }, w)

  -- A round for each object and one for the end of the loop are enough.
  unfoldable pub slab_cleanup : Slab → W → Slab × W
  unfolding destruct_from
  slab_cleanup ctxt w = elim (ctxt.destructor_) [
    | none ↦ without_pool (ctxt, w)
    | some d ↦ without_pool (destruct_from (suc ctxt.pool.count) ctxt w)
  ]

  -- An object that is not 0 is constructed if the stack is as low as never before.
  abbrev constructed : Slab → W → ℕ × Pool → ℕ × Slab × W
  constructed ctxt w (object, pool) =
      let taken = record ctxt { pool = pool } in
      if object == 0
      then (object, taken, w)
      else if ctxt.const_bottom == pool.current
      then (
        object,
        record taken { const_bottom = sub32 ctxt.const_bottom 1 },
        call ctxt.constructor_ object w,
      )
      else (object, taken, w)

  unfoldable pub slab_alloc : Slab → W → ℕ × Slab × W
  slab_alloc ctxt w = constructed ctxt w (pool_alloc ctxt.pool)

  unfoldable pub slab_free : Slab → (x : ℕ) → Slab
  slab_free ctxt x = record ctxt { pool = pool_free ctxt.pool x }
