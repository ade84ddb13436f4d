-- ===== src/Library/Slab/Laws.antt =====
-- What `slab_alloc` and `slab_cleanup` do in the states that a cache comes to.
use mathlib.Core.Path.{subst}
use sth.Base.{
  ℕ, zero, suc, ◌+◌, ◌-◌, ◌^◌, ◌<◌, ◌≡◌, refl, arith, true, false, none, some, ◌==◌, List, ◌∷◌, slt,
  u32, sub32, ne→==, eq→==, sym, ◌∙◌, ap, ◌⊎◌, inl, inr, Bool-cases, ==→eq,
}
use sth.Library.Pool.{pool_alloc, pool_cleanup, pool_get_raw}
use sth.Library.Slab.{Slab, slab_alloc, slab_cleanup, destruct_from, call, without_pool}
use sth.Library.LinkedList.Walk.{member}
use sth.Library.Slab.Cache.{
  objects, objects-same, World, constructor_of, destructor_of, destruct_all, IsCache, Reached,
  started, allocated, freed, started-IsCache, freed-IsCache,
}

module _ (V : Type 0) (construct destruct : ℕ → V → V) where
  abbrev pub Seen : Type 0
  Seen = World V construct destruct

  abbrev pub Holds : Slab Seen → Seen → Type 0
  Holds = IsCache V construct destruct

  -- The object in front is taken off the stack.
  abbrev taken : Slab Seen → Slab Seen
  taken s = record s { pool = record (s.pool) { current = s.pool.current - 1 } }

  abbrev lowered : Slab Seen → Slab Seen
  lowered s = record s {
    pool = record (s.pool) { current = s.pool.current - 1 };
    const_bottom = sub32 s.const_bottom 1;
  }

  reused-IsCache :
      (s : Slab Seen) (w : Seen) (c : Holds s w) → c.unused < s.pool.current → Holds (taken s) w
  unfolding pool_get_raw
  reused-IsCache s w c h = record {
    unused = c.unused;
    small = c.small;
    full = omega (arith, c.full);
    left = omega arith;
    bottom = c.bottom;
    callbacks = c.callbacks;
    fresh = c.fresh;
    present = λ i lt. c.present i (omega arith);
    returned = λ i lo lt. c.returned i lo (omega arith);
    constructed_ =
        c.constructed_
        ∙ sym (
            objects-same s.pool (s.pool.current - 1) (s.pool.count - c.unused) c.unused
              s.pool.stack);
  }

  built-IsCache :
      (s : Slab Seen) (log : List ℕ) (v v' : V) (c : Holds s (log, v))
      → c.unused ≡ s.pool.current
      → 0 < s.pool.current
      → Holds (lowered s) (s.pool.stack (s.pool.current - 1) ∷ log, v')
  unfolding pool_get_raw
  built-IsCache s log v v' c h some_left = record {
    unused = u;
    small = c.small;
    full = omega (arith, c.full);
    left = omega arith;
    bottom = omega (arith, c.bottom, c.small, c.full);
    callbacks = c.callbacks;
    fresh = λ i lt. c.fresh i (omega arith);
    present = λ i lt. c.present i (omega arith);
    returned = λ i lo lt. absurd (omega arith);
    constructed_ = rw one_more (
        ap (λ xs. s.pool.stack u ∷ xs) rest
        ∙ ap (λ x. x ∷ objects (lowered s).pool (s.pool.count - s.pool.current) (suc u))
            (c.fresh u (omega arith)));
  }
    where
      u : ℕ
      u = s.pool.current - 1

      one_more : s.pool.count - u ≡ suc (s.pool.count - s.pool.current)
      one_more = omega (arith, c.full)

      next : c.unused ≡ suc u
      next = omega arith

      rest : log ≡ objects (lowered s).pool (s.pool.count - s.pool.current) (suc u)
      rest =
          c.constructed_
          ∙ ap (λ k. objects s.pool (s.pool.count - k) k) h
          ∙ ap (objects s.pool (s.pool.count - s.pool.current)) (sym h ∙ next)
          ∙ sym (objects-same s.pool u (s.pool.count - s.pool.current) (suc u) s.pool.stack)

  -- An object that is handed out has been constructed.
  abbrev pub IsServed : ℕ × Slab Seen × Seen → Type 0
  IsServed (x, s, w) = Holds s w × ((x ≡ 0) ⊎ (member x w.0 ≡ true))

  called :
      (s : Slab Seen) (w : Seen) (x : ℕ)
      → Holds s w
      → call Seen s.constructor_ x w ≡ constructor_of V construct destruct x w
  called s w x c = ap (λ f. call Seen f x w) c.callbacks.0

  member-first : (x : ℕ) (xs : List ℕ) → member x (x ∷ xs) ≡ true
  member-first x xs = rw (eq→== x x refl) refl

  slab_alloc-IsServed : (s : Slab Seen) (w : Seen) → Holds s w → IsServed (slab_alloc Seen s w)
  unfolding slab_alloc pool_alloc
  slab_alloc-IsServed s (log, v) c = elim (Bool-cases (slt 0 s.pool.current)) [
    | inl some_left ↦
        let x = s.pool.stack (s.pool.current - 1) in
        let more : 0 < s.pool.current = ground (arith, c.small, c.full, some_left) in
        let ne : (x == 0) ≡ false = ne→== x 0 (c.present (s.pool.current - 1) (omega arith)) in
        elim (Bool-cases (s.const_bottom == s.pool.current - 1)) [
          | inl lowest ↦
              let all_unused = at_bottom (==→eq s.const_bottom (s.pool.current - 1) lowest) more in
              rw (some_left, ne, lowest)
                (subst (λ w. IsServed (x, lowered s, w)) (sym (called s (log, v) x c))
                  (
                    built-IsCache s log v (construct x v) c all_unused more,
                    inr (member-first x log),
                  ))
          | inr higher ↦
              let some_used = above_bottom higher more in
              rw (some_left, ne, higher)
                (
                  reused-IsCache s (log, v) c some_used,
                  inr (c.returned (s.pool.current - 1) (omega arith) (omega arith)),
                )
        ]
    | inr no_left ↦ rw no_left (c, inl refl)
  ]
    where
      at_bottom :
          s.const_bottom ≡ s.pool.current - 1 → 0 < s.pool.current → c.unused ≡ s.pool.current
      at_bottom e more = omega (arith, c.bottom, c.left, c.small, c.full)

      above_bottom :
          (s.const_bottom == s.pool.current - 1) ≡ false
          → 0 < s.pool.current
          → c.unused < s.pool.current
      above_bottom e more = ground (arith, c.bottom, c.left, c.small, c.full)

  Reached-IsCache : (s : Slab Seen) (w : Seen) → Reached V construct destruct s w → Holds s w
  Reached-IsCache s w (started malloc s' item_size item_count v small given ne) =
      started-IsCache V construct destruct malloc s' item_size item_count v small given ne
  Reached-IsCache s w (allocated s' w' r) = (slab_alloc-IsServed s' w' (Reached-IsCache s' w' r)).0
  Reached-IsCache s w (freed s' w' x r ne there) =
      freed-IsCache V construct destruct s' w' x (Reached-IsCache s' w' r) ne there

  -- In every state that a cache comes to, the objects constructed are those of the pool from some
  -- index on, each of them once, and an object that `slab_alloc` hands out then is 0 or one of the
  -- objects constructed by the end of the call.
  pub slab_alloc-constructs :
      (s : Slab Seen) (w : Seen)
      → Reached V construct destruct s w
      → (unused : ℕ) × (w.0 ≡ objects s.pool (s.pool.count - unused) unused)
        × (((slab_alloc Seen s w).0 ≡ 0)
            ⊎ (member (slab_alloc Seen s w).0 (slab_alloc Seen s w).2.0 ≡ true))
  slab_alloc-constructs s w r =
      let c = Reached-IsCache s w r in (c.unused, c.constructed_, (slab_alloc-IsServed s w c).1)

  abbrev at_index : Slab Seen → ℕ → Slab Seen
  at_index s u = record s { const_bottom = u }

  destruct_from-objects :
      (rounds k u : ℕ) (s : Slab Seen) (log : List ℕ) (v : V)
      → k < rounds
      → u + k ≡ s.pool.count
      → s.pool.count < 2 ^ 31
      → s.const_bottom ≡ sub32 u 1
      → s.destructor_ ≡ some (destructor_of V construct destruct)
      → (destruct_from Seen rounds s (log, v)).1
        ≡ (log, destruct_all V construct destruct (objects s.pool k u) v)
  unfolding destruct_from
  destruct_from-objects zero k u s log v h e small at d = absurd (omega arith)
  destruct_from-objects (suc rounds) zero u s log v h e small at d =
      let next : u32 (s.const_bottom + 1) ≡ u = omega arith in
      let end : slt u s.pool.count ≡ false = ground arith in rw (next, end) refl
  destruct_from-objects (suc rounds) (suc k) u s log v h e small at d =
      let next : u32 (s.const_bottom + 1) ≡ u = omega arith in
      let more : slt u s.pool.count ≡ true = ground arith in
      let x = pool_get_raw s.pool u in
      let rest =
        destruct_from-objects rounds k (suc u) (at_index s u) log (destruct x v) (omega arith)
          (omega arith) small (omega arith) d in
      rw (next, more)
        (ap (λ f. (destruct_from Seen rounds (at_index s u) (call Seen f x (log, v))).1) d ∙ rest)

  -- Cleaning a cache up calls the destructor for the objects constructed, once for each, and for no
  -- other.
  pub slab_cleanup-destructs :
      (s : Slab Seen) (w : Seen)
      → Reached V construct destruct s w
      → (slab_cleanup Seen s w).1 ≡ (w.0, destruct_all V construct destruct w.0 w.1)
  unfolding slab_cleanup
  slab_cleanup-destructs s (log, v) r =
      let c = Reached-IsCache s (log, v) r in
      let all_ =
        destruct_from-objects (suc s.pool.count) (s.pool.count - c.unused) c.unused s log v
          (omega arith) (omega (arith, c.left, c.full)) c.small c.bottom c.callbacks.1 in
      ap
        (λ f.
          (elim f as (λ x. Slab Seen × Seen) [
            | none ↦ (record s { pool = pool_cleanup s.pool }, (log, v))
            | some d ↦ without_pool Seen (destruct_from Seen (suc s.pool.count) s (log, v))
          ]).1)
        c.callbacks.1
      ∙ all_
      ∙ ap (λ xs. (log, destruct_all V construct destruct xs v)) (sym c.constructed_)
