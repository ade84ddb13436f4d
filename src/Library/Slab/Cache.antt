-- ===== src/Library/Slab/Cache.antt =====
-- Which objects of a cache are constructed. The world is the list of the constructed objects, the
-- last one in front, and what the constructor and the destructor change else.
use sth.Base.{
  ℕ, zero, suc, ◌+◌, ◌-◌, ◌^◌, ◌≤◌, ◌<◌, ◌≡◌, ◌≢◌, refl, arith, Bool, true, false, ◌||◌, some, ◌==◌,
  List, [], ◌∷◌, update, slt, sub32, ne→==, eq→==, sym, ◌∙◌, ap, inl, inr, Bool-cases, ==→eq,
}
use sth.Library.Pool.{
  Pool, pool_init, pool_free, pool_get_raw, rounded_count, rounded_size, pool_bytes,
}
use sth.Library.Slab.{Slab, slab_init, slab_alloc, slab_free}
use sth.Library.Pool.Laws.{pool_init-full}
use sth.Library.LinkedList.Walk.{member}

-- `k` objects of the pool, from the one with index `u` on.
abbrev pub objects : Pool → (k u : ℕ) → List ℕ
objects p zero u = []
objects p (suc k) u = pool_get_raw p u ∷ objects p k (suc u)

pub objects-same :
    (p : Pool) (current k u : ℕ) (stack : ℕ → ℕ)
    → objects (record p { current = current; stack = stack }) k u ≡ objects p k u
unfolding pool_get_raw
objects-same p current zero u stack = refl
objects-same p current (suc k) u stack =
    ap (λ xs. pool_get_raw p u ∷ xs) (objects-same p current k (suc u) stack)

pub member-later : (x y : ℕ) (xs : List ℕ) → member x xs ≡ true → member x (y ∷ xs) ≡ true
member-later x y xs h = rw h (by_test (y == x))
  where
    by_test : (t : Bool) → (t || true) ≡ true
    by_test true = refl
    by_test false = refl

module _ (V : Type 0) (construct destruct : ℕ → V → V) where
  abbrev pub World : Type 0
  World = List ℕ × V

  abbrev pub constructor_of : ℕ → World → World
  constructor_of x (log, v) = (x ∷ log, construct x v)

  abbrev pub destructor_of : ℕ → World → World
  destructor_of x (log, v) = (log, destruct x v)

  abbrev pub destruct_all : List ℕ → V → V
  destruct_all [] v = v
  destruct_all (x ∷ xs) v = destruct_all xs (destruct x v)

  -- The lowest `unused` objects of the stack have never been handed out, and the others have been
  -- constructed, each of them once.
  pub record IsCache (s : Slab World) (w : World) : Type 0 where
    pub unused : ℕ
    pub small : s.pool.count < 2 ^ 31
    pub full : s.pool.current ≤ s.pool.count
    pub left : unused ≤ s.pool.current
    pub bottom : s.const_bottom ≡ sub32 unused 1
    pub callbacks : (s.constructor_ ≡ some constructor_of) × (s.destructor_ ≡ some destructor_of)
    pub fresh : (i : ℕ) → i < unused → s.pool.stack i ≡ pool_get_raw s.pool i
    pub present : (i : ℕ) → i < s.pool.current → s.pool.stack i ≢ 0
    pub returned : (i : ℕ) → unused ≤ i → i < s.pool.current → member (s.pool.stack i) w.0 ≡ true
    pub constructed_ : w.0 ≡ objects s.pool (s.pool.count - unused) unused

  -- The states of a cache: it is set up, and objects are handed out and given back.
  pub data Reached : Slab World → World → Type 0 where
    started :
        (malloc : ℕ → ℕ) (s : Slab World) (item_size item_count : ℕ) (v : V)
        → rounded_count item_count < 2 ^ 31
        → malloc (pool_bytes (rounded_size item_size) (rounded_count item_count)) ≢ 0
        → ((i : ℕ)
            → i < rounded_count item_count
            → pool_get_raw (pool_init malloc s.pool item_size item_count).1 i ≢ 0)
        → Reached
            (slab_init World malloc s item_size item_count
              (some constructor_of)
              (some destructor_of)).1
            ([], v)
    allocated :
        (s : Slab World) (w : World)
        → Reached s w
        → Reached (slab_alloc World s w).1 (slab_alloc World s w).2
    freed :
        (s : Slab World) (w : World) (x : ℕ)
        → Reached s w
        → x ≢ 0
        → member x w.0 ≡ true
        → Reached (slab_free World s x) w

  pub started-IsCache :
      (malloc : ℕ → ℕ) (s : Slab World) (item_size item_count : ℕ) (v : V)
      → rounded_count item_count < 2 ^ 31
      → malloc (pool_bytes (rounded_size item_size) (rounded_count item_count)) ≢ 0
      → ((i : ℕ)
          → i < rounded_count item_count
          → pool_get_raw (pool_init malloc s.pool item_size item_count).1 i ≢ 0)
      → IsCache
          (slab_init World malloc s item_size item_count
            (some constructor_of)
            (some destructor_of)).1
          ([], v)
  unfolding slab_init
  started-IsCache malloc s item_size item_count v small given ne =
      let count = rounded_count item_count in
      let made = λ (i : ℕ) (h : i < count).
        pool_init-full malloc s.pool item_size item_count i small given h in
      let (ok, full, total, _) = made 0 (ground arith) in
      let p = (pool_init malloc s.pool item_size item_count).1 in
      let stack_ : (i : ℕ) → i < p.current → p.stack i ≡ pool_get_raw p i =
        λ i h. (made i (omega (arith, full, total))).3 in
      let none_left : p.count - p.current ≡ 0 = omega (arith, full) in
      rw ok record {
        unused = p.current;
        small = omega (arith, total);
        full = omega (arith, full);
        left = omega arith;
        bottom = rw full refl;
        callbacks = (refl, refl);
        fresh = stack_;
        present = λ i h e. ne i (omega (arith, h, full, total)) (sym (stack_ i h) ∙ e);
        returned = λ i lo hi. absurd (omega arith);
        constructed_ = rw none_left refl;
      }

  pub freed-IsCache :
      (s : Slab World) (w : World) (x : ℕ)
      → IsCache s w
      → x ≢ 0
      → member x w.0 ≡ true
      → IsCache (slab_free World s x) w
  unfolding slab_free pool_free pool_get_raw
  freed-IsCache s w x c ne there = elim (Bool-cases (slt s.pool.current s.pool.count)) [
    | inl room ↦ rw room (pushed (ground (arith, c.small, c.full, room)))
    | inr no_room ↦ rw no_room c
  ]
    where
      below : (i : ℕ) → i ≢ s.pool.current → update s.pool.stack s.pool.current x i ≡ s.pool.stack i
      below i ne = rw (ne→== i s.pool.current ne) refl

      top : (i : ℕ) → i ≡ s.pool.current → update s.pool.stack s.pool.current x i ≡ x
      top i e = rw (eq→== i s.pool.current e) refl

      pushed :
          s.pool.current < s.pool.count
          → IsCache
              (record s {
                pool = record (s.pool) {
                  stack = update s.pool.stack s.pool.current x;
                  current = s.pool.current + 1;
                };
              })
              w
      pushed h = record {
        unused = c.unused;
        small = c.small;
        full = omega arith;
        left = omega (arith, c.left);
        bottom = c.bottom;
        callbacks = c.callbacks;
        fresh = λ i lt. below i (omega (arith, c.left)) ∙ c.fresh i lt;
        present = λ i lt. elim (Bool-cases (i == s.pool.current)) [
          | inl here ↦ rw (top i (==→eq i s.pool.current here)) ne
          | inr other ↦ rw (below i (ground arith)) (c.present i (ground arith))
        ];
        returned = λ i lo lt. elim (Bool-cases (i == s.pool.current)) [
          | inl here ↦ rw (top i (==→eq i s.pool.current here)) there
          | inr other ↦ rw (below i (ground arith)) (c.returned i lo (ground arith))
        ];
        constructed_ =
            c.constructed_
            ∙ sym (
                objects-same s.pool (s.pool.current + 1) (s.pool.count - c.unused) c.unused
                  (update s.pool.stack s.pool.current x));
      }
