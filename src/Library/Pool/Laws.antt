-- ===== src/Library/Pool/Laws.antt =====
-- A pool as a stack of free objects, and where its objects lie.
use sth.Base.{
  ℕ, zero, suc, ◌+◌, ◌-◌, ◌*◌, ◌^◌, ◌≤◌, ◌<◌, ◌≡◌, ◌≢◌, refl, arith, true, false, ◌==◌,
  if◌then◌else◌, List, [], ◌∷◌, update, slt, u32, ne→==, eq→==, sym, ◌∙◌, inl, inr, Bool-cases,
}
use native.Mathlib.Nat.{mul-suc}
use sth.Library.Pool.{
  Pool, pool_init, pool_alloc, pool_free, pool_get_raw, free_all, first_object, rounded_size,
  rounded_count, pool_bytes,
}

-- The free objects, the one that is given out next in front.
abbrev pub stacked : (n : ℕ) (stack : ℕ → ℕ) → List ℕ
stacked zero stack = []
stacked (suc n) stack = stack n ∷ stacked n stack

abbrev pub available : Pool → List ℕ
available p = stacked p.current p.stack

-- The next object, 0 if there is none.
abbrev pub next_of : List ℕ → ℕ
next_of [] = 0
next_of (x ∷ xs) = x

abbrev pub rest_of : List ℕ → List ℕ
rest_of [] = []
rest_of (x ∷ xs) = xs

stacked-update :
    (n k x : ℕ) (stack : ℕ → ℕ) → n ≤ k → stacked n (update stack k x) ≡ stacked n stack
stacked-update zero k x stack h = refl
stacked-update (suc n) k x stack h =
    rw (ne→== n k (omega arith), stacked-update n k x stack (omega arith)) refl

stacked-push :
    (m n x : ℕ) (stack : ℕ → ℕ) → m ≡ suc n → stacked m (update stack n x) ≡ x ∷ stacked n stack
stacked-push m n x stack e =
    rw e (rw (eq→== n n refl, stacked-update n n x stack (omega arith)) refl)

pool_alloc-next :
    (n : ℕ) (p : Pool)
    → p.current ≡ n
    → n < 2 ^ 31
    → ((pool_alloc p).0 ≡ next_of (stacked n p.stack))
      × (available (pool_alloc p).1 ≡ rest_of (stacked n p.stack))
unfolding pool_alloc
pool_alloc-next zero p e h = rw e (refl, refl)
pool_alloc-next (suc n) p e h =
    let some_left : slt 0 p.current ≡ true = ground arith in
    let lower : p.current - 1 ≡ n = omega arith in rw (some_left, lower) (refl, refl)

-- A pool that is not over its count, of fewer than 2 ^ 31 objects, is a stack: `pool_alloc` takes
-- the free object in front, or gives 0 if there is none, and `pool_free` puts an object in front
-- unless the pool is full.
pub pool_alloc-pool_free-stack :
    (p : Pool) (x : ℕ)
    → p.current ≤ p.count
    → p.count < 2 ^ 31
    → ((pool_alloc p).0 ≡ next_of (available p))
      × (available (pool_alloc p).1 ≡ rest_of (available p))
      × (available (pool_free p x)
          ≡ (if p.current == p.count then available p else x ∷ available p))
unfolding pool_free
pool_alloc-pool_free-stack p x h small =
    let (object, left) = pool_alloc-next p.current p refl (omega arith) in
    (
      object,
      left,
      elim (Bool-cases (p.current == p.count)) [
        | inl full ↦
            let no_room : slt p.current p.count ≡ false = ground arith in rw (full, no_room) refl
        | inr more ↦
            let room : slt p.current p.count ≡ true = ground arith in
            rw (more, room) (stacked-push (p.current + 1) p.current x p.stack (omega arith))
      ],
    )

next_place : (tmp size i : ℕ) → u32 (u32 (tmp + size) + size * i) ≡ u32 (tmp + size * suc i)
next_place tmp size i = omega (arith, mul-suc size i)

-- `k` objects from `tmp` on are put on the stack of `p`, the first one lowest.
record IsFilled (k size tmp : ℕ) (p q : Pool) : Type 0 where
  current : q.current ≡ p.current + k
  below : (i : ℕ) → i < p.current → q.stack i ≡ p.stack i
  above : (i j : ℕ) → i < k → j ≡ p.current + i → q.stack j ≡ u32 (tmp + size * i)
  count : q.count ≡ p.count
  list : q.list ≡ p.list
  size_ : q.size ≡ p.size

free_all-IsFilled :
    (k size tmp : ℕ) (p : Pool)
    → p.count < 2 ^ 31
    → p.current + k ≤ p.count
    → tmp < 2 ^ 32
    → IsFilled k size tmp p (free_all k size tmp p)
unfolding free_all pool_free
free_all-IsFilled zero size tmp p small room w = record {
  current = omega arith;
  below = λ i h. refl;
  above = λ i j h e. absurd (omega arith);
  count = refl;
  list = refl;
  size_ = refl;
}
free_all-IsFilled (suc k) size tmp p small room w =
    let has_room : slt p.current p.count ≡ true = ground arith in
    let rest =
      free_all-IsFilled k size (u32 (tmp + size)) (pushed p tmp) small (omega arith)
        (omega arith) in
    rw (has_room, free_all) (after p rest w)
  where
    pushed : Pool → ℕ → Pool
    pushed p x = record p { stack = update p.stack p.current x; current = p.current + 1 }

    after :
        {q : Pool} (p : Pool)
        → IsFilled k size (u32 (tmp + size)) (pushed p tmp) q
        → tmp < 2 ^ 32
        → IsFilled (suc k) size tmp p q
    after {q} p rest w = record {
      current = omega (arith, rest.current);
      below = λ i h. rest.below i (omega arith) ∙ rw (ne→== i p.current (omega arith)) refl;
      above = at_place;
      count = rest.count;
      list = rest.list;
      size_ = rest.size_;
    }
      where
        at_place : (i j : ℕ) → i < suc k → j ≡ p.current + i → q.stack j ≡ u32 (tmp + size * i)
        at_place zero j h e =
            rest.below j (omega arith) ∙ rw (eq→== j p.current (omega arith)) (omega arith)
        at_place (suc i) j h e = rest.above i j (omega arith) (omega arith) ∙ next_place tmp size i

-- A pool that `pool_init` has set up is full, and its stack holds the objects of `pool_get_raw`, the
-- first one lowest.
pub pool_init-full :
    (malloc : ℕ → ℕ) (p : Pool) (item_size item_count i : ℕ)
    → rounded_count item_count < 2 ^ 31
    → malloc (pool_bytes (rounded_size item_size) (rounded_count item_count)) ≢ 0
    → i < rounded_count item_count
    → ((pool_init malloc p item_size item_count).0 ≡ true)
      × ((pool_init malloc p item_size item_count).1.current
          ≡ (pool_init malloc p item_size item_count).1.count)
      × ((pool_init malloc p item_size item_count).1.count ≡ rounded_count item_count)
      × ((pool_init malloc p item_size item_count).1.stack i
          ≡ pool_get_raw (pool_init malloc p item_size item_count).1 i)
unfolding pool_init pool_get_raw
pool_init-full malloc p item_size item_count i small given h =
    let count = rounded_count item_count in
    let size = rounded_size item_size in
    let list = malloc (pool_bytes size count) in
    let empty = record p { count = count; size = size; current = 0; list = list } in
    let filled =
      free_all-IsFilled count size (first_object list count) empty small (omega arith)
        (omega arith) in
    let inside : slt i count ≡ true = ground arith in
    let positive : slt i 0 ≡ false = ground arith in
    rw (ne→== list 0 given) (
      refl,
      filled.current ∙ omega arith ∙ sym filled.count,
      filled.count,
      filled.above i i h (omega arith)
          ∙ rw (filled.count, filled.list, filled.size_, inside, positive) refl,
    )

-- In a pool of 1 to 2 ^ 31 - 1 objects whose addresses do not wrap around, the last object ends 12
-- bytes for each object after the last of the bytes that `pool_init` asks `malloc` for.
pub pool_get_raw-oversteps :
    (p : Pool)
    → 0 < p.count
    → p.count < 2 ^ 31
    → p.list + 16 * p.count + p.size * p.count < 2 ^ 32
    → pool_get_raw p (p.count - 1) + p.size ≡ p.list + pool_bytes p.size p.count + 12 * p.count
unfolding pool_get_raw
pool_get_raw-oversteps p some_ small room =
    let inside : slt (p.count - 1) p.count ≡ true = ground arith in
    let positive : slt (p.count - 1) 0 ≡ false = ground arith in
    let last_one : p.size * p.count ≡ p.size * (p.count - 1) + p.size =
      product (p.count - 1) (omega arith) in
    rw (inside, positive) (omega (arith, last_one))
  where
    product : (m : ℕ) → p.count ≡ suc m → p.size * p.count ≡ p.size * m + p.size
    product m e = rw e (mul-suc p.size m)
