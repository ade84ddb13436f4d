-- ===== src/Library/Pool.antt =====
-- Object pools (library/util/src/pool.c): a stack of addresses. `malloc` gives the address of a new
-- block, or 0; `stack` is the array of pointers at its beginning.
pub mod Laws
use sth.Base.{
  ℕ, zero, suc, ◌+◌, ◌-◌, ◌*◌, bit_and, Bool, true, false, not, ◌||◌, ltb, ◌==◌, if◌then◌else◌,
  update, slt, u32, not32,
}

pub record Pool : Type 0 where
  pub count : ℕ
  pub current : ℕ
  pub size : ℕ
  pub list : ℕ
  pub stack : ℕ → ℕ

-- LIST_MIN_ITEM_SIZE
abbrev pub min_item_size : ℕ
min_item_size = 8

abbrev pub pool_align : ℕ
pool_align = 8

unfoldable pub pool_free : Pool → (x : ℕ) → Pool
pool_free ctxt x =
    if slt ctxt.current ctxt.count
    then record ctxt { stack = update ctxt.stack ctxt.current x; current = ctxt.current + 1 }
    else ctxt

-- `(void *) (ctxt->list + sizeof(void *) * count)`: the sum counts pointers, of 4 bytes each.
abbrev pub first_object : (list count : ℕ) → ℕ
first_object list count = u32 (list + 4 * (4 * count))

-- `while(item_count--)`
unfoldable pub free_all : (item_count item_size tmp : ℕ) → Pool → Pool
free_all zero item_size tmp ctxt = ctxt
free_all (suc item_count) item_size tmp ctxt =
    free_all item_count item_size (u32 (tmp + item_size)) (pool_free ctxt tmp)

abbrev pub rounded_size : ℕ → ℕ
rounded_size item_size =
    let at_least = if slt item_size min_item_size then min_item_size else item_size in
    bit_and (u32 (at_least + pool_align - 1)) (not32 (pool_align - 1))

abbrev pub rounded_count : ℕ → ℕ
rounded_count item_count = if slt item_count 2 then 2 else item_count

-- The number of bytes that `pool_init` asks for.
abbrev pub pool_bytes : (item_size item_count : ℕ) → ℕ
pool_bytes item_size item_count = u32 (item_size * item_count + 4 * item_count)

unfoldable pub pool_init : (malloc : ℕ → ℕ) → Pool → (item_size item_count : ℕ) → Bool × Pool
pool_init malloc ctxt item_size item_count =
    let size = rounded_size item_size in
    let count = rounded_count item_count in
    let list = malloc (pool_bytes size count) in
    let empty = record ctxt { count = count; size = size; current = 0; list = list } in
    if list == 0
    then (false, empty)
    else (true, free_all count size (first_object list count) empty)

abbrev pub pool_cleanup : Pool → Pool
pool_cleanup ctxt = record ctxt { list = 0 }

unfoldable pub pool_alloc : Pool → ℕ × Pool
pool_alloc ctxt =
    if slt 0 ctxt.current
    then (ctxt.stack (ctxt.current - 1), record ctxt { current = ctxt.current - 1 })
    else (0, ctxt)

unfoldable pub pool_get_raw : Pool → (index : ℕ) → ℕ
pool_get_raw ctxt index =
    if slt index 0 || not (slt index ctxt.count)
    then 0
    else u32 (first_object ctxt.list ctxt.count + ctxt.size * index)
