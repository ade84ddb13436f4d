-- ===== src/Tests/Library.antt =====
-- The theorems on the libraries applied to concrete structures.
use sth.Base.{
  u32, ℕ, zero, suc, ◌+◌, ◌-◌, ◌%◌, ◌≤◌, ◌<◌, ◌≡◌, ◌≢◌, ◌⊎◌, refl, arith, true, Option, none, some,
  List, [], ◌∷◌, ◌==◌, if◌then◌else◌, length,
}
use sth.Library.Words.{Words}
use sth.Library.Print.{printf_int}
use sth.Library.Print.Numbers.{printf_int-signed, signed, unsigned, AllDigits}
use sth.Library.LinkedList.{list_add, list_remove}
use sth.Library.LinkedList.Chain.{IsApart}
use sth.Library.LinkedList.Laws.{IsRing, list_remove-deletes}
use sth.Library.LinkedList.Walk.{list_add-inserts, member}
use sth.Library.ObjectList.{ObjectList, olist_item_push}
use sth.Library.ObjectList.Laws.{IsPushed, olist_item_push-IsPushed}
use sth.Library.Pool.{Pool, pool_init, free_all, pool_alloc, pool_free, pool_get_raw}
use sth.Library.Pool.Laws.{available, pool_alloc-pool_free-stack, pool_get_raw-oversteps}
use sth.Library.Slab.{Slab, slab_init, slab_alloc, slab_cleanup}
use sth.Library.Slab.Cache.{
  World, constructor_of, destructor_of, destruct_all, objects, Reached, started, allocated,
}
use sth.Library.Slab.Laws.{slab_alloc-constructs, slab_cleanup-destructs}
use sth.Library.Bitset.{Bitset, bitset_get, bitset_set}
use sth.Library.Bitset.Laws.{bitset_get-set}
use sth.Library.Heap.{Heap, heap_alloc, is_taken, size_of}
use sth.Library.Heap.BestFit.{fits}
use sth.Library.Heap.Laws.{heap_alloc-best_fit}

printf_int-signed_example :
    (s : List ℕ) × (printf_int 0xffff_fff6 ≡ some s)
    × AllDigits (unsigned s)
    × (length (unsigned s) ≤ 10)
    × (signed s ≡ 0xffff_fff6)
printf_int-signed_example = printf_int-signed 0xffff_fff6 (omega arith) (omega arith)

abbrev Aligned : ℕ → Type 0
Aligned a = a % 8 ≡ 0

Aligned-apart : IsApart Aligned
Aligned-apart a b ia ib e = omega arith

-- A list at 0x100 of the items at 0x200 and 0x300.
abbrev linked : Words
linked a =
    if a == 0x100
    then 0x200
    else if a == 0x104
    then 0x300
    else if a == 0x200
    then 0x300
    else if a == 0x204
    then 0x100
    else if a == 0x300
    then 0x100
    else if a == 0x304
    then 0x200
    else 0

linked-IsRing : IsRing Aligned linked 0x100 (0x200 ∷ 0x300 ∷ [])
linked-IsRing = record {
  items = (refl, (refl, (refl, tt)));
  distinct = (
    ((λ e. omega (arith, e)), ((λ e. omega (arith, e)), tt)),
    (((λ e. omega (arith, e)), tt), (tt, tt)),
  );
  chain = (refl, refl, (refl, refl, (refl, refl)));
}

list_remove-deletes_example :
    (mem' : Words) × (list_remove 0x300 linked ≡ some (tt, mem'))
    × IsRing Aligned mem' 0x100 (0x200 ∷ [])
    × IsRing Aligned mem' 0x300 []
list_remove-deletes_example =
    list_remove-deletes Aligned Aligned-apart linked 0x100 0x300 (0x200 ∷ []) [] linked-IsRing

list_add-inserts_example :
    (mem' : Words) × (list_add 3 0x100 0x400 linked ≡ some (tt, mem'))
    × IsRing Aligned mem' 0x100 (0x400 ∷ 0x200 ∷ 0x300 ∷ [])
list_add-inserts_example =
    list_add-inserts Aligned linked 0x100 (0x200 ∷ 0x300 ∷ []) 3 0x400 Aligned-apart linked-IsRing
      refl (omega arith) (omega arith)

abbrev some_objects : ObjectList
some_objects = record { curr = 1; size = 24; list = some (λ i. 0x40) }

abbrev no_memory : ℕ → Option (ℕ → ℕ)
no_memory size = none

olist_item_push-IsPushed_example :
    IsPushed some_objects 0x80 1 (olist_item_push no_memory some_objects 0x80)
    × ((olist_item_push no_memory some_objects 0x80).0 ≡ true)
olist_item_push-IsPushed_example =
    olist_item_push-IsPushed no_memory some_objects 0x80 1 (omega arith) (omega arith) (omega arith)

abbrev small_pool : Pool
small_pool = record { count = 2; current = 1; size = 8; list = 0x1000; stack = λ i. 0x1020 }

pool_alloc-pool_free-stack_example :
    ((pool_alloc small_pool).0 ≡ 0x1020)
    × (available (pool_alloc small_pool).1 ≡ [])
    × (available (pool_free small_pool 0x1028) ≡ 0x1028 ∷ 0x1020 ∷ [])
pool_alloc-pool_free-stack_example =
    pool_alloc-pool_free-stack small_pool 0x1028 (omega arith) (omega arith)

pool_get_raw-oversteps_example : pool_get_raw small_pool 1 + 8 ≡ 0x1000 + 24 + 24
pool_get_raw-oversteps_example =
    pool_get_raw-oversteps small_pool (omega arith) (omega arith) (omega arith)

-- A constructor and a destructor that count their calls.
abbrev counted : ℕ → ℕ → ℕ
counted x v = v + 1

abbrev Cached : Type 0
Cached = World ℕ counted counted

abbrev block : ℕ → ℕ
block size = 0x1000

abbrev unset : Slab Cached
unset = record {
  const_bottom = 0;
  pool = record { count = 0; current = 0; size = 0; list = 0; stack = λ i. 0 };
  constructor_ = none;
  destructor_ = none;
}

abbrev cache : Slab Cached
cache =
    (slab_init Cached block unset 8 2 (some (constructor_of ℕ counted counted))
      (some (destructor_of ℕ counted counted))).1

cache-Reached : Reached ℕ counted counted cache ([], 0)
unfolding pool_init pool_get_raw free_all pool_free
cache-Reached = started block unset 8 2 0 (ground arith) (ground arith) nowhere
  where
    nowhere : (i : ℕ) → i < 2 → pool_get_raw (pool_init block (unset.pool) 8 2).1 i ≢ 0
    nowhere zero h = λ e. omega (arith, e)
    nowhere (suc zero) h = λ e. omega (arith, e)
    nowhere (suc (suc i)) h = absurd (omega arith)

abbrev served : ℕ × Slab Cached × Cached
served = slab_alloc Cached cache ([], 0)

slab_alloc-constructs_example :
    (unused : ℕ) × ([] ≡ objects cache.pool (cache.pool.count - unused) unused)
    × ((served.0 ≡ 0) ⊎ (member served.0 served.2.0 ≡ true))
slab_alloc-constructs_example = slab_alloc-constructs ℕ counted counted cache ([], 0) cache-Reached

abbrev bits : Bitset
bits = record { size = 64; data_ = λ i. 0 }

bitset_get-set_example : bitset_get (bitset_set (some bits) 33 true) 33 ≡ true
bitset_get-set_example = bitset_get-set bits 33 33 true (omega arith) (omega arith) (omega arith)

slab_cleanup-destructs_example :
    (slab_cleanup Cached served.1 served.2).1
    ≡ (served.2.0, destruct_all ℕ counted counted served.2.0 served.2.1)
slab_cleanup-destructs_example =
    slab_cleanup-destructs ℕ counted counted served.1 served.2
      (allocated cache ([], 0) cache-Reached)

-- A heap of 64 bytes at 0x1000 with one free block.
abbrev small_heap : Heap
small_heap = record { size = 64; memory = 0x1000 }

abbrev marked : Words
marked a = if a == 0x1000 then 58 else 0

heap_alloc-best_fit_example :
    (r : ℕ) × (mem' : Words) × (heap_alloc 2 small_heap 10 marked ≡ some (u32 (r + 8), mem'))
    × (member r (0x1000 ∷ []) ≡ true)
    × (fits 16 (marked r) ≡ true)
    × (size_of (marked r) ≤ 56)
    × (is_taken (mem' r) ≡ true)
heap_alloc-best_fit_example =
    heap_alloc-best_fit 2 small_heap 10 marked (0x1000 ∷ []) 0x1000
      (refl, (λ e. omega (arith, e)), refl) (omega arith) (omega arith) (omega arith) refl refl
