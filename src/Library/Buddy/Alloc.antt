-- ===== src/Library/Buddy/Alloc.antt =====
-- Setting up and allocating from a buddy allocator (library/mem/src/buddy.c). `malloc` tells whether
-- it gives a block of a number of bytes. The search of a free list takes fuel.
use sth.Base.{
  ℕ, zero, suc, ◌+◌, ◌-◌, ◌*◌, ◌^◌, bit_and, Bool, true, false, not, ◌&&◌, ◌||◌, Option, none, some,
  ltb, leb, ◌==◌, if◌then◌else◌, sub32, u32, not32, slt, ◌<<<◌, ◌>>>◌,
}
use sth.Library.Buddy.{Buddy, nil, get_next, buddy_free, buddy_allocate_subset}

-- `while(size > (1UL << ret)) ret++`; a shift by 32 has no value.
unfoldable pub order_from : (rounds size ret : ℕ) → Option ℕ
order_from zero size ret = none
order_from (suc rounds) size ret =
    let rest = order_from rounds size (ret + 1) in if ltb (2 ^ ret) size then rest else some ret

unfoldable pub buddy_get_order_from_size : Buddy → (size : ℕ) → Option ℕ
unfolding order_from
buddy_get_order_from_size b size = elim (order_from (32 - b.page_bits) size b.page_bits) [
  | none ↦ none
  | some ret ↦ some (ret - b.page_bits)
]

-- `for(i = order; i < buddy->order; i++)`
unfoldable pub contains_from : (rounds i : ℕ) (or_larger : Bool) → Buddy → Bool
contains_from zero i or_larger b = false
contains_from (suc rounds) i or_larger b =
    let rest = contains_from rounds (i + 1) or_larger b in
    if not (b.free i == nil) then true else if not or_larger then false else rest

unfoldable pub buddy_contains_order : Buddy → (order : ℕ) (or_larger : Bool) → Bool
unfolding contains_from
buddy_contains_order b order or_larger =
    if slt order 0 || not (slt order b.order)
    then false
    else contains_from (b.order - order) order or_larger b

abbrev pub buddy_belongs_to : Buddy → (adr : ℕ) → Bool
buddy_belongs_to b adr = ltb (sub32 adr b.base >>> b.page_bits) b.index_max

-- `while( size > (1UL << buddy->order) ) buddy->order++`, and one more.
abbrev pub orders : (size : ℕ) → Option ℕ
orders size = elim (order_from 32 size 0) [ none ↦ none | some order ↦ some (order + 1) ]

-- `memset` and the empty free lists.
abbrev pub emptied : Buddy → Buddy
emptied b = record b {
  next = λ i. if ltb i b.index_max then 0 else b.next i;
  prev = λ i. if ltb i b.index_max then 0 else b.prev i;
  free = λ i. if ltb i b.order then nil else b.free i;
}

-- The pages between `first_free` and `last_free`, where 0 is no bound, are freed.
unfoldable pub free_pages : (rounds i first_free last_free : ℕ) → Buddy → Buddy
free_pages zero i first_free last_free b = b
free_pages (suc rounds) i first_free last_free b =
    let adr = u32 (b.base + (i <<< b.page_bits)) in
    let usable = (first_free == 0 || leb first_free adr) && (last_free == 0 || ltb adr last_free) in
    free_pages rounds (i + 1) first_free last_free (if usable then (buddy_free b adr).1 else b)

-- The last part of `buddy_init`, when the block for `size` pages is there.
abbrev pub with_pages : (size page_mask first_free last_free : ℕ) → Buddy → Buddy
with_pages size page_mask first_free last_free b =
    free_pages size 0 (bit_and (u32 (first_free + page_mask)) (not32 page_mask))
      (bit_and last_free (not32 page_mask)) (emptied b)

-- What is left of `buddy_init` when the arguments are sane.
abbrev pub init_orders :
    (malloc : ℕ → Bool) → Buddy → (page_mask first_free last_free : ℕ) → Option (Bool × Buddy)
unfolding order_from free_pages
init_orders malloc b page_mask first_free last_free = elim (orders b.index_max) [
  | none ↦ none
  | some order ↦
      let ordered = record b { order = order } in
      if malloc (u32 (b.index_max * 8))
      then some (true, with_pages b.index_max page_mask first_free last_free ordered)
      else some (false, ordered)
]

-- It has no value where a shift has none.
unfoldable pub buddy_init :
    (malloc : ℕ → Bool)
    → Buddy
    → (base size page_bits first_free last_free : ℕ) → Option (Bool × Buddy)
buddy_init malloc b base size page_bits first_free last_free =
    let page_mask = sub32 (2 ^ page_bits) 1 in
    let named = record b { base = base; page_bits = page_bits; index_max = size >>> page_bits } in
    if leb 32 page_bits
    then none
    else if not (bit_and base page_mask == 0)
    then some (false, b)
    else if slt page_bits 5 || slt 24 page_bits || ltb (size >>> page_bits) 1
    then some (false, named)
    else init_orders malloc named page_mask first_free last_free

-- `for(i = order; i < buddy->order; i++)`: the order of the first free list with a block.
unfoldable pub first_order : (rounds i : ℕ) → Buddy → Option ℕ
first_order zero i b = none
first_order (suc rounds) i b =
    let rest = first_order rounds (i + 1) b in if b.free i == nil then rest else some i

-- The address, if a block is allocated, and the allocator.
unfoldable pub buddy_alloc : Buddy → (order : ℕ) → Option ℕ × Buddy
unfolding first_order
buddy_alloc b order = elim (first_order (b.order - order) order b) [
  | none ↦ (none, b)
  | some i ↦ (
    some (u32 (b.base + (b.free i <<< b.page_bits))),
    buddy_allocate_subset b (b.free i) i (b.free i) order,
  )
]

-- `for(;;)` over a free list of order `i`: the index of a block around the pages from `adr1` to
-- `end1`, if there is one.
unfoldable pub find_around : (fuel index i adr1 end1 : ℕ) → Buddy → Option (Option ℕ)
find_around zero index i adr1 end1 b = none
find_around (suc fuel) index i adr1 end1 b =
    let rest = find_around fuel (get_next b index) i adr1 end1 b in
    if leb index adr1 && ltb end1 (u32 (index + 2 ^ i))
    then some (some index)
    else if index == get_next b index
    then some none
    else rest

-- The orders from `i` on: the order and the block that are taken.
unfoldable pub find_order : (fuel rounds i adr1 end1 : ℕ) → Buddy → Option (Option (ℕ × ℕ))
unfolding find_around
find_order fuel zero i adr1 end1 b = some none
find_order fuel (suc rounds) i adr1 end1 b =
    let rest = find_order fuel rounds (i + 1) adr1 end1 b in
    if b.free i == nil then rest else elim (find_around fuel (b.free i) i adr1 end1 b) [
      | none ↦ none
      | some found ↦ elim found [ none ↦ rest | some index ↦ some (some (i, index)) ]
    ]

abbrev take_around : (adr1 order : ℕ) → Buddy → Option (Option (ℕ × ℕ)) → Option (Option ℕ × Buddy)
take_around adr1 order b none = none
take_around adr1 order b (some none) = some (none, b)
take_around adr1 order b (some (some (i, index))) =
    some (some (u32 (b.base + (adr1 <<< b.page_bits))), buddy_allocate_subset b index i adr1 order)

unfoldable pub buddy_alloc_at : (fuel : ℕ) → Buddy → (adr order : ℕ) → Option (Option ℕ × Buddy)
unfolding find_order
buddy_alloc_at fuel b adr order =
    let offset = sub32 adr b.base in
    let adr1 = offset >>> b.page_bits in
    let end1 = sub32 (u32 (adr1 + 2 ^ order)) 1 in
    let size = 2 ^ (order + b.page_bits) in
    if not (bit_and offset (sub32 size 1) == 0)
    then some (none, b)
    else take_around adr1 order b (find_order fuel (b.order - order) order adr1 end1 b)
