-- ===== src/Library/Buddy.antt =====
-- The buddy allocator (library/mem/src/buddy.c). `next` and `prev` are the words of the blocks, and a
-- free list without a block holds -1 as a word. The loops over a free list take fuel.
pub mod Alloc
pub mod Orders
pub mod Free
use sth.Base.{
  ℕ, zero, suc, ◌+◌, ◌-◌, ◌*◌, ◌^◌, bit_and, bit_or, bit_xor, Bool, true, false, not, ◌&&◌, ◌||◌,
  Option, none, some, ltb, leb, ◌==◌, if◌then◌else◌, sub32, u32, not32, slt, update, ◌<<<◌, ◌>>>◌,
}

pub record Buddy : Type 0 where
  pub base : ℕ
  pub index_max : ℕ
  pub page_bits : ℕ
  pub order : ℕ
  pub next : ℕ → ℕ
  pub prev : ℕ → ℕ
  pub free : ℕ → ℕ

abbrev pub flag_free : ℕ
flag_free = 0x8000_0000

abbrev pub mask_next : ℕ
mask_next = 0x0fff_ffff

abbrev pub mask_order : ℕ
mask_order = 0xf800_0000

abbrev pub mask_prev : ℕ
mask_prev = 0x07ff_ffff

-- -1
abbrev pub nil : ℕ
nil = 0xffff_ffff

abbrev pub get_next : Buddy → ℕ → ℕ
get_next b i = bit_and (b.next i) mask_next

abbrev pub is_free : Buddy → ℕ → Bool
is_free b i = not (bit_and (b.next i) flag_free == 0)

abbrev pub get_prev : Buddy → ℕ → ℕ
get_prev b i = bit_and (b.prev i) mask_prev

abbrev pub get_order : Buddy → ℕ → ℕ
get_order b i = b.prev i >>> 27

-- `block->prev = (block->prev & MASK_ORDER) | index`, and the same for `next`.
abbrev set_prev : Buddy → (block index : ℕ) → Buddy
set_prev b block index = record b {
  prev = update b.prev block (bit_or (bit_and (b.prev block) mask_order) index);
}

abbrev set_next : Buddy → (block index : ℕ) → Buddy
set_next b block index = record b {
  next = update b.next block (bit_or (bit_and (b.next block) mask_order) index);
}

abbrev set_free : Buddy → (order index : ℕ) → Buddy
set_free b order index = record b { free = update b.free order index }

unfoldable pub buddy_add_free : Buddy → (index order : ℕ) → Buddy
buddy_add_free b index order =
    let first = b.free order in
    let linked = if first == nil then b else set_prev b first index in
    record linked {
      next = update linked.next index (bit_or flag_free (if first == nil then index else first));
      prev = update linked.prev index (bit_or (order <<< 27) index);
      free = update linked.free order index;
    }

unfoldable pub buddy_remove_free : Buddy → (index order : ℕ) → Buddy
buddy_remove_free b index order =
    let index_next = get_next b index in
    let index_prev = get_prev b index in
    if index_prev == index
    then if index_next == index
      then set_free b order nil
      else set_prev (set_free b order index_next) index_next index_next
    else if index_next == index
    then set_next b index_prev index_prev
    else set_next (set_prev b index_next index_prev) index_prev index_next

-- Whether the block at `index_buddy` can be joined with a block of order `i`.
abbrev is_joinable : Buddy → (index_buddy i : ℕ) → Bool
is_joinable b index_buddy i =
    ltb index_buddy b.index_max && is_free b index_buddy && (get_order b index_buddy == i)

-- The loop of `buddy_free`, with `rounds` orders left: the order and the block at its end.
unfoldable pub join_buddies : (rounds i index : ℕ) → Buddy → ℕ × ℕ × Buddy
unfolding buddy_remove_free
join_buddies zero i index b = (i, index, b)
join_buddies (suc rounds) i index b =
    let index_buddy = bit_xor index (1 <<< i) in
    let lower = if ltb index_buddy index then index_buddy else index in
    let rest = join_buddies rounds (i + 1) lower (buddy_remove_free b index_buddy i) in
    if is_joinable b index_buddy i then rest else (i, index, b)

abbrev add_joined : ℕ × ℕ × Buddy → Buddy
add_joined (i, index, b) = buddy_add_free b index i

unfoldable pub buddy_free : Buddy → (adr : ℕ) → Bool × Buddy
unfolding join_buddies buddy_add_free
buddy_free b adr =
    let index = sub32 adr b.base >>> b.page_bits in
    let order = get_order b index in
    if ltb index b.index_max && not (is_free b index)
    then (true, add_joined (join_buddies (b.order - 1 - order) order index b))
    else (false, b)

abbrev clear : Buddy → ℕ → Buddy
clear b i = record b { next = update b.next i 0; prev = update b.prev i 0 }

-- The index after `i`; the block at `index2`, of order `order2`, is passed over.
abbrev index_after : (i index1 index2 order2 : ℕ) → ℕ
index_after i index1 index2 order2 = if index1 + i == index2 then i + 2 ^ order2 else i + 1

-- Both loops of `buddy_allocate_subset`; a round for each page is enough.
unfoldable pub clear_from : (rounds i index1 order1 index2 order2 : ℕ) → Buddy → Buddy
clear_from zero i index1 order1 index2 order2 b = b
clear_from (suc rounds) i index1 order1 index2 order2 b =
    let rest =
      clear_from rounds (index_after i index1 index2 order2) index1 order1 index2 order2
        (clear b (index1 + i)) in
    if ltb i (2 ^ order1) then rest else b

unfoldable pub free_from : (rounds i index1 order1 index2 order2 : ℕ) → Buddy → Buddy
unfolding buddy_free
free_from zero i index1 order1 index2 order2 b = b
free_from (suc rounds) i index1 order1 index2 order2 b =
    let taken = record b { prev = update b.prev (index1 + i) (order2 <<< 27) } in
    let freed = (buddy_free b (u32 (b.base + ((index1 + i) <<< b.page_bits)))).1 in
    let rest =
      free_from rounds (index_after i index1 index2 order2) index1 order1 index2 order2
        (if index1 + i == index2 then taken else freed) in
    if ltb i (2 ^ order1) then rest else b

unfoldable pub buddy_allocate_subset : Buddy → (index1 order1 index2 order2 : ℕ) → Buddy
unfolding buddy_remove_free clear_from free_from
buddy_allocate_subset b index1 order1 index2 order2 =
    let removed = buddy_remove_free b index1 order1 in
    let cleared = clear_from (2 ^ order1) 0 index1 order1 index2 order2 removed in
    free_from (2 ^ order1) 0 index1 order1 index2 order2 cleared
