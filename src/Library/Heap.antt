-- ===== src/Library/Heap.antt =====
-- The heap allocator (library/mem/src/heap.c): blocks follow each other in memory, and each begins
-- with a marker of two words, `size` with two flags and `size_prev`. `mark + k` is `k` markers of 8
-- bytes further. The search for a block takes fuel.
pub mod BestFit
pub mod Blocks
pub mod Chain
pub mod Cut
pub mod Record
pub mod Join
pub mod Release
pub mod Checks
pub mod Free
pub mod Owned
pub mod Coalesced
pub mod Extent
pub mod Runs
pub mod Held
pub mod Services
pub mod Alloc
pub mod Laws
use sth.Base.{
  ℕ, zero, suc, ◌+◌, ◌*◌, ◌/◌, bit_and, bit_or, Bool, true, false, not, ◌&&◌, ◌||◌, ltb, leb, ◌==◌,
  if◌then◌else◌, sub32, u32, not32, slt, update,
}
use sth.Library.Words.{Words, Cmd, ◌>>=◌, ◌>>◌, pure, out_of_fuel, get, put}

pub record Heap : Type 0 where
  pub size : ℕ
  pub memory : ℕ

abbrev pub mask_taken : ℕ
mask_taken = 1

abbrev pub mask_last : ℕ
mask_last = 2

abbrev pub mask_flags : ℕ
mask_flags = 3

abbrev pub mask_size : ℕ
mask_size = not32 mask_flags

-- `mark->size & HEAP_MASK_SIZE`
abbrev pub size_of : ℕ → ℕ
size_of w = bit_and w mask_size

abbrev pub is_taken : ℕ → Bool
is_taken w = not (bit_and w mask_taken == 0)

unfoldable pub heap_marker_prev : Heap → (mark : ℕ) → Cmd ℕ
heap_marker_prev heap mark = do
  size_prev ← get (mark + 4)
  let ret = sub32 mark (u32 (8 + 8 * (size_prev / 8))) in
      pure (if ltb ret heap.memory then 0 else ret)

unfoldable pub heap_marker_next : (mark : ℕ) → Cmd ℕ
heap_marker_next mark = do
  size ← get mark
  pure (if not (bit_and size mask_last == 0) then 0 else u32 (mark + 8 + 8 * (size_of size / 8)))

-- `if(next) next->size_prev = mark->size & HEAP_MASK_SIZE`, with `next` the one after `mark`.
abbrev record_size : (mark : ℕ) → Cmd (Unit {0})
record_size mark = do
  next ← heap_marker_next mark
  size ← get mark
  if next == 0 then pure tt else put (next + 4) (size_of size)

abbrev join : (m1 m2 size1 size2 : ℕ) → Cmd (Unit {0})
join m1 m2 size1 size2 = do
  put m1 (bit_or (u32 (size1 + (size_of size2 + 8))) (bit_and size2 mask_last))
  record_size m1
  put (m2 + 4) 0xffff_ffff
  put m2 0xffff_ffff

unfoldable pub heap_marker_join : (m1 m2 : ℕ) → Cmd (Unit {0})
unfolding heap_marker_next
heap_marker_join m1 m2 = do
  next ← heap_marker_next m1
  size1 ← get m1
  size2 ← get m2
  if not (m2 == next) || is_taken (bit_or size1 size2) then pure tt else join m1 m2 size1 size2

-- `SIZE_MIN` is the size of a marker, and the comparison with it is one of words.
unfoldable pub heap_marker_split : (mark size : ℕ) → Cmd ℕ
unfolding heap_marker_next
heap_marker_split mark size = do
  word ← get mark
  let tmp = u32 (size + 8 + mark) in
      let remain = sub32 (size_of word) size in
      if ltb 8 remain
      then (do
        put tmp (bit_or (sub32 remain 8) (bit_and word mask_flags))
        put mark (bit_or size (bit_and word mask_taken))
        put (tmp + 4) size
        record_size tmp
        pure tmp)
      else pure 0

-- `size &= ~7`
unfoldable pub heap_init : (size memory : ℕ) → Words → Heap × Words
heap_init size memory mem =
    let whole = bit_and size (not32 7) in
    (
      record { size = whole; memory = memory },
      update (update mem memory (bit_or (sub32 whole 8) mask_last)) (memory + 4) 0,
    )

-- Whether the block with the word `me` is a better match than `best`, whose word is `word`.
abbrev pub is_better : (size me best word : ℕ) → Bool
is_better size me best word =
    not (is_taken me) && leb size (size_of me) && (best == 0 || ltb (size_of me) (size_of word))

-- `while(tmp)`
unfoldable pub find_best : (fuel size tmp best : ℕ) → Cmd ℕ
unfolding heap_marker_next
find_best zero size tmp best = out_of_fuel
find_best (suc fuel) size tmp best = if tmp == 0 then pure best else (do
  me ← get tmp
  word ← get best
  next ← heap_marker_next tmp
  find_best fuel size next (if is_better size me best word then tmp else best))

abbrev pub rounded : ℕ → ℕ
rounded size = bit_and (u32 (size + 7)) (not32 7)

abbrev take : (best size : ℕ) → Cmd ℕ
take best size = do
  heap_marker_split best size
  word ← get best
  put best (bit_or word mask_taken)
  pure (u32 (best + 8))

abbrev alloc_rounded : (fuel : ℕ) → Heap → (size : ℕ) → Cmd ℕ
alloc_rounded fuel heap size = do
  best ← find_best fuel size heap.memory 0
  if best == 0 then pure 0 else take best size

unfoldable pub heap_alloc : (fuel : ℕ) → Heap → (size : ℕ) → Cmd ℕ
unfolding find_best heap_marker_split
heap_alloc fuel heap size = if slt 0 size then alloc_rounded fuel heap (rounded size) else pure 0

-- A marker that is not null and does not record the size of the block before it.
abbrev is_damaged : (before size_prev size : ℕ) → Bool
is_damaged mark size_prev size = not (mark == 0) && not (size_prev == size_of size)

-- The checks of `heap_free` on the markers before, at and after the block.
abbrev is_refused : (prev next size_prev before recorded word : ℕ) → Bool
is_refused prev next size_prev before recorded word =
    is_damaged prev size_prev before || is_damaged next recorded word || not (is_taken word)

-- What `heap_free` does with a block that passes its checks.
abbrev release : (tmp prev next : ℕ) → Cmd Bool
release tmp prev next = do
  word ← get tmp
  put tmp (bit_and word (not32 mask_taken))
  before ← get prev
  let joins = not (prev == 0) && not (is_taken before) in
      let first = if joins then prev else tmp in
      (do
        if joins then heap_marker_join prev tmp else pure tt
        after ← get next
        if not (next == 0) && not (is_taken after) then heap_marker_join first next else pure tt
        pure true)

abbrev free_marker : Heap → (tmp : ℕ) → Cmd Bool
free_marker heap tmp = do
  prev ← heap_marker_prev heap tmp
  next ← heap_marker_next tmp
  word ← get tmp
  size_prev ← get (tmp + 4)
  before ← get prev
  recorded ← get (next + 4)
  if is_refused prev next size_prev before recorded word then pure false else release tmp prev next

-- `heap->memory + heap->size` is a sum of markers.
unfoldable pub heap_free : Heap → (adr : ℕ) → Cmd Bool
unfolding heap_marker_prev heap_marker_next heap_marker_join
heap_free heap adr =
    let tmp = sub32 adr 8 in
    if ltb tmp heap.memory || leb (u32 (heap.memory + 8 * heap.size)) tmp
    then pure false
    else free_marker heap tmp
