-- ===== src/Library/Heap/Runs.antt =====
-- The heap from `heap_init` on, as its callers use it.
use mathlib.Core.Path.{subst}
use sth.Base.{
  ℕ, suc, ◌+◌, ◌-◌, ◌*◌, ◌/◌, ◌%◌, ◌^◌, ◌≤◌, ◌<◌, ◌≡◌, ◌≢◌, refl, arith, Bool, true, false, not,
  ◌&&◌, ◌||◌, if◌then◌else◌, List, [], ◌∷◌, ◌++◌, ◌==◌, sym, ◌∙◌, ap, inl, inr, eq→==, ne→==, some,
  length, update, bit_and, bit_or, not32, sub32, bit_and_split, bit_and_mask, bit_and-zero,
}
use sth.Library.Words.{Words}
use sth.Library.LinkedList.Walk.{member}
use sth.Library.Heap.{Heap, heap_init, heap_alloc, heap_free, rounded, size_of, mask_last}
use sth.Library.Heap.Blocks.{Block, IsHeap, Span-end, bytes, or_flags}
use sth.Library.Heap.Cut.{cut}
use sth.Library.Heap.Alloc.{IsAllocated, heap_alloc-IsHeap}
use sth.Library.Heap.Release.{give_back}
use sth.Library.Heap.Free.{heap_free-IsHeap}
use sth.Library.Heap.Owned.{
  owned, owned-append, owned-cut, owned-give_back, owned-outside, owned-split,
}
use sth.Library.Heap.Extent.{Span-write}
use sth.Library.Heap.Coalesced.{Coalesced, give_back-Coalesced, cut-Coalesced}
use mathlib.Core.Option.{some-injective}
use sth.Library.Heap.Held.{without, AllDistinct, member-without, without-AllDistinct}

-- The memory of a heap and the addresses that its callers hold: `heap_init` comes first, and then
-- calls of `heap_alloc` and `heap_free` and writes into allocated blocks, in any order. The search of
-- `heap_alloc` has a round for each byte of the heap.
pub data Reached (heap : Heap) : Words → List ℕ → Type 0 where
  started :
      (size memory : ℕ) (mem mem' : Words)
      → 16 ≤ size
      → 8 ≤ memory
      → memory + 8 * size < 2 ^ 32
      → heap_init size memory mem ≡ (heap, mem')
      → Reached heap mem' []
  allocated :
      (mem mem' : Words) (held : List ℕ) (size r : ℕ)
      → Reached heap mem held
      → 0 < size
      → size < 2 ^ 31
      → heap_alloc (suc heap.size) heap size mem ≡ some (r, mem')
      → Reached heap mem' (if r == 0 then held else r ∷ held)
  given_back :
      (mem mem' : Words) (held : List ℕ) (r : ℕ) (done : Bool)
      → Reached heap mem held
      → member r held ≡ true
      → heap_free heap r mem ≡ some (done, mem')
      → Reached heap mem' (without r held)
  written :
      (mem : Words) (held : List ℕ) (r w v : ℕ)
      → Reached heap mem held
      → member r held ≡ true
      → r ≤ w
      → w < r + size_of (mem (r - 8))
      → Reached heap (update mem w v) held

-- Memory is a heap of blocks whose taken ones are held, and free blocks are apart.
pub record IsServed (heap : Heap) (mem : Words) (held : List ℕ) : Type 0 where
  pub blocks : List Block
  pub kept : IsHeap heap mem blocks
  pub owns : (a : ℕ) → member a held ≡ owned heap.memory blocks a
  pub distinct : AllDistinct held
  pub coalesced : Coalesced blocks

pub length-bytes : (bs : List Block) → 8 * length bs ≤ bytes bs
length-bytes [] = omega arith
length-bytes (b ∷ bs) = omega (arith, length-bytes bs)

started-IsServed :
    (heap : Heap) (size memory : ℕ) (mem mem' : Words)
    → 16 ≤ size
    → 8 ≤ memory
    → memory + 8 * size < 2 ^ 32
    → heap_init size memory mem ≡ (heap, mem')
    → IsServed heap mem' []
unfolding heap_init
started-IsServed heap size memory mem mem' enough low high e =
    let whole = bit_and size (not32 7) in
    let high_part = bit_and_mask 29 (size / 8) in
    let low_part = bit_and-zero (size % 8) in
    let parts : whole ≡ size / 8 * 8 =
      omega (arith, bit_and_split 3 size 0xffff_fff8, high_part, low_part) in
    let marker : memory ≢ memory + 4 = λ same. omega arith in
    let up : memory + 8 * whole < 2 ^ 32 = omega (arith, parts) in
    let start : memory + 8 + (whole - 8) ≡ memory + whole = omega (arith, parts) in
    let flagged : bit_or (sub32 whole 8) mask_last ≡ whole - 8 + 2 =
      ap (λ n. bit_or n mask_last) (omega (arith, parts))
      ∙ or_flags (whole - 8) 2 (omega (arith, parts)) (omega arith) in
    let first : Block = record { size = whole - 8; taken = false; last = true } in
    subst (λ z. IsServed z.0 z.1 []) e
      (record {
        blocks = first ∷ [];
        kept = record {
          end_size = whole - 8;
          span = (
            record { whole = omega (arith, parts); small = omega (arith, parts) },
            rw (ne→== memory (memory + 4) marker, eq→== memory memory refl) flagged,
            rw (eq→== (memory + 4) (memory + 4) refl) refl,
            (start, refl),
          );
          marked = refl;
          low = low;
          high = up;
        };
        owns = λ a. refl;
        distinct = tt;
        coalesced = (refl, tt);
      })

-- The address of a free block is not held.
owned-free :
    (p : ℕ) (xs : List Block) (b : Block) (ys : List Block)
    → b.taken ≡ false
    → owned p (xs ++ b ∷ ys) (p + bytes xs + 8) ≡ false
owned-free p xs b ys free =
    rw
      (
        owned-append p xs (b ∷ ys) (p + bytes xs + 8),
        owned-outside p xs (p + bytes xs + 8) (inr (omega arith)),
        free,
        owned-outside (p + bytes xs + 8 + b.size) ys (p + bytes xs + 8) (inl (omega arith)),
      )
      refl

or_swap : (z x y : Bool) → (z || (x || y)) ≡ (x || (z || y))
or_swap true true y = refl
or_swap true false y = refl
or_swap false x y = refl

new-IsServed :
    (heap : Heap) (mem mem' : Words) (held : List ℕ) (size r : ℕ) (inv : IsServed heap mem held)
    → IsAllocated heap size inv.blocks r mem'
    → IsServed heap mem' (r ∷ held)
new-IsServed heap mem mem' held size r inv new = record {
  blocks = new.before ++ (cut size new.block ++ new.behind);
  kept = new.kept;
  owns = λ a.
      ap (λ m. (r == a) || m)
        (inv.owns a
          ∙ ap (λ bs. owned heap.memory bs a) new.whole
          ∙ owned-append heap.memory new.before (new.block ∷ new.behind) a)
      ∙ or_swap (r == a) (owned heap.memory new.before a)
          (owned (heap.memory + bytes new.before) (new.block ∷ new.behind) a)
      ∙ ap (λ m. owned heap.memory new.before a || m)
          (ap (λ k. (k == a) || owned (heap.memory + bytes new.before) (new.block ∷ new.behind) a)
              new.place
            ∙ sym (
                owned-cut (heap.memory + bytes new.before) size new.block new.behind a new.free
                  new.room))
      ∙ sym (owned-append heap.memory new.before (cut size new.block ++ new.behind) a);
  distinct = (
    inv.owns r
        ∙ ap (λ bs. owned heap.memory bs r) new.whole
        ∙ ap (λ k. owned heap.memory (new.before ++ new.block ∷ new.behind) k) new.place
        ∙ owned-free heap.memory new.before new.block new.behind new.free,
    inv.distinct,
  );
  coalesced =
      cut-Coalesced size new.before new.block new.behind new.free
        (subst Coalesced new.whole inv.coalesced);
}

allocated-IsServed :
    (heap : Heap) (mem mem' : Words) (held : List ℕ) (size r : ℕ)
    → IsServed heap mem held
    → 0 < size
    → size < 2 ^ 31
    → heap_alloc (suc heap.size) heap size mem ≡ some (r, mem')
    → IsServed heap mem' (if r == 0 then held else r ∷ held)
allocated-IsServed heap mem mem' held size r inv positive small e =
    let end =
      Span-end mem heap.memory 0 inv.blocks (heap.memory + heap.size) inv.kept.end_size
        inv.kept.span in
    let (r', mem'', run, result) =
      heap_alloc-IsHeap (suc heap.size) heap size mem inv.blocks inv.kept
        (omega (arith, length-bytes inv.blocks, end)) positive small in
    let same : (r', mem'') ≡ (r, mem') = some-injective (r', mem'') (r, mem') (sym run ∙ e) in
    subst (λ z. IsServed heap z.1 (if z.0 == 0 then held else z.0 ∷ held)) same
      (elim result [
        | inl (none_, unchanged, full) ↦ rw (none_, unchanged) inv
        | inr new ↦
            let there : (r' == 0) ≡ false = ne→== r' 0 (omega (arith, new.place)) in
            rw there (new-IsServed heap mem mem'' held (rounded size) r' inv new)
      ])

given_back-IsServed :
    (heap : Heap) (mem mem' : Words) (held : List ℕ) (r : ℕ) (done : Bool)
    → IsServed heap mem held
    → member r held ≡ true
    → heap_free heap r mem ≡ some (done, mem')
    → IsServed heap mem' (without r held)
given_back-IsServed heap mem mem' held r done inv there e =
    let (xs, b, ys, whole, taken, place) =
      owned-split heap.memory inv.blocks r (sym (inv.owns r) ∙ there) in
    let (mem'', run, kept) =
      heap_free-IsHeap heap mem xs b ys (subst (IsHeap heap mem) whole inv.kept) in
    let same : (b.taken, mem'') ≡ (done, mem') =
      some-injective (b.taken, mem'') (done, mem')
        (sym run ∙ ap (λ k. heap_free heap k mem) (sym place) ∙ e) in
    record {
      blocks = give_back xs b ys;
      kept =
          subst (λ z. IsHeap heap z (give_back xs b ys)) (ap (λ z. z.1) same)
            (subst (λ t. IsHeap heap mem'' (if t then give_back xs b ys else xs ++ b ∷ ys)) taken
              kept);
      owns = λ a.
          member-without a r held
          ∙ ap (λ m. m && not (r == a)) (inv.owns a ∙ ap (λ bs. owned heap.memory bs a) whole)
          ∙ ap (λ k. owned heap.memory (xs ++ b ∷ ys) a && not (k == a)) place
          ∙ sym (owned-give_back heap.memory xs b ys a taken);
      distinct = without-AllDistinct r held inv.distinct;
      coalesced = give_back-Coalesced xs b ys (subst Coalesced whole inv.coalesced);
    }

written-IsServed :
    (heap : Heap) (mem : Words) (held : List ℕ) (r w v : ℕ)
    → IsServed heap mem held
    → member r held ≡ true
    → r ≤ w
    → w < r + size_of (mem (r - 8))
    → IsServed heap (update mem w v) held
written-IsServed heap mem held r w v inv there lo hi = record {
  blocks = inv.blocks;
  kept = record {
    end_size = inv.kept.end_size;
    span =
        Span-write mem heap.memory 0 inv.blocks (heap.memory + heap.size) inv.kept.end_size r w v
          inv.kept.span (sym (inv.owns r) ∙ there) lo hi;
    marked = inv.kept.marked;
    low = inv.kept.low;
    high = inv.kept.high;
  };
  owns = inv.owns;
  distinct = inv.distinct;
  coalesced = inv.coalesced;
}

-- After any calls and writes that begin with heap_init of at least 16 bytes, at an address from 8
-- on from which eight times the size ends below 2 ^ 32, that allocate 1 to 2 ^ 31 - 1 bytes, and
-- that give back held addresses and write to held blocks only, memory is a heap of blocks, the
-- addresses that are held are those of its taken blocks, no address is held twice, and no two free
-- blocks stand next to each other.
pub Reached-IsServed :
    (heap : Heap) (mem : Words) (held : List ℕ) → Reached heap mem held → IsServed heap mem held
Reached-IsServed heap mem held (started size memory mem0 mem' enough low high e) =
    started-IsServed heap size memory mem0 mem' enough low high e
Reached-IsServed heap mem held (allocated mem0 mem' before size r run positive small e) =
    allocated-IsServed heap mem0 mem before size r (Reached-IsServed heap mem0 before run) positive
      small e
Reached-IsServed heap mem held (given_back mem0 mem' before r done run there e) =
    given_back-IsServed heap mem0 mem before r done (Reached-IsServed heap mem0 before run) there e
Reached-IsServed heap mem held (written mem0 held' r w v run there lo hi) =
    written-IsServed heap mem0 held r w v (Reached-IsServed heap mem0 held run) there lo hi
