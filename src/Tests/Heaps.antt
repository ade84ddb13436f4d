-- ===== src/Tests/Heaps.antt =====
-- The theorems on the heap applied to a heap of 64 bytes.
use sth.Base.{
  ℕ, ◌+◌, ◌≤◌, ◌≡◌, ◌⊎◌, ◌==◌, refl, arith, true, false, Option, none, some, [], ◌∷◌, if◌then◌else◌,
}
use sth.Library.Words.{Words}
use sth.Library.Heap.{Heap, heap_init, heap_alloc, heap_free, rounded}
use sth.Library.Heap.Blocks.{Block, IsHeap}
use sth.Library.Heap.Alloc.{has_room, IsAllocated, heap_alloc-IsHeap}
use sth.Library.Heap.Free.{heap_free-IsHeap}
use sth.Library.Heap.Runs.{Reached, started, allocated, IsServed, Reached-IsServed}
use sth.Library.Heap.Services.{extent, held-apart, all_given_back-serves}

abbrev arena : Heap
arena = record { size = 64; memory = 0x1000 }

abbrev memory_of : {A : Type 0} → Words → Option (A × Words) → Words
memory_of other none = other
memory_of other (some (r, mem)) = mem

-- After `heap_init`, and after each of two requests.
abbrev fresh : Words
fresh a = if a == 0x1004 then 0 else if a == 0x1000 then 58 else 0

abbrev once : Words
unfolding heap_alloc
once = memory_of fresh (heap_alloc 65 arena 10 fresh)

abbrev twice : Words
unfolding heap_alloc
twice = memory_of once (heap_alloc 65 arena 8 once)

fresh-Reached : Reached arena fresh []
unfolding heap_init
fresh-Reached = started 64 0x1000 (λ a. 0) fresh (omega arith) (omega arith) (omega arith) refl

once-Reached : Reached arena once (0x1008 ∷ [])
unfolding heap_alloc once
once-Reached = allocated fresh once [] 10 0x1008 fresh-Reached (omega arith) (omega arith) refl

twice-Reached : Reached arena twice (0x1020 ∷ 0x1008 ∷ [])
unfolding heap_alloc twice once
twice-Reached =
    allocated once twice (0x1008 ∷ []) 8 0x1020 once-Reached (omega arith) (omega arith) refl

abbrev whole_block : Block
whole_block = record { size = 56; taken = false; last = true }

fresh-IsHeap : IsHeap arena fresh (whole_block ∷ [])
fresh-IsHeap = record {
  end_size = 56;
  span = (record { whole = refl; small = omega arith }, refl, refl, (refl, refl));
  marked = refl;
  low = omega arith;
  high = omega arith;
}

heap_alloc-IsHeap_example :
    (r : ℕ) × (mem' : Words) × (heap_alloc 2 arena 10 fresh ≡ some (r, mem'))
    × (((r ≡ 0) × (mem' ≡ fresh) × (has_room (rounded 10) (whole_block ∷ []) ≡ false))
        ⊎ IsAllocated arena (rounded 10) (whole_block ∷ []) r mem')
heap_alloc-IsHeap_example =
    heap_alloc-IsHeap 2 arena 10 fresh (whole_block ∷ []) fresh-IsHeap (omega arith) (omega arith)
      (omega arith)

-- A heap of one taken block.
abbrev full : Words
full a = if a == 0x1000 then 59 else 0

abbrev taken_block : Block
taken_block = record { size = 56; taken = true; last = true }

full-IsHeap : IsHeap arena full (taken_block ∷ [])
full-IsHeap = record {
  end_size = 56;
  span = (record { whole = refl; small = omega arith }, refl, refl, (refl, refl));
  marked = refl;
  low = omega arith;
  high = omega arith;
}

heap_free-IsHeap_example :
    (mem' : Words) × (heap_free arena 0x1008 full ≡ some (true, mem'))
    × IsHeap arena mem' (whole_block ∷ [])
heap_free-IsHeap_example = heap_free-IsHeap arena full [] taken_block [] full-IsHeap

Reached-IsServed_example : IsServed arena twice (0x1020 ∷ 0x1008 ∷ [])
Reached-IsServed_example = Reached-IsServed arena twice (0x1020 ∷ 0x1008 ∷ []) twice-Reached

held-apart_example :
    (0x1008 ≤ 0x1008)
    × (0x1008 + extent twice 0x1008 + 8 ≤ 0x1020)
    × (0x1020 + extent twice 0x1020 ≤ 0x1040)
held-apart_example =
    held-apart arena twice (0x1020 ∷ 0x1008 ∷ []) 0x1008 0x1020 twice-Reached refl refl
      (omega arith)

all_given_back-serves_example :
    (mem' : Words) × (heap_alloc 65 arena 56 fresh ≡ some (0x1008, mem'))
    × (56 ≤ extent mem' 0x1008)
all_given_back-serves_example =
    all_given_back-serves arena fresh 56 fresh-Reached (omega arith) (omega arith) (omega arith)
