-- ===== src/Library/Heap/Laws.antt =====
-- What an allocation from a heap gives.
use sth.Base.{
  ℕ, ◌+◌, ◌^◌, ◌≤◌, ◌<◌, ◌≡◌, refl, arith, true, false, some, List, ltb, ◌==◌, u32, slt, sub32,
  ne→==, inl, inr, Bool-cases, length, bit_and, bit_or, bit_and_mask, bit_at-or, update,
}
use sth.Library.Words.{Words}
use sth.Library.Heap.{
  Heap, heap_marker_next, heap_marker_split, heap_alloc, take, record_size, is_taken, size_of,
  rounded, mask_taken, mask_flags,
}
use sth.Library.Heap.BestFit.{Blocks, fits, find_best-IsBest, next_marker}
use sth.Library.LinkedList.Walk.{member}

record_size-runs :
    (mark : ℕ) (mem : Words) → (mem' : Words) × (record_size mark mem ≡ some (tt, mem'))
unfolding heap_marker_next
record_size-runs mark mem = elim (Bool-cases (next_marker mem mark == 0)) [
  | inl end ↦ (mem, rw end refl)
  | inr more ↦ (update mem (next_marker mem mark + 4) (size_of (mem mark)), rw more refl)
]

heap_marker_split-runs :
    (mark size : ℕ) (mem : Words)
    → (tmp : ℕ) × (mem' : Words) × (heap_marker_split mark size mem ≡ some (tmp, mem'))
unfolding heap_marker_split
heap_marker_split-runs mark size mem =
    let remain = sub32 (size_of (mem mark)) size in
    let tmp = u32 (size + 8 + mark) in
    elim (Bool-cases (ltb 8 remain)) [
      | inl room ↦
          let first = update mem tmp (bit_or (sub32 remain 8) (bit_and (mem mark) mask_flags)) in
          let second = update first mark (bit_or size (bit_and (mem mark) mask_taken)) in
          let (mem', run) = record_size-runs tmp (update second (tmp + 4) size) in
          (tmp, mem', rw (room, run) refl)
      | inr no_room ↦ (0, mem, rw no_room refl)
    ]

taken-bit : (w : ℕ) → is_taken (bit_or w mask_taken) ≡ true
taken-bit w =
    let low = bit_and_mask 1 (bit_or w 1) in
    let joined = bit_at-or 0 w 1 in
    let one : bit_and (bit_or w 1) 1 ≡ 1 = omega (arith, low, joined) in rw one refl

take-takes :
    (r size : ℕ) (mem : Words)
    → (mem' : Words) × (take r size mem ≡ some (u32 (r + 8), mem')) × (is_taken (mem' r) ≡ true)
take-takes r size mem =
    let (tmp, mem1, run) = heap_marker_split-runs r size mem in
    let there : update mem1 r (bit_or (mem1 r) mask_taken) r ≡ bit_or (mem1 r) mask_taken =
      ground arith in
    (update mem1 r (bit_or (mem1 r) mask_taken), rw run refl, rw there (taken-bit (mem1 r)))

module _ (fuel : ℕ) (heap : Heap) (size : ℕ) (mem : Words) (bs : List ℕ) where
  -- With a round for each block and one for the end, when a free block of the heap is large enough
  -- for a size from 1 to 2 ^ 31 - 1, `heap_alloc` gives the address after the marker of a free
  -- block that is large enough and not larger than that one, and that block is marked as taken.
  pub heap_alloc-best_fit :
      (b : ℕ)
      → Blocks mem heap.memory bs
      → length bs < fuel
      → 0 < size
      → size < 2 ^ 31
      → member b bs ≡ true
      → fits (rounded size) (mem b) ≡ true
      → (r : ℕ) × (mem' : Words) × (heap_alloc fuel heap size mem ≡ some (u32 (r + 8), mem'))
        × (member r bs ≡ true)
        × (fits (rounded size) (mem r) ≡ true)
        × (size_of (mem r) ≤ size_of (mem b))
        × (is_taken (mem' r) ≡ true)
  unfolding heap_alloc
  heap_alloc-best_fit b c h positive small there fit =
      let (r, run, best) = find_best-IsBest fuel (rounded size) heap.memory 0 mem bs c h in
      let (ne, le) = best.beats b there fit in
      let (mem', taken_, mark) = take-takes r (rounded size) mem in
      let asked : slt 0 size ≡ true = ground arith in
      elim (best.from) [
        | inl none_ ↦ absurd (ne none_)
        | inr (here, large) ↦ (r, mem', rw (asked, run, ne→== r 0 ne) taken_, here, large, le, mark)
      ]

  -- With a round for each block and one for the end, `heap_alloc` gives 0 and changes nothing when
  -- no free block of the heap is large enough.
  pub heap_alloc-refuses :
      Blocks mem heap.memory bs
      → length bs < fuel
      → ((b : ℕ) → member b bs ≡ true → fits (rounded size) (mem b) ≡ false)
      → heap_alloc fuel heap size mem ≡ some (0, mem)
  unfolding heap_alloc
  heap_alloc-refuses c h full =
      let (r, run, best) = find_best-IsBest fuel (rounded size) heap.memory 0 mem bs c h in
      let nothing : r ≡ 0 = elim (best.from) [
        | inl none_ ↦ none_
        | inr (here, large) ↦ absurd (ground (arith, full r here, large))
      ] in
      elim (Bool-cases (slt 0 size)) [
        | inl asked ↦ rw (asked, run, nothing) refl
        | inr not_asked ↦ rw not_asked refl
      ]
