-- ===== src/Library/Heap/Services.antt =====
-- What the callers of a heap can rely on after `heap_init` and any calls.
use mathlib.Core.Path.{subst}
use sth.Base.{
  ℕ, suc, ◌+◌, ◌-◌, ◌/◌, ◌%◌, ◌^◌, ◌≤◌, ◌<◌, ◌≡◌, refl, arith, true, false, if◌then◌else◌, List, [],
  ◌∷◌, ◌++◌, sym, ◌∙◌, ap, Bool-cases, inl, inr, ltb, leb, some, length, u32, bit_and_split,
  bit_and_mask, bit_and-zero,
}
use sth.Library.Words.{Words}
use sth.Library.LinkedList.Walk.{member}
use sth.Library.Heap.{Heap, heap_alloc, rounded, size_of}
use sth.Library.Heap.Blocks.{Block, Span, LastOnly, Span-end, Span-append, bytes}
use sth.Library.Heap.Cut.{cut, first_cut, behind_cut}
use sth.Library.Heap.Alloc.{has_room, IsAllocated, heap_alloc-IsHeap}
use sth.Library.Heap.Owned.{owned, owned-bounds}
use sth.Library.Heap.Coalesced.{Coalesced, unowned-Coalesced}
use sth.Library.Heap.Extent.{owned-apart, owned-IsOwned, block_size}
use sth.Library.Heap.Runs.{Reached, Reached-IsServed, length-bytes}

-- The block at a held address.
abbrev pub extent : Words → ℕ → ℕ
extent mem a = size_of (mem (a - 8))

-- After any calls and writes as in Reached, of two held addresses the block at the lower one ends
-- before the marker of the other, and both blocks lie in the heap.
pub held-apart :
    (heap : Heap) (mem : Words) (held : List ℕ) (a c : ℕ)
    → Reached heap mem held
    → member a held ≡ true
    → member c held ≡ true
    → a < c
    → (heap.memory + 8 ≤ a)
      × (a + extent mem a + 8 ≤ c)
      × (c + extent mem c ≤ heap.memory + heap.size)
held-apart heap mem held a c run here there lt =
    let inv = Reached-IsServed heap mem held run in
    let k = inv.kept in
    let q = heap.memory + heap.size in
    let here' = sym (inv.owns a) ∙ here in
    let there' = sym (inv.owns c) ∙ there in
    (
      (owned-bounds heap.memory inv.blocks a here').0,
      owned-apart mem heap.memory 0 inv.blocks q k.end_size a c k.span here' there' lt,
      (owned-IsOwned mem heap.memory 0 inv.blocks q k.end_size c k.span there').last,
    )

rounded-above : (size : ℕ) → size < 2 ^ 31 → size ≤ rounded size
rounded-above size small =
    let w = u32 (size + 7) in
    let high = bit_and_mask 29 (w / 8) in
    let low = bit_and-zero (w % 8) in omega (arith, bit_and_split 3 w 0xffff_fff8, high, low)

cut-extent :
    (mem : Words) (p s size : ℕ) (b : Block) (ys : List Block) (q t : ℕ)
    → Span mem p s (cut size b ++ ys) q t
    → size ≤ b.size
    → size ≤ extent mem (p + 8)
cut-extent mem p s size b ys q t sp le = elim (Bool-cases (ltb 8 (b.size - size))) [
  | inl room ↦
      let sp' =
        subst
          (λ l.
            Span mem p s
              ((if l
                  then first_cut size ∷ behind_cut size b ∷ []
                  else record b { taken = true } ∷ [])
                ++ ys)
              q t)
          room sp in
      omega
        (arith, block_size mem p s (first_cut size) (behind_cut size b ∷ ys) q t (p + 8) sp' refl)
  | inr full ↦
      let sp' =
        subst
          (λ l.
            Span mem p s
              ((if l
                  then first_cut size ∷ behind_cut size b ∷ []
                  else record b { taken = true } ∷ [])
                ++ ys)
              q t)
          full sp in
      omega (arith, block_size mem p s (record b { taken = true }) ys q t (p + 8) sp' refl)
]

allocated-extent :
    (heap : Heap) (mem' : Words) (size r : ℕ) (bs : List Block)
    → IsAllocated heap size bs r mem'
    → size ≤ extent mem' r
allocated-extent heap mem' size r bs new =
    let q = heap.memory + heap.size in
    let (m, u, left, right) =
      Span-append mem' heap.memory 0 new.before (cut size new.block ++ new.behind) q
        new.kept.end_size new.kept.span in
    let start = Span-end mem' heap.memory 0 new.before m u left in
    let place : m + 8 ≡ r = omega (arith, start, new.place) in
    subst (λ a. size ≤ extent mem' a) place
      (cut-extent mem' m u size new.block new.behind q new.kept.end_size right new.room)

length-middle : (xs : List Block) (b : Block) (ys : List Block) → 0 < length (xs ++ b ∷ ys)
length-middle [] b ys = omega arith
length-middle (x ∷ xs) b ys = omega arith

only_block :
    (c : Block) (xs : List Block) (b : Block) (ys : List Block) → c ∷ [] ≡ xs ++ b ∷ ys → xs ≡ []
only_block c [] b ys e = refl
only_block c (x ∷ xs) b ys e = absurd (omega (arith, ap length e, length-middle xs b ys))

-- With nothing allocated there is one block.
lone :
    (p : ℕ) (bs : List Block)
    → LastOnly bs
    → ((a : ℕ) → owned p bs a ≡ false)
    → Coalesced bs
    → (b : Block) × (bs ≡ b ∷ []) × (b.taken ≡ false)
lone p [] l none_ c = absurd l
lone p (b ∷ bs) l none_ c =
    let (free, e) = unowned-Coalesced p b bs none_ c in (b, ap (λ zs. b ∷ zs) e, free)

-- After any calls and writes as in Reached, when nothing is held, heap_alloc of a size from 1 to 2
-- ^ 31 - 1 that is at most the size of the heap less one marker when rounded up gives the first
-- address of the heap, and the block there has room for the size.
pub all_given_back-serves :
    (heap : Heap) (mem : Words) (size : ℕ)
    → Reached heap mem []
    → 0 < size
    → size < 2 ^ 31
    → rounded size + 8 ≤ heap.size
    → (mem' : Words) × (heap_alloc (suc heap.size) heap size mem ≡ some (heap.memory + 8, mem'))
      × (size ≤ extent mem' (heap.memory + 8))
all_given_back-serves heap mem size run positive small room =
    let inv = Reached-IsServed heap mem [] run in
    let q = heap.memory + heap.size in
    let (b, whole, free) =
      lone heap.memory inv.blocks inv.kept.marked (λ a. sym (inv.owns a)) inv.coalesced in
    let end = Span-end mem heap.memory 0 inv.blocks q inv.kept.end_size inv.kept.span in
    let all : bytes inv.blocks ≡ 8 + b.size + 0 = ap bytes whole in
    let fits : leb (rounded size) b.size ≡ true = ground (arith, all, end) in
    let has : has_room (rounded size) inv.blocks ≡ true =
      ap (has_room (rounded size)) whole ∙ rw (free, fits) refl in
    let (r, mem', returns, result) =
      heap_alloc-IsHeap (suc heap.size) heap size mem inv.blocks inv.kept
        (omega (arith, length-bytes inv.blocks, end)) positive small in
    elim result [
      | inl (none_, unchanged, full) ↦ absurd (ground (arith, has, full))
      | inr new ↦
          let first : bytes new.before ≡ 0 =
            ap bytes (only_block b new.before new.block new.behind (sym whole ∙ new.whole)) in
          let place : r ≡ heap.memory + 8 = omega (arith, new.place, first) in
          let asked = rounded-above size small in
          let extent_ = allocated-extent heap mem' (rounded size) r inv.blocks new in
          (
            mem',
            returns ∙ ap (λ k. some (k, mem')) place,
            subst (λ a. size ≤ extent mem' a) place (omega (arith, asked, extent_)),
          )
    ]
