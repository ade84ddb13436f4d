-- ===== src/Library/Heap/Alloc.antt =====
-- Allocation keeps the heap a list of blocks.
use mathlib.Core.Path.{subst}
use sth.Base.{
  ℕ, ◌+◌, ◌-◌, ◌/◌, ◌%◌, ◌^◌, ◌≤◌, ◌<◌, ◌≡◌, refl, arith, Bool, true, false, not, ◌&&◌, ◌||◌, List,
  [], ◌∷◌, ◌++◌, ◌==◌, sym, ◌∙◌, ap, u32, bit_and_split, bit_and_mask, bit_and-zero, length,
  Bool-cases, ◌⊎◌, inl, inr, some, ltb, leb, slt, ==→eq,
}
use sth.Library.Words.{Words}
use sth.Library.Heap.{Heap, heap_alloc, take, rounded}
use sth.Library.Heap.BestFit.{fits, find_best-IsBest}
use sth.Library.Heap.Blocks.{
  Block, word, IsBlock, Span, bytes, LastOnly, IsHeap, Span-agree, Span-end, Span-append,
  append-Span, size_of-word, is_taken-word,
}
use sth.Library.Heap.Chain.{places, length-places, Span-Blocks, member-At}
use sth.Library.Heap.Cut.{cut, IsTaken, split-room, take-whole}
use sth.Library.LinkedList.Walk.{member}

pub LastOnly-tail :
    (xs : List Block) (b : Block) (ys : List Block) → LastOnly (xs ++ b ∷ ys) → LastOnly (b ∷ ys)
LastOnly-tail [] b ys l = l
LastOnly-tail (x ∷ []) b ys (e, l) = l
LastOnly-tail (x ∷ y ∷ xs) b ys (e, l) = LastOnly-tail (y ∷ xs) b ys l

pub LastOnly-swap :
    (xs : List Block) (b c : Block) (ys zs : List Block)
    → LastOnly (xs ++ b ∷ ys)
    → LastOnly (c ∷ zs)
    → LastOnly (xs ++ c ∷ zs)
LastOnly-swap [] b c ys zs l l' = l'
LastOnly-swap (x ∷ []) b c ys zs (e, l) l' = (e, l')
LastOnly-swap (x ∷ y ∷ xs) b c ys zs (e, l) l' = (e, LastOnly-swap (y ∷ xs) b c ys zs l l')

-- Whether a free block has room for `size` bytes.
abbrev pub has_room : (size : ℕ) → List Block → Bool
has_room size [] = false
has_room size (b ∷ bs) = not b.taken && leb size b.size || has_room size bs

fits-word :
    (size : ℕ) (b : Block) → IsBlock b → fits size (word b) ≡ (not b.taken && leb size b.size)
fits-word size b ok = rw (is_taken-word b ok, size_of-word b ok) refl

no_room :
    (size : ℕ) (mem : Words) (p s : ℕ) (bs : List Block) (q t : ℕ)
    → Span mem p s bs q t
    → ((r : ℕ) → member r (places p bs) ≡ true → fits size (mem r) ≡ false)
    → has_room size bs ≡ false
no_room size mem p s [] q t sp h = refl
no_room size mem p s (b ∷ bs) q t (ok, at, prev, rest) h =
    let here = sym (fits-word size b ok) ∙ ap (fits size) (sym at) ∙ h p (ground arith) in
    let later =
      no_room size mem (p + 8 + b.size) b.size bs q t rest
        (λ r there. h r (ground (arith, there))) in
    rw (here, later) refl

-- The allocation of `size` bytes at `r` from the blocks `bs`.
pub record IsAllocated (heap : Heap) (size : ℕ) (bs : List Block) (r : ℕ) (mem' : Words)
    : Type 0 where
  pub before : List Block
  pub block : Block
  pub behind : List Block
  pub whole : bs ≡ before ++ block ∷ behind
  pub free : block.taken ≡ false
  pub room : size ≤ block.size
  pub place : r ≡ heap.memory + bytes before + 8
  pub kept : IsHeap heap mem' (before ++ (cut size block ++ behind))

rounded-whole : (size : ℕ) → rounded size % 8 ≡ 0
rounded-whole size =
    let w = u32 (size + 7) in
    let high = bit_and_mask 29 (w / 8) in
    let low = bit_and-zero (w % 8) in omega (arith, bit_and_split 3 w 0xffff_fff8, high, low)

take-IsTaken :
    (mem : Words) (p s size : ℕ) (b : Block) (bs : List Block) (q t : ℕ)
    → Span mem p s (b ∷ bs) q t
    → LastOnly (b ∷ bs)
    → b.taken ≡ false
    → size % 8 ≡ 0
    → size ≤ b.size
    → q < 2 ^ 32
    → 0 < p
    → (mem' : Words) × (take p size mem ≡ some (u32 (p + 8), mem'))
      × IsTaken mem p s size b bs q t (cut size b) mem'
take-IsTaken mem p s size b bs q t (ok, at, prev, rest) l free whole le w h =
    elim (Bool-cases (ltb 8 (b.size - size))) [
      | inl room ↦
          rw room (split-room mem p s size b bs q t ok at prev l rest free whole le room w h)
      | inr full ↦ rw full (take-whole mem p s size b bs q t ok at prev l rest free le full)
    ]

-- The blocks of a heap from some place on are replaced.
pub replaced-IsHeap :
    (heap : Heap) (mem mem' : Words) (xs : List Block) (b : Block) (ys zs : List Block) (m u t : ℕ)
    → IsHeap heap mem (xs ++ b ∷ ys)
    → Span mem heap.memory 0 xs m u
    → LastOnly zs
    → Span mem' m u zs (heap.memory + heap.size) t
    → ((w : ℕ) → w < m → mem' w ≡ mem w)
    → IsHeap heap mem' (xs ++ zs)
replaced-IsHeap heap mem mem' xs b ys [] m u t h left l right same = absurd l
replaced-IsHeap heap mem mem' xs b ys (z ∷ zs) m u t h left l right same = record {
  end_size = t;
  span =
      append-Span mem' heap.memory 0 xs (z ∷ zs) m u (heap.memory + heap.size) t
        (Span-agree mem mem' heap.memory 0 xs m u (λ w lo hi. same w hi) left) right;
  marked = LastOnly-swap xs b z ys zs h.marked l;
  low = h.low;
  high = h.high;
}

IsAllocated-at :
    (heap : Heap) (size : ℕ) (mem : Words) (bs xs : List Block) (b : Block) (ys : List Block)
    (r : ℕ)
    → IsHeap heap mem bs
    → bs ≡ xs ++ b ∷ ys
    → r ≡ heap.memory + bytes xs
    → fits size (mem r) ≡ true
    → size % 8 ≡ 0
    → (mem' : Words) × (take r size mem ≡ some (r + 8, mem'))
      × IsAllocated heap size bs (r + 8) mem'
IsAllocated-at heap size mem bs xs b ys r given e at fit whole =
    let h = subst (IsHeap heap mem) e given in
    let (m, u, left, right) =
      Span-append mem heap.memory 0 xs (b ∷ ys) (heap.memory + heap.size) h.end_size h.span in
    let (ok, here, prev, rest) = right in
    let start = Span-end mem heap.memory 0 xs m u left in
    let end = Span-end mem m u (b ∷ ys) (heap.memory + heap.size) h.end_size right in
    let (free, room) = both b.taken (leb size b.size) (
      sym (fits-word size b ok)
      ∙ ap (fits size) (sym here)
      ∙ ap (λ k. fits size (mem k)) (start ∙ sym at)
      ∙ fit) in
    let (mem', run, done) =
      take-IsTaken mem m u size b ys (heap.memory + heap.size) h.end_size right
        (LastOnly-tail xs b ys h.marked) free whole (ground (arith, room)) (omega (arith, h.high))
        (omega (arith, h.low, start)) in
    let place : u32 (m + 8) ≡ r + 8 = omega (arith, start, at, end, h.high) in
    (
      mem',
      ap (λ k. take k size mem) (at ∙ sym start) ∙ run ∙ ap (λ k. some (k, mem')) place,
      record {
        before = xs;
        block = b;
        behind = ys;
        whole = e;
        free = free;
        room = ground (arith, room);
        place = omega (arith, at);
        kept =
            replaced-IsHeap heap mem mem' xs b ys (cut size b ++ ys) m u done.end_size h left
              done.marked done.span (λ w lt. done.others w (inl lt));
      },
    )
  where
    both : (t l : Bool) → (not t && l) ≡ true → (t ≡ false) × (l ≡ true)
    both false true e = (refl, refl)
    both false false e = absurd (ground arith)
    both true l e = absurd (ground arith)

-- In a heap of blocks, with a round for each block and one for the end, and for a size from 1 to
-- 2 ^ 31 - 1, `heap_alloc` either gives 0 and changes nothing, and then no free block has room for
-- the size rounded up; or it gives the address behind the marker of a free block with this room, of
-- which it takes as much as the size and leaves the rest as a free block, and memory is a heap of
-- these blocks.
pub heap_alloc-IsHeap :
    (fuel : ℕ) (heap : Heap) (size : ℕ) (mem : Words) (bs : List Block)
    → IsHeap heap mem bs
    → length bs < fuel
    → 0 < size
    → size < 2 ^ 31
    → (r : ℕ) × (mem' : Words) × (heap_alloc fuel heap size mem ≡ some (r, mem'))
      × (((r ≡ 0) × (mem' ≡ mem) × (has_room (rounded size) bs ≡ false))
          ⊎ IsAllocated heap (rounded size) bs r mem')
unfolding heap_alloc
heap_alloc-IsHeap fuel heap size mem bs h rounds positive small =
    let asked : slt 0 size ≡ true = ground arith in
    let end = Span-end mem heap.memory 0 bs (heap.memory + heap.size) h.end_size h.span in
    let chain =
      Span-Blocks mem heap.memory 0 bs (heap.memory + heap.size) h.end_size h.span h.marked
        (omega (arith, h.low)) (omega (arith, h.high)) in
    let (r, run, best) =
      find_best-IsBest fuel (rounded size) heap.memory 0 mem (places heap.memory bs) chain
        (omega (arith, length-places heap.memory bs)) in
    elim (Bool-cases (r == 0)) [
      | inl none_ ↦ (
        0,
        mem,
        rw (asked, run, none_) refl,
        inl (
          refl,
          refl,
          no_room (rounded size) mem heap.memory 0 bs (heap.memory + heap.size) h.end_size h.span
              (λ a there. elim (Bool-cases (fits (rounded size) (mem a))) [
                | inl fit ↦ absurd ((best.beats a there fit).0 (==→eq r 0 none_))
                | inr too_small ↦ too_small
              ]),
        ),
      )
      | inr some_ ↦ elim (best.from) [
        | inl none_ ↦ absurd (ground (arith, none_, some_))
        | inr (here, fit) ↦
            let at = member-At heap.memory r bs here in
            let (mem', taken_, done) =
              IsAllocated-at heap (rounded size) mem bs at.before at.block at.behind r h at.whole
                at.place fit (rounded-whole size) in
            (r + 8, mem', rw (asked, run, some_) taken_, inr done)
      ]
    ]
