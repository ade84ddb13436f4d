-- ===== src/Library/Heap/Checks.antt =====
-- The checks that `heap_free` makes pass for a block of the heap.
use sth.Base.{
  ℕ, ◌+◌, ◌*◌, ◌/◌, ◌^◌, ◌≤◌, ◌<◌, ◌≡◌, refl, arith, true, false, if◌then◌else◌, List, [], ◌∷◌, sym,
  ◌∙◌, ap, u32, sub32, inl, inr, some, Bool-cases, leb, ltb,
}
use sth.Library.Words.{Words}
use sth.Library.Heap.{
  Heap, is_taken, heap_marker_prev, heap_marker_next, heap_free, release, is_damaged, free_marker,
}
use sth.Library.Heap.BestFit.{next_marker}
use sth.Library.Heap.Blocks.{
  Block, IsBlock, IsHeap, Span, LastOnly, Span-end, size_of-word, is_taken-word,
}
use sth.Library.Heap.Chain.{next_marker-more, next_marker-last}
use sth.Library.Heap.Join.{fuse}
use sth.Library.Heap.Release.{freed, next_place}

pub next_marker-place :
    (mem : Words) (m s : ℕ) (b : Block) (ys : List Block) (q t : ℕ)
    → Span mem m s (b ∷ ys) q t
    → LastOnly (b ∷ ys)
    → q < 2 ^ 32
    → next_marker mem m ≡ next_place (m + 8 + b.size) ys
next_marker-place mem m s b [] q t (ok, at, prev, rest) l w = next_marker-last mem m b ok at l
next_marker-place mem m s b (y ∷ ys) q t (ok, at, prev, rest) (e, l) w =
    let end = Span-end mem (m + 8 + b.size) b.size (y ∷ ys) q t rest in
    next_marker-more mem m b ok at e (omega (arith, end))

-- The block behind records the size of the block.
pub behind_sound :
    (mem : Words) (m s : ℕ) (b : Block) (ys : List Block) (q t n : ℕ)
    → Span mem m s (b ∷ ys) q t
    → n ≡ m + 8 + b.size
    → is_damaged (next_place n ys) (mem (next_place n ys + 4)) (mem m) ≡ false
behind_sound mem m s b [] q t n sp e = refl
behind_sound mem m s b (y ∷ ys) q t n (ok, at, prev, (ok', at', prev', rest)) e =
    let recorded : mem (n + 4) ≡ b.size = ap (λ k. mem (k + 4)) e ∙ prev' in
    rw (recorded, at, size_of-word b ok) (ground arith)

module _ (heap : Heap) (mem : Words) where
  checked :
      (m prev next : ℕ)
      → heap_marker_prev heap m mem ≡ some (prev, mem)
      → next_marker mem m ≡ next
      → is_damaged prev (mem (m + 4)) (mem prev) ≡ false
      → is_damaged next (mem (next + 4)) (mem m) ≡ false
      → is_taken (mem m) ≡ true
      → free_marker heap m mem ≡ release m prev next mem
  unfolding heap_marker_next
  checked m prev next e e' d d' taken = rw (e, e', d, d', taken) refl

  refused :
      (m prev next : ℕ)
      → heap_marker_prev heap m mem ≡ some (prev, mem)
      → next_marker mem m ≡ next
      → is_damaged prev (mem (m + 4)) (mem prev) ≡ false
      → is_damaged next (mem (next + 4)) (mem m) ≡ false
      → is_taken (mem m) ≡ false
      → free_marker heap m mem ≡ some (false, mem)
  unfolding heap_marker_next
  refused m prev next e e' d d' free = rw (e, e', d, d', free) refl

  -- The marker before the first one is not in the heap.
  heap_marker_prev-first :
      (m : ℕ)
      → mem (m + 4) ≡ 0
      → m ≡ heap.memory
      → 8 ≤ m
      → m < 2 ^ 32
      → heap_marker_prev heap m mem ≡ some (0, mem)
  unfolding heap_marker_prev
  heap_marker_prev-first m prev e h w =
      let below : ltb (sub32 m (u32 (8 + 8 * (0 / 8)))) heap.memory ≡ true = ground arith in
      rw (prev, below) refl

  heap_marker_prev-behind :
      (k m : ℕ) (x : Block)
      → IsBlock x
      → mem (m + 4) ≡ x.size
      → m ≡ k + 8 + x.size
      → heap.memory ≤ k
      → m < 2 ^ 32
      → heap_marker_prev heap m mem ≡ some (k, mem)
  unfolding heap_marker_prev
  heap_marker_prev-behind k m x ok prev e h w =
      let place : sub32 m (u32 (8 + 8 * (x.size / 8))) ≡ k = omega (arith, ok.whole, ok.small) in
      let inside : ltb k heap.memory ≡ false = ground arith in rw (prev, place, inside) refl

  in_heap :
      (m adr : ℕ)
      → adr ≡ m + 8
      → heap.memory ≤ m
      → m < heap.memory + heap.size
      → heap.memory + 8 * heap.size < 2 ^ 32
      → heap_free heap adr mem ≡ free_marker heap m mem
  unfolding heap_free
  in_heap m adr e lo hi high =
      let place : sub32 adr 8 ≡ m = omega arith in
      let low : ltb m heap.memory ≡ false = ground arith in
      let inside : leb (u32 (heap.memory + 8 * heap.size)) m ≡ false = ground arith in
      rw (place, low, inside) refl

pub cons-LastOnly : (x : Block) (zs : List Block) → x.last ≡ false → LastOnly zs → LastOnly (x ∷ zs)
cons-LastOnly x [] e l = absurd l
cons-LastOnly x (z ∷ zs) e l = (e, l)

pub fuse-LastOnly :
    (x b : Block) (ys : List Block) → LastOnly (b ∷ ys) → LastOnly (fuse x (freed b) ∷ ys)
fuse-LastOnly x b [] l = l
fuse-LastOnly x b (z ∷ zs) l = l

-- The block at `m` passes the checks, with the block at `prev` before it.
pub record IsFound (heap : Heap) (mem : Words) (m prev : ℕ) (b : Block) (ys : List Block)
    : Type 0 where
  pub prev_place : heap_marker_prev heap m mem ≡ some (prev, mem)
  pub sound : is_damaged prev (mem (m + 4)) (mem prev) ≡ false
  pub inside : heap.memory ≤ m

module _ (heap : Heap) (mem : Words) (m prev adr : ℕ) (b : Block) (ys : List Block) (u t : ℕ) where
  pub free-run :
      IsFound heap mem m prev b ys
      → Span mem m u (b ∷ ys) (heap.memory + heap.size) t
      → LastOnly (b ∷ ys)
      → heap.memory + 8 * heap.size < 2 ^ 32
      → adr ≡ m + 8
      → heap_free heap adr mem ≡ (
          if b.taken
          then release m prev (next_place (m + 8 + b.size) ys) mem
          else some (false, mem))
  free-run found sp l high e =
      let end = Span-end mem m u (b ∷ ys) (heap.memory + heap.size) t sp in
      let next =
        next_marker-place mem m u b ys (heap.memory + heap.size) t sp l (omega (arith, high)) in
      let behind = behind_sound mem m u b ys (heap.memory + heap.size) t (m + 8 + b.size) sp refl in
      let flag : is_taken (mem m) ≡ b.taken = ap is_taken sp.1 ∙ is_taken-word b sp.0 in
      in_heap heap mem m adr e found.inside (omega (arith, end)) high ∙ elim (Bool-cases b.taken) [
        | inl taken ↦
            checked heap mem m prev (next_place (m + 8 + b.size) ys) found.prev_place next
              found.sound behind (flag ∙ taken)
            ∙ sym (
                ap
                  (λ t.
                    if t
                    then release m prev (next_place (m + 8 + b.size) ys) mem
                    else some (false, mem))
                  taken)
        | inr free ↦
            refused heap mem m prev (next_place (m + 8 + b.size) ys) found.prev_place next
              found.sound behind (flag ∙ free)
            ∙ sym (
                ap
                  (λ t.
                    if t
                    then release m prev (next_place (m + 8 + b.size) ys) mem
                    else some (false, mem))
                  free)
      ]

pub IsFound-first :
    (heap : Heap) (mem : Words) (b : Block) (ys : List Block)
    → IsHeap heap mem (b ∷ ys)
    → IsFound heap mem heap.memory 0 b ys
IsFound-first heap mem b ys h =
    let (ok, at, prev, rest) = h.span in
    record {
      prev_place =
          heap_marker_prev-first heap mem heap.memory prev refl h.low (omega (arith, h.high));
      sound = refl;
      inside = omega arith;
    }

pub IsFound-behind :
    (heap : Heap) (mem : Words) (k u : ℕ) (x b : Block) (ys : List Block) (t : ℕ)
    → Span mem k u (x ∷ b ∷ ys) (heap.memory + heap.size) t
    → heap.memory ≤ k
    → heap.memory + 8 * heap.size < 2 ^ 32
    → IsFound heap mem (k + 8 + x.size) k b ys
IsFound-behind heap mem k u x b ys t sp lo high =
    let (ok, at, prev, (ok', at', prev', rest)) = sp in
    let end = Span-end mem k u (x ∷ b ∷ ys) (heap.memory + heap.size) t sp in
    record {
      prev_place =
          heap_marker_prev-behind heap mem k (k + 8 + x.size) x ok prev' refl lo
            (omega (arith, end, high));
      sound = rw (prev', at, size_of-word x ok) (ground arith);
      inside = omega arith;
    }
