-- ===== src/Library/Heap/Free.antt =====
-- Giving a block back keeps the heap a list of blocks.
use mathlib.Core.Path.{subst}
use sth.Base.{
  ℕ, ◌+◌, ◌≤◌, ◌≡◌, refl, arith, Bool, true, false, if◌then◌else◌, List, [], ◌∷◌, ◌++◌, sym, ◌∙◌,
  ap, inl, inr, Option, some, Bool-cases,
}
use sth.Library.Words.{Words, Cmd}
use sth.Library.Heap.{Heap, heap_free, release}
use sth.Library.Heap.Blocks.{Block, IsHeap, Span, LastOnly, bytes, Span-end, Span-append}
use sth.Library.Heap.Alloc.{LastOnly-tail, replaced-IsHeap}
use sth.Library.Heap.Join.{fuse}
use sth.Library.Heap.Release.{
  freed, absorb, give_back, next_place, IsRun, release_first-IsRun, release_behind_taken-IsRun,
  release_behind_free-IsRun, absorb-LastOnly, freed-LastOnly,
}
use sth.Library.Heap.Checks.{cons-LastOnly, fuse-LastOnly, IsFound-first, IsFound-behind, free-run}

module _ (heap : Heap) (mem : Words) where
  -- What a call for the block between `xs` and `ys` gives.
  abbrev IsFreed : (xs : List Block) (b : Block) (ys : List Block) (adr : ℕ) → Type 0
  IsFreed xs b ys adr =
      (mem' : Words) × (heap_free heap adr mem ≡ some (b.taken, mem'))
      × IsHeap heap mem' (if b.taken then give_back xs b ys else xs ++ b ∷ ys)

  -- The two ends of a call.
  abbrev choice : (m prev n : ℕ) (ys : List Block) → Bool → Option (Bool × Words)
  choice m prev n ys t = if t then release m prev (next_place n ys) mem else some (false, mem)

  IsFreed-first :
      (b : Block) (ys : List Block) → IsHeap heap mem (b ∷ ys) → IsFreed [] b ys (heap.memory + 8)
  IsFreed-first b ys h =
      let run =
        free-run heap mem heap.memory 0 (heap.memory + 8) b ys 0 h.end_size
          (IsFound-first heap mem b ys h) h.span h.marked h.high refl in
      elim (Bool-cases b.taken) [
        | inl taken ↦
            let r =
              release_first-IsRun mem heap.memory 0 b ys (heap.memory + heap.size) h.end_size
                (heap.memory + 8 + b.size) h.span h.marked taken refl (omega (arith, h.high))
                h.low in
            simp (taken) (
              r.after,
              run ∙ ap (choice heap.memory 0 (heap.memory + 8 + b.size) ys) taken ∙ r.returns,
              record {
                end_size = r.end_size;
                span = r.span;
                marked = absorb-LastOnly (freed b) ys (freed-LastOnly b ys h.marked);
                low = h.low;
                high = h.high;
              },
            )
        | inr free ↦
            simp (free) (mem, run ∙ ap (choice heap.memory 0 (heap.memory + 8 + b.size) ys) free, h)
      ]

  freed-with :
      (ws zs : List Block) (x : Block) (ys : List Block) (k u : ℕ) (step : Cmd Bool)
      → IsHeap heap mem (ws ++ x ∷ ys)
      → Span mem heap.memory 0 ws k u
      → LastOnly zs
      → IsRun step mem k u zs (heap.memory + heap.size)
      → (mem' : Words) × (step mem ≡ some (true, mem')) × IsHeap heap mem' (ws ++ zs)
  freed-with ws zs x ys k u step h left l r = (
    r.after,
    r.returns,
    replaced-IsHeap heap mem r.after ws x ys zs k u r.end_size h left l r.span
        (λ w lt. r.others w (inl lt)),
  )

  -- The call when the block is taken, for each state of the block before it.
  given_back :
      (ws : List Block) (x b : Block) (ys : List Block) (k u t : ℕ)
      → IsHeap heap mem (ws ++ x ∷ b ∷ ys)
      → Span mem heap.memory 0 ws k u
      → Span mem k u (x ∷ b ∷ ys) (heap.memory + heap.size) t
      → b.taken ≡ true
      → (mem' : Words) × (release
            (k + 8 + x.size)
            k
            (next_place (k + 8 + x.size + 8 + b.size) ys)
            mem
          ≡ some (true, mem'))
        × IsHeap heap mem' (ws ++ give_back (x ∷ []) b ys)
  given_back ws x b ys k u t h left right taken =
      let start = Span-end mem heap.memory 0 ws k u left in
      let l = LastOnly-tail ws x (b ∷ ys) h.marked in
      let n = k + 8 + x.size + 8 + b.size in
      let step = release (k + 8 + x.size) k (next_place n ys) in
      elim (Bool-cases x.taken) [
        | inl held ↦ simp (held) (
            freed-with ws (x ∷ absorb (freed b) ys) x (b ∷ ys) k u step h left
              (cons-LastOnly x (absorb (freed b) ys) l.0
                (absorb-LastOnly (freed b) ys (freed-LastOnly b ys l.1)))
              (release_behind_taken-IsRun mem k u x b ys (heap.memory + heap.size) t n right l taken
                held refl (omega (arith, h.high)) (omega (arith, start, h.low))))
        | inr free ↦ simp (free) (
            freed-with ws (absorb (fuse x (freed b)) ys) x (b ∷ ys) k u step h left
              (absorb-LastOnly (fuse x (freed b)) ys (fuse-LastOnly x b ys l.1))
              (release_behind_free-IsRun mem k u x b ys (heap.memory + heap.size) t n right l taken
                free refl (omega (arith, h.high)) (omega (arith, start, h.low))))
      ]

  IsFreed-behind :
      (ws : List Block) (x b : Block) (ys : List Block) (adr : ℕ)
      → IsHeap heap mem (ws ++ x ∷ b ∷ ys)
      → adr ≡ heap.memory + bytes ws + 8 + x.size + 8
      → (mem' : Words) × (heap_free heap adr mem ≡ some (b.taken, mem'))
        × IsHeap heap mem' (ws ++ (if b.taken then give_back (x ∷ []) b ys else x ∷ b ∷ ys))
  IsFreed-behind ws x b ys adr h e =
      let (k, u, left, right) =
        Span-append mem heap.memory 0 ws (x ∷ b ∷ ys) (heap.memory + heap.size) h.end_size h.span in
      let start = Span-end mem heap.memory 0 ws k u left in
      let lo : heap.memory ≤ k = omega (arith, start) in
      let l = LastOnly-tail ws x (b ∷ ys) h.marked in
      let m = k + 8 + x.size in
      let n = m + 8 + b.size in
      let run =
        free-run heap mem m k adr b ys x.size h.end_size
          (IsFound-behind heap mem k u x b ys h.end_size right lo h.high) right.3 l.1 h.high
          (omega (arith, e, start)) in
      elim (Bool-cases b.taken) [
        | inl taken ↦
            let (mem', step, kept) = given_back ws x b ys k u h.end_size h left right taken in
            simp (taken) (mem', run ∙ ap (choice m k n ys) taken ∙ step, kept)
        | inr free ↦ simp (free) (mem, run ∙ ap (choice m k n ys) free, h)
      ]

-- The last of some blocks.
snoc : (x : Block) (xs : List Block) → (ws : List Block) × (l : Block) × (x ∷ xs ≡ ws ++ l ∷ [])
snoc x [] = ([], x, refl)
snoc x (y ∷ ys) = let (ws, l, e) = snoc y ys in (x ∷ ws, l, ap (λ zs. x ∷ zs) e)

append-snoc : (ws : List Block) (l : Block) (zs : List Block) → (ws ++ l ∷ []) ++ zs ≡ ws ++ l ∷ zs
append-snoc [] l zs = refl
append-snoc (w ∷ ws) l zs = ap (λ xs. w ∷ xs) (append-snoc ws l zs)

bytes-snoc : (ws : List Block) (l : Block) → bytes (ws ++ l ∷ []) ≡ bytes ws + 8 + l.size
bytes-snoc [] l = omega arith
bytes-snoc (w ∷ ws) l = omega (arith, bytes-snoc ws l)

give_back-snoc :
    (ws : List Block) (x b : Block) (ys : List Block)
    → give_back (ws ++ x ∷ []) b ys ≡ ws ++ give_back (x ∷ []) b ys
give_back-snoc [] x b ys = refl
give_back-snoc (w ∷ []) x b ys = refl
give_back-snoc (w ∷ v ∷ ws) x b ys = ap (λ xs. w ∷ xs) (give_back-snoc (v ∷ ws) x b ys)

choose_append :
    (t : Bool) (ws us vs : List Block)
    → ws ++ (if t then us else vs) ≡ (if t then ws ++ us else ws ++ vs)
choose_append true ws us vs = refl
choose_append false ws us vs = refl

-- In a heap of blocks, `heap_free` of the address behind the marker of a taken block gives true, and
-- memory is a heap in which this block is free and one with the free blocks next to it. For a free
-- block it gives false and the blocks stay the same.
pub heap_free-IsHeap :
    (heap : Heap) (mem : Words) (xs : List Block) (b : Block) (ys : List Block)
    → IsHeap heap mem (xs ++ b ∷ ys)
    → (mem' : Words) × (heap_free heap (heap.memory + bytes xs + 8) mem ≡ some (b.taken, mem'))
      × IsHeap heap mem' (if b.taken then give_back xs b ys else xs ++ b ∷ ys)
heap_free-IsHeap heap mem [] b ys h =
    let start : heap.memory + 0 + 8 ≡ heap.memory + 8 = omega arith in
    rw start (IsFreed-first heap mem b ys h)
heap_free-IsHeap heap mem (x ∷ xs) b ys h =
    let (ws, l, e) = snoc x xs in
    let whole : (x ∷ xs) ++ b ∷ ys ≡ ws ++ l ∷ b ∷ ys =
      ap (λ zs. zs ++ b ∷ ys) e ∙ append-snoc ws l (b ∷ ys) in
    let place : heap.memory + bytes (x ∷ xs) + 8 ≡ heap.memory + bytes ws + 8 + l.size + 8 =
      omega (arith, ap bytes e, bytes-snoc ws l) in
    let (mem', run, kept) =
      IsFreed-behind heap mem ws l b ys (heap.memory + bytes (x ∷ xs) + 8)
        (subst (IsHeap heap mem) whole h) place in
    let back : give_back (x ∷ xs) b ys ≡ ws ++ give_back (l ∷ []) b ys =
      ap (λ zs. give_back zs b ys) e ∙ give_back-snoc ws l b ys in
    (
      mem',
      run,
      subst (IsHeap heap mem')
          (choose_append b.taken ws (give_back (l ∷ []) b ys) (l ∷ b ∷ ys)
            ∙ ap (λ zs. if b.taken then zs else ws ++ l ∷ b ∷ ys) (sym back)
            ∙ ap (λ zs. if b.taken then give_back (x ∷ xs) b ys else zs) (sym whole))
          kept,
    )
