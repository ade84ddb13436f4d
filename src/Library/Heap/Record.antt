-- ===== src/Library/Heap/Record.antt =====
-- What record_size writes into the marker behind a block.
use sth.Base.{
  ℕ, ◌+◌, ◌^◌, ◌≤◌, ◌<◌, ◌≡◌, ◌≢◌, refl, arith, List, [], ◌∷◌, ◌∙◌, ◌⊎◌, update, some, ne→==, eq→==,
}
use sth.Library.Words.{Words}
use sth.Library.Heap.{record_size, heap_marker_next}
use sth.Library.Heap.BestFit.{next_marker}
use sth.Library.Heap.Blocks.{
  Block, word, IsBlock, Span, LastOnly, Span-agree, Span-end, size_of-word,
}
use sth.Library.Heap.Chain.{next_marker-last, next_marker-more}

-- The size of the block is recorded behind it, if it is not the last one.
pub record_size-Span :
    (mem : Words) (p s : ℕ) (b : Block) (bs : List Block) (q t u : ℕ)
    → IsBlock b
    → mem p ≡ word b
    → mem (p + 4) ≡ s
    → LastOnly (b ∷ bs)
    → Span mem (p + 8 + b.size) u bs q t
    → q < 2 ^ 32
    → 0 < p
    → (mem' : Words) × (t' : ℕ) × (record_size p mem ≡ some (tt, mem'))
      × Span mem' p s (b ∷ bs) q t'
      × ((w : ℕ) → (w < p) ⊎ (q ≤ w) → mem' w ≡ mem w)
unfolding heap_marker_next
record_size-Span mem p s b [] q t u ok at prev l (e, e') h h' =
    let end = next_marker-last mem p b ok at l in
    (
      mem,
      b.size,
      rw (eq→== (next_marker mem p) 0 end) refl,
      (ok, at, prev, (e, refl)),
      λ w out. refl,
    )
record_size-Span mem p s b (c ∷ bs) q t u ok at prev (l, ls) (okc, atc, prevc, rest) h h' =
    let m = p + 8 + b.size in
    let end = Span-end mem (m + 8 + c.size) c.size bs q t rest in
    let next = next_marker-more mem p b ok at l (omega (arith, end)) in
    let mem' = update mem (m + 4) b.size in
    let other : (w : ℕ) → w ≢ m + 4 → mem' w ≡ mem w = λ w ne. rw (ne→== w (m + 4) ne) refl in
    (
      mem',
      t,
      rw (next, ne→== m 0 (omega arith), at, size_of-word b ok) refl,
      (
        ok,
        other p (omega arith) ∙ at,
        other (p + 4) (omega arith) ∙ prev,
        (
          okc,
          other m (omega arith) ∙ atc,
          rw (eq→== (m + 4) (m + 4) refl) refl,
          Span-agree mem mem' (m + 8 + c.size) c.size bs q t (λ w lo hi. other w (omega arith))
              rest,
        ),
      ),
      λ w out. other w (omega (arith, end, out)),
    )
