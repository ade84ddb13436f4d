-- ===== src/Library/Heap/Join.antt =====
-- Two free blocks that follow each other become one.
use sth.Base.{
  ℕ, ◌+◌, ◌*◌, ◌/◌, ◌%◌, ◌^◌, ◌≤◌, ◌<◌, ◌≡◌, ◌≢◌, refl, arith, Bool, false, if◌then◌else◌, List, [],
  ◌∷◌, ◌∙◌, u32, bit_and, bit_or, bit_and_split, bit_and_mask, bit_and-zero, bit_at-or, ◌⊎◌, some,
  update, ne→==, eq→==,
}
use sth.Library.Words.{Words}
use sth.Library.Heap.{is_taken, size_of, mask_last, record_size, heap_marker_join}
use sth.Library.Heap.Blocks.{
  Block, word, IsBlock, Span, LastOnly, Span-agree, Span-end, size_of-word, or_flags,
}
use sth.Library.Heap.Chain.{next_marker-more}
use sth.Library.Heap.Record.{record_size-Span}

abbrev pub fuse : Block → Block → Block
fuse x y = record { size = x.size + 8 + y.size; taken = false; last = y.last }

last_bit : (y : Block) → IsBlock y → bit_and (word y) mask_last ≡ (if y.last then 2 else 0)
last_bit y ok =
    bit_and_split 1 (word y) 2
    ∙ by_flags y.taken y.last (bit_and_mask 1 (word y / 2)) (bit_and-zero (word y % 2))
  where
    by_flags :
        (t l : Bool)
        → bit_and ((y.size + ((if t then 1 else 0) + (if l then 2 else 0))) / 2) 1
          ≡ (y.size + ((if t then 1 else 0) + (if l then 2 else 0))) / 2 % 2
        → bit_and ((y.size + ((if t then 1 else 0) + (if l then 2 else 0))) % 2) 0 ≡ 0
        → bit_and ((y.size + ((if t then 1 else 0) + (if l then 2 else 0))) / 2) 1 * 2
            + bit_and ((y.size + ((if t then 1 else 0) + (if l then 2 else 0))) % 2) 0
          ≡ (if l then 2 else 0)
    by_flags t l e e' = ground (arith, e, e', ok.whole)

pub word-even : (x : Block) → IsBlock x → x.taken ≡ false → word x % 2 ≡ 0
word-even x ok free = rw free (by_flag x.last)
  where
    by_flag : (l : Bool) → (x.size + (0 + (if l then 2 else 0))) % 2 ≡ 0
    by_flag l = ground (arith, ok.whole)

both_free :
    (x y : Block)
    → IsBlock x
    → IsBlock y
    → x.taken ≡ false
    → y.taken ≡ false
    → is_taken (bit_or (word x) (word y)) ≡ false
both_free x y ok ok' free free' =
    let even = word-even x ok free in
    let even' = word-even y ok' free' in
    let low : bit_and (bit_or (word x) (word y)) 1 ≡ 0 =
      omega (arith, bit_and_mask 1 (bit_or (word x) (word y)), bit_at-or 0 (word x) (word y)) in
    rw low refl

-- Memory when the marker of the whole block is written.
abbrev joined_memory : Words → (p : ℕ) (x y : Block) → Words
joined_memory mem p x y = update mem p (word (fuse x y))

join_run :
    (mem : Words) (p : ℕ) (x y : Block) (mem2 : Words)
    → IsBlock x
    → IsBlock y
    → x.taken ≡ false
    → y.taken ≡ false
    → x.last ≡ false
    → mem p ≡ word x
    → mem (p + 8 + x.size) ≡ word y
    → p + 8 + x.size < 2 ^ 32
    → x.size + 8 + y.size < 2 ^ 32
    → record_size p (joined_memory mem p x y) ≡ some (tt, mem2)
    → heap_marker_join p (p + 8 + x.size) mem
      ≡ some
          (tt, update (update mem2 (p + 8 + x.size + 4) 0xffff_ffff) (p + 8 + x.size) 0xffff_ffff)
unfolding heap_marker_join
join_run mem p x y mem2 ok ok' free free' more at at' w w' run =
    let next = next_marker-more mem p x ok at more w in
    rw
      (next, at, at', eq→== (p + 8 + x.size) (p + 8 + x.size) refl, both_free x y ok ok' free free')
      (rw (value, run) refl)
  where
    sum : u32 (x.size + (0 + 0) + (y.size + 8)) ≡ x.size + 8 + y.size
    sum = omega arith

    by_flag :
        (l : Bool)
        → bit_or (x.size + 8 + y.size) (if l then 2 else 0)
          ≡ x.size + 8 + y.size + (0 + (if l then 2 else 0))
    by_flag l =
        or_flags (x.size + 8 + y.size) (if l then 2 else 0) (omega (arith, ok.whole, ok'.whole))
          (ground arith)
        ∙ omega arith

    value :
        bit_or (u32 (word x + (size_of (word y) + 8))) (bit_and (word y) mask_last)
        ≡ word (fuse x y)
    value = rw (size_of-word y ok', last_bit y ok', free, more) (rw sum (by_flag y.last))

module _ (mem : Words) (p s : ℕ) (x y : Block) (bs : List Block) (q t : ℕ) where
  -- Memory in which the two blocks are one.
  pub record IsJoined (mem' : Words) : Type 0 where
    pub end_size : ℕ
    pub span : Span mem' p s (fuse x y ∷ bs) q end_size
    pub others : (w : ℕ) → (w < p) ⊎ (q ≤ w) → mem' w ≡ mem w

  -- The words of the second marker do not matter any more.
  forget :
      (mem2 : Words) (t' : ℕ)
      → Span mem2 p s (fuse x y ∷ bs) q t'
      → ((w : ℕ) → (w < p) ⊎ (q ≤ w) → mem2 w ≡ mem w)
      → p + 8 + x.size + 8 ≤ q
      → IsJoined
          (update (update mem2 (p + 8 + x.size + 4) 0xffff_ffff) (p + 8 + x.size) 0xffff_ffff)
  forget mem2 t' (ok, at, prev, rest) same h =
      let mem4 =
        update (update mem2 (p + 8 + x.size + 4) 0xffff_ffff) (p + 8 + x.size) 0xffff_ffff in
      let other : (w : ℕ) → w ≢ p + 8 + x.size → w ≢ p + 8 + x.size + 4 → mem4 w ≡ mem2 w =
        λ w n n'. rw (ne→== w (p + 8 + x.size) n, ne→== w (p + 8 + x.size + 4) n') refl in
      record {
        end_size = t';
        span = (
          ok,
          other p (omega arith) (omega arith) ∙ at,
          other (p + 4) (omega arith) (omega arith) ∙ prev,
          Span-agree mem2 mem4 (p + 8 + (x.size + 8 + y.size)) (x.size + 8 + y.size) bs q t'
              (λ w lo hi. other w (omega arith) (omega arith)) rest,
        );
        others = λ w out. other w (omega (arith, out)) (omega (arith, out)) ∙ same w out;
      }

  -- Joining a free block with a free block behind it.
  pub heap_marker_join-IsJoined :
      Span mem p s (x ∷ y ∷ bs) q t
      → LastOnly (x ∷ y ∷ bs)
      → x.taken ≡ false
      → y.taken ≡ false
      → q < 2 ^ 32
      → 8 ≤ p
      → (mem' : Words) × (heap_marker_join p (p + 8 + x.size) mem ≡ some (tt, mem')) × IsJoined mem'
  heap_marker_join-IsJoined (ok, at, prev, (ok', at', prev', rest)) (more, l) free free' w h =
      let end = Span-end mem (p + 8 + x.size + 8 + y.size) y.size bs q t rest in
      let mem1 = joined_memory mem p x y in
      let other : (w : ℕ) → w ≢ p → mem1 w ≡ mem w = λ w ne. rw (ne→== w p ne) refl in
      let here : p + 8 + (x.size + 8 + y.size) ≡ p + 8 + x.size + 8 + y.size = omega arith in
      let (mem2, t', run, span, same) =
        record_size-Span mem1 p s (fuse x y) bs q t y.size
          (record { whole = omega (arith, ok.whole, ok'.whole); small = omega (arith, end) })
          (rw (eq→== p p refl) refl) (other (p + 4) (omega arith) ∙ prev) (fused bs l)
          (rw here (
            Span-agree mem mem1 (p + 8 + x.size + 8 + y.size) y.size bs q t
              (λ w lo hi. other w (omega arith)) rest))
          w (omega arith) in
      (
        update (update mem2 (p + 8 + x.size + 4) 0xffff_ffff) (p + 8 + x.size) 0xffff_ffff,
        join_run mem p x y mem2 ok ok' free free' more at at' (omega (arith, end))
            (omega (arith, end)) run,
        forget mem2 t' span (λ w out. same w out ∙ other w (omega (arith, end, out)))
            (omega (arith, end)),
      )
    where
      fused : (bs : List Block) → LastOnly (y ∷ bs) → LastOnly (fuse x y ∷ bs)
      fused [] l = l
      fused (z ∷ zs) l = l
