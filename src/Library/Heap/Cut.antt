-- ===== src/Library/Heap/Cut.antt =====
-- A block is taken, and the rest of it split off.
use sth.Base.{
  ℕ, ◌+◌, ◌-◌, ◌/◌, ◌%◌, ◌^◌, ◌≤◌, ◌<◌, ◌≡◌, ◌≢◌, refl, arith, Bool, true, false, if◌then◌else◌,
  List, [], ◌∷◌, ◌++◌, sym, ◌∙◌, u32, bit_and, bit_or, ◌⊎◌, inl, update, some, bit_or_split,
  bit_or-zero, zero-bit_or, bit_and_mask, ltb, sub32, ne→==, eq→==,
}
use sth.Library.Words.{Words}
use sth.Library.Heap.{record_size, heap_marker_split, take, mask_flags, mask_taken}
use sth.Library.Heap.Blocks.{
  Block, word, IsBlock, Span, LastOnly, Span-agree, Span-end, size_of-word, flags-word, or_flags,
}
use sth.Library.Heap.Record.{record_size-Span}

or_one : (w : ℕ) → w % 2 ≡ 0 → bit_or w 1 ≡ w + 1
or_one w even = bit_or_split 1 w 1 ∙ rw (even, bit_or-zero (w / 2), zero-bit_or 1) (omega arith)

abbrev pub first_cut : ℕ → Block
first_cut size = record { size = size; taken = true; last = false }

abbrev pub behind_cut : (size : ℕ) → Block → Block
behind_cut size b = record { size = b.size - size - 8; taken = false; last = b.last }

-- What a block of which `size` bytes are taken becomes.
abbrev pub cut : (size : ℕ) → Block → List Block
cut size b =
    if ltb 8 (b.size - size)
    then first_cut size ∷ behind_cut size b ∷ []
    else record b { taken = true } ∷ []

-- The flag of a free block is set.
or_taken :
    (b : Block)
    → IsBlock b
    → b.taken ≡ false
    → bit_or (word b) mask_taken ≡ b.size + (1 + (if b.last then 2 else 0))
or_taken b ok free = rw free (by_flag b.last)
  where
    by_flag :
        (l : Bool)
        → bit_or (b.size + (0 + (if l then 2 else 0))) 1 ≡ b.size + (1 + (if l then 2 else 0))
    by_flag l =
        or_one (b.size + (0 + (if l then 2 else 0))) (ground (arith, ok.whole)) ∙ omega arith

-- The last block stays the last one.
LastOnly-behind :
    (b c : Block) (bs : List Block) → b.last ≡ c.last → LastOnly (b ∷ bs) → LastOnly (c ∷ bs)
LastOnly-behind b c [] e l = sym e ∙ l
LastOnly-behind b c (d ∷ bs) e (l, ls) = (sym e ∙ l, ls)

cut_word :
    (size : ℕ) (b : Block)
    → IsBlock b
    → b.taken ≡ false
    → size % 8 ≡ 0
    → 8 < b.size - size
    → bit_or (sub32 (b.size - size) 8) (bit_and (word b) mask_flags) ≡ word (behind_cut size b)
cut_word size b ok free whole more =
    let left : sub32 (b.size - size) 8 ≡ b.size - size - 8 = omega (arith, ok.small) in
    rw (left, flags-word b ok, free)
      (or_flags (b.size - size - 8) (0 + (if b.last then 2 else 0)) (omega (arith, ok.whole))
        (ground arith))

head_word :
    (size : ℕ) (b : Block)
    → IsBlock b
    → b.taken ≡ false
    → bit_or size (bit_and (word b) mask_taken) ≡ size
head_word size b ok free = rw (bit_and_mask 1 (word b), even) (bit_or-zero size)
  where
    by_flag : (l : Bool) → (b.size + (0 + (if l then 2 else 0))) % 2 ≡ 0
    by_flag l = ground (arith, ok.whole)

    even : word b % 2 ≡ 0
    even = rw free (by_flag b.last)

-- Memory when the marker of the second part is written.
abbrev split_memory : Words → (p size : ℕ) → Block → Words
split_memory mem p size b =
    update
      (update
        (update mem (p + 8 + size) (bit_or (sub32 (b.size - size) 8) (bit_and (word b) mask_flags)))
        p (bit_or size (bit_and (word b) mask_taken)))
      (p + 8 + size + 4) size

split_run :
    (mem : Words) (p size : ℕ) (b : Block) (mem4 : Words)
    → IsBlock b
    → mem p ≡ word b
    → sub32 b.size size ≡ b.size - size
    → u32 (size + 8 + p) ≡ p + 8 + size
    → ltb 8 (b.size - size) ≡ true
    → record_size (p + 8 + size) (split_memory mem p size b) ≡ some (tt, mem4)
    → take p size mem ≡ some (u32 (p + 8), update mem4 p (bit_or (mem4 p) mask_taken))
unfolding heap_marker_split
split_run mem p size b mem4 ok at remain place room run =
    rw (at, size_of-word b ok, remain, place, room) (rw run refl)

module _ (mem : Words) (p s size : ℕ) (b : Block) (bs : List Block) (q t : ℕ) where
  -- The first block of a span is taken.
  pub record IsTaken (cs : List Block) (mem' : Words) : Type 0 where
    pub end_size : ℕ
    pub span : Span mem' p s (cs ++ bs) q end_size
    pub marked : LastOnly (cs ++ bs)
    pub others : (w : ℕ) → (w < p) ⊎ (q ≤ w) → mem' w ≡ mem w

  pub split-room :
      IsBlock b
      → mem p ≡ word b
      → mem (p + 4) ≡ s
      → LastOnly (b ∷ bs)
      → Span mem (p + 8 + b.size) b.size bs q t
      → b.taken ≡ false
      → size % 8 ≡ 0
      → size ≤ b.size
      → ltb 8 (b.size - size) ≡ true
      → q < 2 ^ 32
      → 0 < p
      → (mem' : Words) × (take p size mem ≡ some (u32 (p + 8), mem'))
        × IsTaken (first_cut size ∷ behind_cut size b ∷ []) mem'
  split-room ok at prev l rest free whole le room w h =
      let end = Span-end mem (p + 8 + b.size) b.size bs q t rest in
      let more : 8 < b.size - size = ground arith in
      let remain : sub32 b.size size ≡ b.size - size = omega (arith, ok.small) in
      let place : u32 (size + 8 + p) ≡ p + 8 + size = omega (arith, end) in
      let c_ok : IsBlock (behind_cut size b) = record {
        whole = omega (arith, ok.whole);
        small = omega (arith, ok.small);
      } in
      let mem3 = split_memory mem p size b in
      let kept : (w : ℕ) → w ≢ p → w ≢ p + 8 + size → w ≢ p + 8 + size + 4 → mem3 w ≡ mem w =
        λ w n1 n2 n3.
          rw (ne→== w (p + 8 + size + 4) n3, ne→== w p n1, ne→== w (p + 8 + size) n2) refl in
      let here : p + 8 + size + 8 + (b.size - size - 8) ≡ p + 8 + b.size = omega arith in
      let behind : Span mem3 (p + 8 + size + 8 + (b.size - size - 8)) b.size bs q t = rw here (
        Span-agree mem mem3 (p + 8 + b.size) b.size bs q t
          (λ w lo hi. kept w (omega arith) (omega arith) (omega arith)) rest) in
      let c_word : mem3 (p + 8 + size) ≡ word (behind_cut size b) =
        rw
          (
            ne→== (p + 8 + size) (p + 8 + size + 4) (omega arith),
            ne→== (p + 8 + size) p (omega arith),
            eq→== (p + 8 + size) (p + 8 + size) refl,
          )
          (cut_word size b ok free whole more) in
      let c_prev : mem3 (p + 8 + size + 4) ≡ size =
        rw (eq→== (p + 8 + size + 4) (p + 8 + size + 4) refl) refl in
      let (mem4, t', run, span, same) =
        record_size-Span mem3 (p + 8 + size) size (behind_cut size b) bs q t b.size c_ok c_word
          c_prev (LastOnly-behind b (behind_cut size b) bs refl l) behind w (omega arith) in
      let head : mem4 p ≡ size =
        same p (inl (omega arith))
        ∙ rw (ne→== p (p + 8 + size + 4) (omega arith), eq→== p p refl)
            (head_word size b ok free) in
      let mem5 = update mem4 p (bit_or (mem4 p) mask_taken) in
      let other : (w : ℕ) → w ≢ p → mem5 w ≡ mem4 w = λ w ne. rw (ne→== w p ne) refl in
      (
        mem5,
        split_run mem p size b mem4 ok at remain place room run,
        record {
          end_size = t';
          span = (
            record { whole = whole; small = omega (arith, ok.small) },
            rw (eq→== p p refl, head) (or_one size (omega arith) ∙ omega arith),
            other (p + 4) (omega arith)
                ∙ same (p + 4) (inl (omega arith))
                ∙ kept (p + 4) (omega arith) (omega arith) (omega arith)
                ∙ prev,
            Span-agree mem4 mem5 (p + 8 + size) size (behind_cut size b ∷ bs) q t'
                (λ w lo hi. other w (omega arith)) span,
          );
          marked = (refl, LastOnly-behind b (behind_cut size b) bs refl l);
          others = λ w out.
              other w (omega (arith, end, out))
              ∙ same w (ground (arith, end, out))
              ∙ kept w (omega (arith, end, out)) (omega (arith, end, out))
                  (omega (arith, end, out));
        },
      )

  pub take-whole :
      IsBlock b
      → mem p ≡ word b
      → mem (p + 4) ≡ s
      → LastOnly (b ∷ bs)
      → Span mem (p + 8 + b.size) b.size bs q t
      → b.taken ≡ false
      → size ≤ b.size
      → ltb 8 (b.size - size) ≡ false
      → (mem' : Words) × (take p size mem ≡ some (u32 (p + 8), mem'))
        × IsTaken (record b { taken = true } ∷ []) mem'
  unfolding heap_marker_split
  take-whole ok at prev l rest free le full =
      let end = Span-end mem (p + 8 + b.size) b.size bs q t rest in
      let same : sub32 b.size size ≡ b.size - size = omega (arith, ok.small) in
      let taken_word : bit_or (word b) mask_taken ≡ b.size + (1 + (if b.last then 2 else 0)) =
        or_taken b ok free in
      let mem' = update mem p (bit_or (word b) mask_taken) in
      let other : (w : ℕ) → w ≢ p → mem' w ≡ mem w = λ w ne. rw (ne→== w p ne) refl in
      (
        mem',
        rw (at, size_of-word b ok, same, full, at) refl,
        record {
          end_size = t;
          span = (
            record { whole = ok.whole; small = ok.small },
            rw (eq→== p p refl) taken_word,
            other (p + 4) (omega arith) ∙ prev,
            Span-agree mem mem' (p + 8 + b.size) b.size bs q t (λ w lo hi. other w (omega arith))
                rest,
          );
          marked = LastOnly-behind b (record b { taken = true }) bs refl l;
          others = λ w out. other w (omega (arith, end, out));
        },
      )
