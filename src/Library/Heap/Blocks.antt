-- ===== src/Library/Heap/Blocks.antt =====
-- The blocks of a heap as a list: what stands in their markers, and where the markers are.
use sth.Base.{
  ℕ, ◌+◌, ◌*◌, ◌/◌, ◌%◌, ◌^◌, ◌≤◌, ◌<◌, ◌≡◌, refl, arith, Bool, true, false, not, if◌then◌else◌,
  List, [], ◌∷◌, ◌++◌, bit_and, bit_or, bit_and_split, bit_or_split, bit_and_mask, bit_and-zero,
  bit_or-zero, zero-bit_or, ◌==◌, ◌∙◌,
}
use sth.Library.Words.{Words}
use sth.Library.Heap.{Heap, size_of, is_taken, mask_last, mask_flags, mask_size}

pub record Block : Type 0 where
  pub size : ℕ
  pub taken : Bool
  pub last : Bool

-- The flags, and the whole first word of the marker.
abbrev pub flags : Block → ℕ
flags b = (if b.taken then 1 else 0) + (if b.last then 2 else 0)

abbrev pub word : Block → ℕ
word b = b.size + flags b

-- Sizes are counted in markers.
pub record IsBlock (b : Block) : Type 0 where
  pub whole : b.size % 8 ≡ 0
  pub small : b.size + 8 < 2 ^ 32

-- The markers from `p` to `q` are those of the blocks; the block before them has the size `s`, and
-- the last one of all has the size `t`.
abbrev pub Span : Words → (p s : ℕ) (bs : List Block) (q t : ℕ) → Type 0
Span mem p s [] q t = (p ≡ q) × (s ≡ t)
Span mem p s (b ∷ bs) q t =
    IsBlock b × (mem p ≡ word b) × (mem (p + 4) ≡ s) × Span mem (p + 8 + b.size) b.size bs q t

abbrev pub bytes : List Block → ℕ
bytes [] = 0
bytes (b ∷ bs) = 8 + b.size + bytes bs

-- The last block, and no other, has the flag.
abbrev pub LastOnly : List Block → Type 0
LastOnly [] = ⊥
LastOnly (b ∷ []) = b.last ≡ true
LastOnly (b ∷ c ∷ bs) = (b.last ≡ false) × LastOnly (c ∷ bs)

pub record IsHeap (heap : Heap) (mem : Words) (bs : List Block) : Type 0 where
  pub end_size : ℕ
  pub span : Span mem heap.memory 0 bs (heap.memory + heap.size) end_size
  pub marked : LastOnly bs
  pub low : 8 ≤ heap.memory
  pub high : heap.memory + 8 * heap.size < 2 ^ 32

pub Span-end :
    (mem : Words) (p s : ℕ) (bs : List Block) (q t : ℕ) → Span mem p s bs q t → q ≡ p + bytes bs
Span-end mem p s [] q t (e, _) = omega arith
Span-end mem p s (b ∷ bs) q t (ok, at, prev, rest) =
    omega (arith, Span-end mem (p + 8 + b.size) b.size bs q t rest)

pub Span-agree :
    (mem mem' : Words) (p s : ℕ) (bs : List Block) (q t : ℕ)
    → ((w : ℕ) → p ≤ w → w < q → mem' w ≡ mem w)
    → Span mem p s bs q t
    → Span mem' p s bs q t
Span-agree mem mem' p s [] q t h sp = sp
Span-agree mem mem' p s (b ∷ bs) q t h (ok, at, prev, rest) =
    let end = Span-end mem (p + 8 + b.size) b.size bs q t rest in
    (
      ok,
      h p (omega arith) (omega (arith, end)) ∙ at,
      h (p + 4) (omega arith) (omega (arith, end)) ∙ prev,
      Span-agree mem mem' (p + 8 + b.size) b.size bs q t (λ w lo hi. h w (omega arith) hi) rest,
    )

pub Span-append :
    (mem : Words) (p s : ℕ) (xs ys : List Block) (q t : ℕ)
    → Span mem p s (xs ++ ys) q t
    → (m : ℕ) × (u : ℕ) × Span mem p s xs m u × Span mem m u ys q t
Span-append mem p s [] ys q t sp = (p, s, (refl, refl), sp)
Span-append mem p s (x ∷ xs) ys q t (ok, at, prev, rest) =
    let (m, u, left, right) = Span-append mem (p + 8 + x.size) x.size xs ys q t rest in
    (m, u, (ok, at, prev, left), right)

pub append-Span :
    (mem : Words) (p s : ℕ) (xs ys : List Block) (m u q t : ℕ)
    → Span mem p s xs m u
    → Span mem m u ys q t
    → Span mem p s (xs ++ ys) q t
append-Span mem p s [] ys m u q t (e, e') right = rw (e, e') right
append-Span mem p s (x ∷ xs) ys m u q t (ok, at, prev, rest) right =
    (ok, at, prev, append-Span mem (p + 8 + x.size) x.size xs ys m u q t rest right)

flags-small : (t l : Bool) → (if t then 1 else 0) + (if l then 2 else 0) < 4
flags-small t l = ground arith

clear_flags : (s f : ℕ) → s % 8 ≡ 0 → s + 8 < 2 ^ 32 → f < 4 → size_of (s + f) ≡ s
clear_flags s f whole small l =
    let high = bit_and_mask 30 ((s + f) / 4) in
    let low = bit_and-zero ((s + f) % 4) in
    bit_and_split 2 (s + f) mask_size ∙ omega (arith, high, low)

-- The parts of a word.
pub size_of-word : (b : Block) → IsBlock b → size_of (word b) ≡ b.size
size_of-word b ok = by_flags b.taken b.last
  where
    by_flags :
        (t l : Bool) → size_of (b.size + ((if t then 1 else 0) + (if l then 2 else 0))) ≡ b.size
    by_flags t l =
        clear_flags b.size ((if t then 1 else 0) + (if l then 2 else 0)) ok.whole ok.small
          (flags-small t l)

pub is_taken-word : (b : Block) → IsBlock b → is_taken (word b) ≡ b.taken
is_taken-word b ok = by_flags b.taken b.last (bit_and_mask 1 (word b))
  where
    by_flags :
        (t l : Bool)
        → bit_and (b.size + ((if t then 1 else 0) + (if l then 2 else 0))) 1
          ≡ (b.size + ((if t then 1 else 0) + (if l then 2 else 0))) % 2
        → is_taken (b.size + ((if t then 1 else 0) + (if l then 2 else 0))) ≡ t
    by_flags t l e = ground (arith, e, ok.whole)

pub is_last-word : (b : Block) → IsBlock b → not (bit_and (word b) mask_last == 0) ≡ b.last
is_last-word b ok = by_flags b.taken b.last (second_bit (word b))
  where
    second_bit : (w : ℕ) → bit_and w 2 ≡ w / 2 % 2 * 2
    second_bit w = bit_and_split 1 w 2 ∙ omega (arith, bit_and_mask 1 (w / 2), bit_and-zero (w % 2))

    by_flags :
        (t l : Bool)
        → bit_and (b.size + ((if t then 1 else 0) + (if l then 2 else 0))) 2
          ≡ (b.size + ((if t then 1 else 0) + (if l then 2 else 0))) / 2 % 2 * 2
        → not (bit_and (b.size + ((if t then 1 else 0) + (if l then 2 else 0))) 2 == 0) ≡ l
    by_flags t l e = ground (arith, e, ok.whole)

pub flags-word : (b : Block) → IsBlock b → bit_and (word b) mask_flags ≡ flags b
flags-word b ok = bit_and_mask 2 (word b) ∙ ground (arith, ok.whole)

pub or_flags : (s f : ℕ) → s % 8 ≡ 0 → f < 4 → bit_or s f ≡ s + f
or_flags s f h l =
    let no_high : f / 2 ^ 2 ≡ 0 = omega arith in
    let low : f % 2 ^ 2 ≡ f = omega arith in
    let no_low : s % 2 ^ 2 ≡ 0 = omega arith in
    bit_or_split 2 s f ∙ rw (no_high, no_low, low, bit_or-zero (s / 4), zero-bit_or f) (omega arith)
