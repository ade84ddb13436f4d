-- ===== src/Library/Heap/Extent.antt =====
-- How far the allocated blocks of a heap reach.
use sth.Base.{
  ℕ, ◌+◌, ◌-◌, ◌≤◌, ◌<◌, ◌≡◌, ◌≢◌, refl, arith, true, false, List, [], ◌∷◌, ◌==◌, ◌∙◌, ap,
  Bool-cases, inl, inr, ne→==, update,
}
use sth.Library.Words.{Words}
use sth.Library.Heap.{size_of}
use sth.Library.Heap.Blocks.{Block, Span, Span-end, Span-agree, size_of-word}
use sth.Library.Heap.Owned.{owned, owned-bounds}

-- A taken block at an address, and where it ends.
pub record IsOwned (mem : Words) (p q a : ℕ) : Type 0 where
  pub first : p + 8 ≤ a
  pub last : a + size_of (mem (a - 8)) ≤ q

pub block_size :
    (mem : Words) (p s : ℕ) (b : Block) (bs : List Block) (q t a : ℕ)
    → Span mem p s (b ∷ bs) q t
    → p + 8 ≡ a
    → size_of (mem (a - 8)) ≡ b.size
block_size mem p s b bs q t a (ok, at, prev, rest) here =
    let back : a - 8 ≡ p = omega arith in
    ap (λ k. size_of (mem k)) back ∙ ap size_of at ∙ size_of-word b ok

pub owned-IsOwned :
    (mem : Words) (p s : ℕ) (bs : List Block) (q t a : ℕ)
    → Span mem p s bs q t
    → owned p bs a ≡ true
    → IsOwned mem p q a
owned-IsOwned mem p s [] q t a sp h = absurd (ground arith)
owned-IsOwned mem p s (b ∷ bs) q t a (ok, at, prev, rest) h =
    elim (Bool-cases (owned (p + 8 + b.size) bs a)) [
      | inl there ↦
          let later = owned-IsOwned mem (p + 8 + b.size) b.size bs q t a rest there in
          record { first = omega (arith, later.first); last = later.last }
      | inr elsewhere ↦
          let here : p + 8 ≡ a = ground arith in
          let size = block_size mem p s b bs q t a (ok, at, prev, rest) here in
          let end = Span-end mem (p + 8 + b.size) b.size bs q t rest in
          record { first = omega arith; last = omega (arith, size, end) }
    ]

-- Of two taken blocks the first one ends before the marker of the second.
pub owned-apart :
    (mem : Words) (p s : ℕ) (bs : List Block) (q t a c : ℕ)
    → Span mem p s bs q t
    → owned p bs a ≡ true
    → owned p bs c ≡ true
    → a < c
    → a + size_of (mem (a - 8)) + 8 ≤ c
owned-apart mem p s [] q t a c sp h h' lt = absurd (ground arith)
owned-apart mem p s (b ∷ bs) q t a c (ok, at, prev, rest) h h' lt =
    elim (Bool-cases (owned (p + 8 + b.size) bs a)) [
      | inl there ↦
          let (lo, hi) = owned-bounds (p + 8 + b.size) bs a there in
          let other : (p + 8 == c) ≡ false = ne→== (p + 8) c (omega arith) in
          owned-apart mem (p + 8 + b.size) b.size bs q t a c rest there (ground (arith, other)) lt
      | inr elsewhere ↦
          let here : p + 8 ≡ a = ground arith in
          let other : (p + 8 == c) ≡ false = ne→== (p + 8) c (omega arith) in
          let size = block_size mem p s b bs q t a (ok, at, prev, rest) here in
          let (lo, hi) = owned-bounds (p + 8 + b.size) bs c (ground (arith, other)) in
          omega (arith, size)
    ]

-- A write into a taken block leaves the markers.
pub Span-write :
    (mem : Words) (p s : ℕ) (bs : List Block) (q t a w v : ℕ)
    → Span mem p s bs q t
    → owned p bs a ≡ true
    → a ≤ w
    → w < a + size_of (mem (a - 8))
    → Span (update mem w v) p s bs q t
Span-write mem p s [] q t a w v sp h lo hi = sp
Span-write mem p s (b ∷ bs) q t a w v (ok, at, prev, rest) h lo hi =
    let (from, up) = owned-bounds p (b ∷ bs) a h in
    let other : (k : ℕ) → k ≢ w → update mem w v k ≡ mem k = λ k ne. rw (ne→== k w ne) refl in
    (
      ok,
      other p (omega (arith, from, lo)) ∙ at,
      other (p + 4) (omega (arith, from, lo)) ∙ prev,
      elim (Bool-cases (owned (p + 8 + b.size) bs a)) [
        | inl there ↦ Span-write mem (p + 8 + b.size) b.size bs q t a w v rest there lo hi
        | inr elsewhere ↦
            let here : p + 8 ≡ a = ground arith in
            let size = block_size mem p s b bs q t a (ok, at, prev, rest) here in
            Span-agree mem (update mem w v) (p + 8 + b.size) b.size bs q t
              (λ k from up. other k (omega (arith, size))) rest
      ],
    )
