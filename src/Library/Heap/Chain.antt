-- ===== src/Library/Heap/Chain.antt =====
-- Following the markers of a heap.
use sth.Base.{
  ℕ, suc, ◌+◌, ◌*◌, ◌/◌, ◌^◌, ◌<◌, ◌≡◌, refl, arith, true, false, List, [], ◌∷◌, ◌++◌, ◌==◌, ap,
  length, Bool-cases, inl, inr, ==→eq,
}
use sth.Library.Words.{Words}
use sth.Library.Heap.BestFit.{next_marker, Blocks}
use sth.Library.Heap.Blocks.{
  Block, word, IsBlock, Span, bytes, LastOnly, Span-end, size_of-word, is_last-word,
}
use sth.Library.LinkedList.Walk.{member}

pub next_marker-last :
    (mem : Words) (p : ℕ) (b : Block)
    → IsBlock b
    → mem p ≡ word b
    → b.last ≡ true
    → next_marker mem p ≡ 0
next_marker-last mem p b ok at l = rw (at, is_last-word b ok, l) refl

pub next_marker-more :
    (mem : Words) (p : ℕ) (b : Block)
    → IsBlock b
    → mem p ≡ word b
    → b.last ≡ false
    → p + 8 + b.size < 2 ^ 32
    → next_marker mem p ≡ p + 8 + b.size
next_marker-more mem p b ok at l h =
    let whole : 8 * (b.size / 8) ≡ b.size = omega (arith, ok.whole) in
    rw (at, size_of-word b ok, is_last-word b ok, l, whole) (omega arith)

-- Where the blocks from `p` on are.
abbrev pub places : (p : ℕ) → List Block → List ℕ
places p [] = []
places p (b ∷ bs) = p ∷ places (p + 8 + b.size) bs

pub length-places : (p : ℕ) (bs : List Block) → length (places p bs) ≡ length bs
length-places p [] = refl
length-places p (b ∷ bs) = ap suc (length-places (p + 8 + b.size) bs)

pub Span-Blocks :
    (mem : Words) (p s : ℕ) (bs : List Block) (q t : ℕ)
    → Span mem p s bs q t
    → LastOnly bs
    → 0 < p
    → q < 2 ^ 32
    → Blocks mem p (places p bs)
Span-Blocks mem p s [] q t sp l h w = absurd l
Span-Blocks mem p s (b ∷ []) q t (ok, at, prev, rest) l h w =
    (refl, (λ e. omega (arith, e)), next_marker-last mem p b ok at l)
Span-Blocks mem p s (b ∷ c ∷ bs) q t (ok, at, prev, rest) (l, ls) h w =
    let end = Span-end mem (p + 8 + b.size) b.size (c ∷ bs) q t rest in
    let next = next_marker-more mem p b ok at l (omega (arith, end)) in
    let later = Span-Blocks mem (p + 8 + b.size) b.size (c ∷ bs) q t rest ls (omega arith) w in
    (refl, (λ e. omega (arith, e)), rw next later)

-- The place of a block divides the blocks.
pub record At (p r : ℕ) (bs : List Block) : Type 0 where
  pub before : List Block
  pub block : Block
  pub behind : List Block
  pub whole : bs ≡ before ++ block ∷ behind
  pub place : r ≡ p + bytes before

pub member-At : (p r : ℕ) (bs : List Block) → member r (places p bs) ≡ true → At p r bs
member-At p r [] h = absurd (ground arith)
member-At p r (b ∷ bs) h = elim (Bool-cases (p == r)) [
  | inl here ↦ record {
    before = [];
    block = b;
    behind = bs;
    whole = refl;
    place = ground (arith, ==→eq p r here);
  }
  | inr other ↦
      let later = member-At (p + 8 + b.size) r bs (ground arith) in
      record {
        before = b ∷ later.before;
        block = later.block;
        behind = later.behind;
        whole = ap (λ xs. b ∷ xs) later.whole;
        place = omega (arith, later.place);
      }
]
