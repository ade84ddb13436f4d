-- ===== src/Library/Heap/Release.antt =====
-- What `release` does with the blocks around the one that is given back.
use sth.Base.{
  ℕ, ◌+◌, ◌*◌, ◌/◌, ◌%◌, ◌^◌, ◌≤◌, ◌<◌, ◌≡◌, ◌≢◌, refl, arith, Bool, true, false, not, ◌&&◌,
  if◌then◌else◌, List, [], ◌∷◌, ◌==◌, ◌∙◌, ap, not32, bit_and, bit_and_split, bit_and_mask,
  bit_and-zero, ◌⊎◌, inl, inr, some, update, ne→==, eq→==, Bool-cases,
}
use sth.Library.Words.{Words, Cmd, ◌>>=◌, ◌>>◌, pure, get}
use sth.Library.Heap.{is_taken, mask_taken, heap_marker_join, release}
use sth.Library.Heap.Blocks.{
  Block, word, IsBlock, Span, LastOnly, Span-agree, Span-end, is_taken-word,
}
use sth.Library.Heap.Join.{fuse, heap_marker_join-IsJoined}

abbrev pub freed : Block → Block
freed b = record b { taken = false }

-- A free block takes a free block behind it in.
abbrev pub absorb : Block → List Block → List Block
absorb b [] = b ∷ []
absorb b (y ∷ ys) = if y.taken then b ∷ y ∷ ys else fuse b y ∷ ys

-- A block is given back between `xs` and `ys`.
abbrev pub give_back : (xs : List Block) (b : Block) (ys : List Block) → List Block
give_back [] b ys = absorb (freed b) ys
give_back (x ∷ []) b ys = if x.taken then x ∷ absorb (freed b) ys else absorb (fuse x (freed b)) ys
give_back (x ∷ y ∷ xs) b ys = x ∷ give_back (y ∷ xs) b ys

-- The end of `release`.
abbrev finish : (first next : ℕ) → Cmd Bool
finish first next = do
  after ← get next
  if not (next == 0) && not (is_taken after) then heap_marker_join first next else pure tt
  pure true

-- Where the block behind is, 0 if there is none.
abbrev pub next_place : (n : ℕ) → List Block → ℕ
next_place n [] = 0
next_place n (y ∷ ys) = n

pub absorb-LastOnly : (b : Block) (ys : List Block) → LastOnly (b ∷ ys) → LastOnly (absorb b ys)
absorb-LastOnly b [] l = l
absorb-LastOnly b (y ∷ ys) (e, l) = by_test y.taken ys e l
  where
    by_test :
        (t : Bool) (ys : List Block)
        → b.last ≡ false
        → LastOnly (y ∷ ys)
        → LastOnly (if t then b ∷ y ∷ ys else fuse b y ∷ ys)
    by_test true ys e l = (e, l)
    by_test false [] e l = l
    by_test false (z ∷ zs) e l = l

-- The blocks from `p` on after a call that gives `true`.
pub record IsRun (run : Cmd Bool) (mem : Words) (p s : ℕ) (bs : List Block) (q : ℕ) : Type 0 where
  pub after : Words
  pub returns : run mem ≡ some (true, after)
  pub end_size : ℕ
  pub span : Span after p s bs q end_size
  pub others : (w : ℕ) → (w < p) ⊎ (q ≤ w) → after w ≡ mem w

finish-IsRun :
    (mem : Words) (p s : ℕ) (b : Block) (ys : List Block) (q t n : ℕ)
    → Span mem p s (b ∷ ys) q t
    → LastOnly (b ∷ ys)
    → b.taken ≡ false
    → n ≡ p + 8 + b.size
    → q < 2 ^ 32
    → 8 ≤ p
    → IsRun (finish p (next_place n ys)) mem p s (absorb b ys) q
finish-IsRun mem p s b [] q t n sp l free e w h = record {
  after = mem;
  returns = refl;
  end_size = t;
  span = sp;
  others = λ w out. refl;
}
finish-IsRun mem p s b (y ∷ ys) q t n (ok, at, prev, (ok', at', prev', rest)) l free e w h =
    let there : (n == 0) ≡ false = ne→== n 0 (omega arith) in
    let flag : is_taken (mem n) ≡ y.taken =
      ap (λ k. is_taken (mem k)) e ∙ ap is_taken at' ∙ is_taken-word y ok' in
    elim (Bool-cases y.taken) [
      | inl taken ↦ simp (taken) (record {
        after = mem;
        returns = rw (there, flag, taken) refl;
        end_size = t;
        span = (ok, at, prev, (ok', at', prev', rest));
        others = λ w out. refl;
      })
      | inr free' ↦
          let (mem', run, done) =
            heap_marker_join-IsJoined mem p s b y ys q t (ok, at, prev, (ok', at', prev', rest)) l
              free free' w h in
          rw free' record {
            after = mem';
            returns = rw (there, flag, free', e, run) refl;
            end_size = done.end_size;
            span = done.span;
            others = done.others;
          }
    ]

clear_taken :
    (b : Block) → IsBlock b → b.taken ≡ true → bit_and (word b) (not32 mask_taken) ≡ word (freed b)
clear_taken b ok taken = bit_and_split 1 (word b) 0xffff_fffe ∙ rw taken (by_flag b.last)
  where
    odd :
        (l : Bool)
        → (b.size + (1 + (if l then 2 else 0))) / 2 * 2 ≡ b.size + (0 + (if l then 2 else 0))
    odd l = ground (arith, ok.whole)

    by_flag :
        (l : Bool)
        → bit_and ((b.size + (1 + (if l then 2 else 0))) / 2) 0x7fff_ffff * 2
            + bit_and ((b.size + (1 + (if l then 2 else 0))) % 2) 0
          ≡ b.size + (0 + (if l then 2 else 0))
    by_flag l =
        let w = b.size + (1 + (if l then 2 else 0)) in
        let small : w < 2 ^ 32 = ground (arith, ok.small) in
        omega (arith, odd l, small, bit_and_mask 31 (w / 2), bit_and-zero (w % 2))

-- The marker of the block without its flag.
abbrev freed_memory : Words → (p : ℕ) → Block → Words
freed_memory mem p b = update mem p (bit_and (mem p) (not32 mask_taken))

freed_memory-Span :
    (mem : Words) (p s : ℕ) (b : Block) (ys : List Block) (q t : ℕ)
    → Span mem p s (b ∷ ys) q t
    → b.taken ≡ true
    → Span (freed_memory mem p b) p s (freed b ∷ ys) q t
freed_memory-Span mem p s b ys q t (ok, at, prev, rest) taken =
    let other : (w : ℕ) → w ≢ p → freed_memory mem p b w ≡ mem w = λ w ne. rw (ne→== w p ne) refl in
    (
      record { whole = ok.whole; small = ok.small },
      rw (eq→== p p refl, at) (clear_taken b ok taken),
      other (p + 4) (omega arith) ∙ prev,
      Span-agree mem (freed_memory mem p b) (p + 8 + b.size) b.size ys q t
          (λ w lo hi. other w (omega arith)) rest,
    )

pub freed-LastOnly : (b : Block) (ys : List Block) → LastOnly (b ∷ ys) → LastOnly (freed b ∷ ys)
freed-LastOnly b [] l = l
freed-LastOnly b (y ∷ ys) l = l

-- A run on memory that differs only between `p` and `q`.
IsRun-from :
    (run run' : Cmd Bool) (mem mem1 : Words) (p s : ℕ) (bs : List Block) (q : ℕ)
    → IsRun run mem1 p s bs q
    → run' mem ≡ run mem1
    → ((w : ℕ) → (w < p) ⊎ (q ≤ w) → mem1 w ≡ mem w)
    → IsRun run' mem p s bs q
IsRun-from run run' mem mem1 p s bs q r e same = record {
  after = r.after;
  returns = e ∙ r.returns;
  end_size = r.end_size;
  span = r.span;
  others = λ w out. r.others w out ∙ same w out;
}

pub release_first-IsRun :
    (mem : Words) (p s : ℕ) (b : Block) (ys : List Block) (q t n : ℕ)
    → Span mem p s (b ∷ ys) q t
    → LastOnly (b ∷ ys)
    → b.taken ≡ true
    → n ≡ p + 8 + b.size
    → q < 2 ^ 32
    → 8 ≤ p
    → IsRun (release p 0 (next_place n ys)) mem p s (absorb (freed b) ys) q
release_first-IsRun mem p s b ys q t n sp l taken e w h =
    let end = Span-end mem p s (b ∷ ys) q t sp in
    let mem1 = freed_memory mem p b in
    IsRun-from (finish p (next_place n ys)) (release p 0 (next_place n ys)) mem mem1 p s
      (absorb (freed b) ys) q
      (finish-IsRun mem1 p s (freed b) ys q t n (freed_memory-Span mem p s b ys q t sp taken)
        (freed-LastOnly b ys l) refl e w h)
      refl (λ a out. rw (ne→== a p (omega (arith, end, out))) refl)

release-kept :
    (mem : Words) (k m next : ℕ) (b : Block)
    → (not (k == 0) && not (is_taken (freed_memory mem m b k))) ≡ false
    → release m k next mem ≡ finish m next (freed_memory mem m b)
release-kept mem k m next b joins = rw joins refl

release-joined :
    (mem mem2 : Words) (k m next : ℕ) (b : Block)
    → (not (k == 0) && not (is_taken (freed_memory mem m b k))) ≡ true
    → heap_marker_join k m (freed_memory mem m b) ≡ some (tt, mem2)
    → release m k next mem ≡ finish k next mem2
release-joined mem mem2 k m next b joins run = rw (joins, run) refl

module _ (mem : Words) (k s : ℕ) (x b : Block) (ys : List Block) (q t : ℕ) where
  abbrev pub m : ℕ
  m = k + 8 + x.size

  abbrev mem1 : Words
  mem1 = freed_memory mem m b

  pub release_behind_taken-IsRun :
      (n : ℕ)
      → Span mem k s (x ∷ b ∷ ys) q t
      → LastOnly (x ∷ b ∷ ys)
      → b.taken ≡ true
      → x.taken ≡ true
      → n ≡ m + 8 + b.size
      → q < 2 ^ 32
      → 8 ≤ k
      → IsRun (release m k (next_place n ys)) mem k s (x ∷ absorb (freed b) ys) q
  release_behind_taken-IsRun n (ok, at, prev, rest) (e', l) taken held e w h =
      let end = Span-end mem m x.size (b ∷ ys) q t rest in
      let same : mem1 k ≡ mem k = rw (ne→== k m (omega arith)) refl in
      let flag : is_taken (mem1 k) ≡ true = ap is_taken (same ∙ at) ∙ is_taken-word x ok ∙ held in
      let joins : (not (k == 0) && not (is_taken (mem1 k))) ≡ false = rw flag (ground arith) in
      let r =
        finish-IsRun mem1 m x.size (freed b) ys q t n
          (freed_memory-Span mem m x.size b ys q t rest taken) (freed-LastOnly b ys l) refl e w
          (omega arith) in
      let other : (a : ℕ) → a < m → r.after a ≡ mem a =
        λ a lt. r.others a (inl lt) ∙ rw (ne→== a m (omega arith)) refl in
      record {
        after = r.after;
        returns = release-kept mem k m (next_place n ys) b joins ∙ r.returns;
        end_size = r.end_size;
        span = (ok, other k (omega arith) ∙ at, other (k + 4) (omega arith) ∙ prev, r.span);
        others = λ a out.
            r.others a (ground (arith, out)) ∙ rw (ne→== a m (omega (arith, end, out))) refl;
      }

  pub release_behind_free-IsRun :
      (n : ℕ)
      → Span mem k s (x ∷ b ∷ ys) q t
      → LastOnly (x ∷ b ∷ ys)
      → b.taken ≡ true
      → x.taken ≡ false
      → n ≡ m + 8 + b.size
      → q < 2 ^ 32
      → 8 ≤ k
      → IsRun (release m k (next_place n ys)) mem k s (absorb (fuse x (freed b)) ys) q
  release_behind_free-IsRun n (ok, at, prev, rest) (e', l) taken free e w h =
      let end = Span-end mem m x.size (b ∷ ys) q t rest in
      let other : (a : ℕ) → a ≢ m → mem1 a ≡ mem a = λ a ne. rw (ne→== a m ne) refl in
      let flag : is_taken (mem1 k) ≡ false =
        ap is_taken (other k (omega arith) ∙ at) ∙ is_taken-word x ok ∙ free in
      let joins : (not (k == 0) && not (is_taken (mem1 k))) ≡ true = rw flag (ground arith) in
      let span1 : Span mem1 k s (x ∷ freed b ∷ ys) q t = (
        ok,
        other k (omega arith) ∙ at,
        other (k + 4) (omega arith) ∙ prev,
        freed_memory-Span mem m x.size b ys q t rest taken,
      ) in
      let (mem2, run, done) =
        heap_marker_join-IsJoined mem1 k s x (freed b) ys q t span1 (e', freed-LastOnly b ys l) free
          refl w h in
      let r =
        finish-IsRun mem2 k s (fuse x (freed b)) ys q done.end_size n done.span (fused ys l) refl
          (omega (arith, e)) w h in
      IsRun-from (finish k (next_place n ys)) (release m k (next_place n ys)) mem mem2 k s
        (absorb (fuse x (freed b)) ys) q r
        (release-joined mem mem2 k m (next_place n ys) b joins run)
        (λ a out. done.others a out ∙ other a (omega (arith, end, out)))
    where
      fused : (ys : List Block) → LastOnly (b ∷ ys) → LastOnly (fuse x (freed b) ∷ ys)
      fused [] l = l
      fused (z ∷ zs) l = l
