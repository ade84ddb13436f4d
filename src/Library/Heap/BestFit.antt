-- ===== src/Library/Heap/BestFit.antt =====
-- Which block of a heap is allocated.
use mathlib.Core.Path.{subst}
use sth.Base.{
  ℕ, zero, suc, ◌+◌, ◌/◌, ◌*◌, ◌≤◌, ◌<◌, ◌≡◌, ◌≢◌, refl, arith, Bool, true, false, not, ◌&&◌, ◌||◌,
  some, List, [], ◌∷◌, ltb, leb, ◌==◌, if◌then◌else◌, u32, ne→==, eq→==, sym, ◌∙◌, ap, ◌⊎◌, inl,
  inr, Bool-cases, ==→eq, length, bit_and,
}
use sth.Library.Words.{Words}
use sth.Library.Heap.{heap_marker_next, find_best, is_better, is_taken, size_of, mask_last}
use sth.Library.LinkedList.Walk.{member}

-- Where the marker after `mark` is, 0 after the last one.
abbrev pub next_marker : Words → (mark : ℕ) → ℕ
next_marker mem mark =
    if not (bit_and (mem mark) mask_last == 0)
    then 0
    else u32 (mark + 8 + 8 * (size_of (mem mark) / 8))

-- The blocks from `p` on are `bs`.
abbrev pub Blocks : Words → (p : ℕ) → List ℕ → Type 0
Blocks mem p [] = p ≡ 0
Blocks mem p (b ∷ bs) = (p ≡ b) × (b ≢ 0) × Blocks mem (next_marker mem b) bs

-- A free block, with the word `w`, that is large enough.
abbrev pub fits : (size w : ℕ) → Bool
fits size w = not (is_taken w) && leb size (size_of w)

abbrev pub Beats : Words → (r b : ℕ) → Type 0
Beats mem r b = (r ≢ 0) × (size_of (mem r) ≤ size_of (mem b))

-- `r` is the best match among `best` and the blocks `bs`.
pub record IsBest (mem : Words) (size best r : ℕ) (bs : List ℕ) : Type 0 where
  pub from : (r ≡ best) ⊎ ((member r bs ≡ true) × (fits size (mem r) ≡ true))
  pub keeps : best ≢ 0 → Beats mem r best
  pub beats : (b : ℕ) → member b bs ≡ true → fits size (mem b) ≡ true → Beats mem r b

Beats-trans :
    (mem : Words) (r b c : ℕ) → Beats mem r b → size_of (mem b) ≤ size_of (mem c) → Beats mem r c
Beats-trans mem r b c (ne, le) le' = (ne, omega (arith, le, le'))

is_better-fits :
    (size me best word : ℕ)
    → is_better size me best word ≡ true
    → (fits size me ≡ true) × ((best ≡ 0) ⊎ (size_of me ≤ size_of word))
is_better-fits size me best word h = by_tests (is_taken me) (leb size (size_of me)) h
  where
    by_tests :
        (taken large : Bool)
        → (not taken && large && (best == 0 || ltb (size_of me) (size_of word))) ≡ true
        → ((not taken && large) ≡ true) × ((best ≡ 0) ⊎ (size_of me ≤ size_of word))
    by_tests false true h = (refl, ground arith)
    by_tests false false h = absurd (ground arith)
    by_tests true large h = absurd (ground arith)

is_better-not :
    (size me best word : ℕ)
    → is_better size me best word ≡ false
    → fits size me ≡ true
    → (best ≢ 0) × (size_of word ≤ size_of me)
is_better-not size me best word h f = by_tests (is_taken me) (leb size (size_of me)) h f
  where
    by_tests :
        (taken large : Bool)
        → (not taken && large && (best == 0 || ltb (size_of me) (size_of word))) ≡ false
        → (not taken && large) ≡ true
        → (best ≢ 0) × (size_of word ≤ size_of me)
    by_tests false true h f = (ground arith, ground arith)
    by_tests false false h f = absurd (ground arith)
    by_tests true large h f = absurd (ground arith)

member-head : (b c : ℕ) (bs : List ℕ) → member b (c ∷ bs) ≡ true → (c ≡ b) ⊎ (member b bs ≡ true)
member-head b c bs h = elim (Bool-cases (c == b)) [
  | inl same ↦ inl (==→eq c b same)
  | inr other ↦ inr (ground arith)
]

-- One round of the search.
better-IsBest :
    (mem : Words) (size best r b : ℕ) (bs : List ℕ)
    → b ≢ 0
    → is_better size (mem b) best (mem best) ≡ true
    → IsBest mem size b r bs
    → IsBest mem size best r (b ∷ bs)
better-IsBest mem size best r b bs ne better rest =
    let (f, le) = is_better-fits size (mem b) best (mem best) better in
    record {
      from = elim (rest.from) [
        | inl here ↦ inr (rw (eq→== b r (sym here)) refl, ap (λ x. fits size (mem x)) here ∙ f)
        | inr (there, fit) ↦ inr (ground (arith, there), fit)
      ];
      keeps = λ some_. elim le [
        | inl none_ ↦ absurd (some_ none_)
        | inr le ↦ Beats-trans mem r b best (rest.keeps ne) le
      ];
      beats = λ c there fit. elim (member-head c b bs there) [
        | inl here ↦ subst (Beats mem r) here (rest.keeps ne)
        | inr later ↦ rest.beats c later fit
      ];
    }

worse-IsBest :
    (mem : Words) (size best r b : ℕ) (bs : List ℕ)
    → is_better size (mem b) best (mem best) ≡ false
    → IsBest mem size best r bs
    → IsBest mem size best r (b ∷ bs)
worse-IsBest mem size best r b bs worse rest = record {
  from = elim (rest.from) [
    | inl here ↦ inl here
    | inr (there, fit) ↦ inr (ground (arith, there), fit)
  ];
  keeps = rest.keeps;
  beats = λ c there fit. elim (member-head c b bs there) [
    | inl here ↦
        let (some_, le) =
          is_better-not size (mem b) best (mem best) worse
            (ap (λ x. fits size (mem x)) here ∙ fit) in
        subst (Beats mem r) here (Beats-trans mem r best b (rest.keeps some_) le)
    | inr later ↦ rest.beats c later fit
  ];
}

pub find_best-IsBest :
    (fuel size p best : ℕ) (mem : Words) (bs : List ℕ)
    → Blocks mem p bs
    → length bs < fuel
    → (r : ℕ) × (find_best fuel size p best mem ≡ some (r, mem)) × IsBest mem size best r bs
unfolding find_best heap_marker_next
find_best-IsBest zero size p best mem bs c h = absurd (omega arith)
find_best-IsBest (suc fuel) size p best mem [] c h = (
  best,
  rw (eq→== p 0 c) refl,
  record {
    from = inl refl;
    keeps = λ ne. (ne, omega arith);
    beats = λ b there f. ground (arith, there);
  },
)
find_best-IsBest (suc fuel) size p best mem (b ∷ bs) (at, ne, c) h =
    elim (Bool-cases (is_better size (mem b) best (mem best))) [
      | inl better ↦
          let (r, run, best_) =
            find_best-IsBest fuel size (next_marker mem b) b mem bs c (omega arith) in
          (r, rw (at, ne→== b 0 ne, better) run, better-IsBest mem size best r b bs ne better best_)
      | inr worse ↦
          let (r, run, best_) =
            find_best-IsBest fuel size (next_marker mem b) best mem bs c (omega arith) in
          (r, rw (at, ne→== b 0 ne, worse) run, worse-IsBest mem size best r b bs worse best_)
    ]
