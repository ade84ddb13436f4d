-- ===== src/Library/Heap/Coalesced.antt =====
-- No two free blocks of the heap stand next to each other.
use sth.Base.{
  ℕ, ◌+◌, ◌-◌, ◌≡◌, refl, arith, Bool, true, false, ◌&&◌, ◌||◌, if◌then◌else◌, List, [], ◌∷◌, ◌++◌,
  ◌==◌, inl, inr, sym, ◌∙◌, ap, Bool-cases, ltb, eq→==,
}
use sth.Library.Heap.Blocks.{Block}
use sth.Library.Heap.Cut.{cut}
use sth.Library.Heap.Join.{fuse}
use sth.Library.Heap.Release.{freed, absorb, give_back}
use sth.Library.Heap.Owned.{owned}

-- Whether the first block, if there is one, is taken.
abbrev first_taken : List Block → Bool
first_taken [] = true
first_taken (b ∷ bs) = b.taken

abbrev pub Coalesced : List Block → Type 0
Coalesced [] = Unit
Coalesced (b ∷ bs) = ((b.taken || first_taken bs) ≡ true) × Coalesced bs

cons-Coalesced : (x : Block) (zs : List Block) → x.taken ≡ true → Coalesced zs → Coalesced (x ∷ zs)
cons-Coalesced x zs taken c = (rw taken refl, c)

absorb-Coalesced :
    (b : Block) (ys : List Block) → b.taken ≡ false → Coalesced ys → Coalesced (absorb b ys)
absorb-Coalesced b [] free c = (rw free refl, tt)
absorb-Coalesced b (y ∷ ys) free (apart, c) = by_test y.taken refl apart
  where
    by_test :
        (t : Bool)
        → y.taken ≡ t
        → (t || first_taken ys) ≡ true
        → Coalesced (if t then b ∷ y ∷ ys else fuse b y ∷ ys)
    by_test true taken e = (rw (free, taken) refl, (rw taken refl, c))
    by_test false taken e = (e, c)

absorb-first_taken :
    (b : Block) (ys : List Block) → b.taken ≡ false → first_taken (absorb b ys) ≡ false
absorb-first_taken b [] free = free
absorb-first_taken b (y ∷ ys) free = elim (Bool-cases y.taken) [
  | inl taken ↦ ap (λ t. first_taken (if t then b ∷ y ∷ ys else fuse b y ∷ ys)) taken ∙ free
  | inr free' ↦ ap (λ t. first_taken (if t then b ∷ y ∷ ys else fuse b y ∷ ys)) free'
]

give_back-first_taken :
    (y : Block) (xs : List Block) (b : Block) (ys : List Block)
    → first_taken (give_back (y ∷ xs) b ys) ≡ y.taken
give_back-first_taken y (x ∷ xs) b ys = refl
give_back-first_taken y [] b ys = elim (Bool-cases y.taken) [
  | inl taken ↦
      ap (λ t. first_taken (if t then y ∷ absorb (freed b) ys else absorb (fuse y (freed b)) ys))
        taken
  | inr free ↦
      ap (λ t. first_taken (if t then y ∷ absorb (freed b) ys else absorb (fuse y (freed b)) ys))
        free
      ∙ absorb-first_taken (fuse y (freed b)) ys refl
      ∙ sym free
]

pub give_back-Coalesced :
    (xs : List Block) (b : Block) (ys : List Block)
    → Coalesced (xs ++ b ∷ ys)
    → Coalesced (give_back xs b ys)
give_back-Coalesced [] b ys (apart, c) = absorb-Coalesced (freed b) ys refl c
give_back-Coalesced (x ∷ []) b ys (apart, (apart', c)) = by_test x.taken refl
  where
    by_test :
        (t : Bool)
        → x.taken ≡ t
        → Coalesced (if t then x ∷ absorb (freed b) ys else absorb (fuse x (freed b)) ys)
    by_test true taken =
        cons-Coalesced x (absorb (freed b) ys) taken (absorb-Coalesced (freed b) ys refl c)
    by_test false taken = absorb-Coalesced (fuse x (freed b)) ys refl c
give_back-Coalesced (x ∷ y ∷ xs) b ys (apart, c) = (
  ap (λ t. x.taken || t) (give_back-first_taken y xs b ys) ∙ apart,
  give_back-Coalesced (y ∷ xs) b ys c,
)

cut-first_taken : (size : ℕ) (b : Block) (ys : List Block) → first_taken (cut size b ++ ys) ≡ true
cut-first_taken size b ys = elim (Bool-cases (ltb 8 (b.size - size))) [
  | inl room ↦ rw room refl
  | inr full ↦ rw full refl
]

pub cut-Coalesced :
    (size : ℕ) (xs : List Block) (b : Block) (ys : List Block)
    → b.taken ≡ false
    → Coalesced (xs ++ b ∷ ys)
    → Coalesced (xs ++ (cut size b ++ ys))
cut-Coalesced size [] b ys free (apart, c) =
    let behind : first_taken ys ≡ true = ap (λ t. t || first_taken ys) (sym free) ∙ apart in
    elim (Bool-cases (ltb 8 (b.size - size))) [
      | inl room ↦ rw room (refl, (behind, c))
      | inr full ↦ rw full (refl, c)
    ]
cut-Coalesced size (x ∷ xs) b ys free (apart, c) =
    (apart_still xs apart, cut-Coalesced size xs b ys free c)
  where
    apart_still :
        (xs : List Block)
        → (x.taken || first_taken (xs ++ b ∷ ys)) ≡ true
        → (x.taken || first_taken (xs ++ (cut size b ++ ys))) ≡ true
    apart_still [] e = ap (λ t. x.taken || t) (cut-first_taken size b ys) ∙ ground arith
    apart_still (z ∷ zs) e = e

first_free :
    (p : ℕ) (b : Block) (bs : List Block) → owned p (b ∷ bs) (p + 8) ≡ false → b.taken ≡ false
first_free p b bs h =
    let same : (p + 8 == p + 8) ≡ true = eq→== (p + 8) (p + 8) refl in ground (arith, same, h)

-- With nothing allocated there is at most one block.
pub unowned-Coalesced :
    (p : ℕ) (b : Block) (bs : List Block)
    → ((a : ℕ) → owned p (b ∷ bs) a ≡ false)
    → Coalesced (b ∷ bs)
    → (b.taken ≡ false) × (bs ≡ [])
unowned-Coalesced p b [] none_ c = (first_free p b [] (none_ (p + 8)), refl)
unowned-Coalesced p b (y ∷ ys) none_ (apart, c) =
    let free = first_free p b (y ∷ ys) (none_ (p + 8)) in
    let q = p + 8 + b.size in
    let here : owned q (y ∷ ys) (q + 8) ≡ false =
      ap (λ t. (t && (p + 8 == q + 8)) || owned q (y ∷ ys) (q + 8)) (sym free) ∙ none_ (q + 8) in
    let free' = first_free q y ys here in absurd (ground (arith, apart, free, free'))
