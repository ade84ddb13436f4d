-- ===== src/Library/Heap/Owned.antt =====
-- The addresses that are allocated in a heap.
use sth.Base.{
  ℕ, ◌+◌, ◌-◌, ◌≤◌, ◌<◌, ◌≡◌, refl, arith, Bool, true, false, not, ◌&&◌, ◌||◌, if◌then◌else◌, List,
  [], ◌∷◌, ◌++◌, ◌==◌, sym, ◌∙◌, ap, Bool-cases, ◌⊎◌, inl, inr, ltb,
}
use sth.Library.Heap.Blocks.{Block, bytes}
use sth.Library.Heap.Cut.{cut}
use sth.Library.Heap.Join.{fuse}
use sth.Library.Heap.Release.{freed, absorb, give_back}

-- Whether `a` stands behind the marker of a taken block.
abbrev pub owned : (p : ℕ) → List Block → (a : ℕ) → Bool
owned p [] a = false
owned p (b ∷ bs) a = (b.taken && (p + 8 == a)) || owned (p + 8 + b.size) bs a

pub owned-append :
    (p : ℕ) (xs ys : List Block) (a : ℕ)
    → owned p (xs ++ ys) a ≡ (owned p xs a || owned (p + bytes xs) ys a)
owned-append p [] ys a = let here : p + 0 ≡ p = omega arith in rw here refl
owned-append p (x ∷ xs) ys a =
    let place : p + 8 + x.size + bytes xs ≡ p + (8 + x.size + bytes xs) = omega arith in
    rw (owned-append (p + 8 + x.size) xs ys a, place)
      (or_assoc (x.taken && (p + 8 == a)) (owned (p + 8 + x.size) xs a)
        (owned (p + (8 + x.size + bytes xs)) ys a))
  where
    or_assoc : (s t u : Bool) → (s || (t || u)) ≡ ((s || t) || u)
    or_assoc true t u = refl
    or_assoc false t u = refl

pub owned-bounds :
    (p : ℕ) (bs : List Block) (a : ℕ) → owned p bs a ≡ true → (p + 8 ≤ a) × (a ≤ p + bytes bs)
owned-bounds p [] a h = absurd (ground arith)
owned-bounds p (b ∷ bs) a h = by_test b.taken h (λ e. owned-bounds (p + 8 + b.size) bs a e)
  where
    by_test :
        (t : Bool)
        → ((t && (p + 8 == a)) || owned (p + 8 + b.size) bs a) ≡ true
        → (owned (p + 8 + b.size) bs a ≡ true
            → (p + 8 + b.size + 8 ≤ a) × (a ≤ p + 8 + b.size + bytes bs))
        → (p + 8 ≤ a) × (a ≤ p + (8 + b.size + bytes bs))
    by_test t h later = elim (Bool-cases (owned (p + 8 + b.size) bs a)) [
      | inl there ↦ let (lo, hi) = later there in (omega arith, omega arith)
      | inr elsewhere ↦ let here : p + 8 ≡ a = ground arith in (omega arith, omega arith)
    ]

-- Outside its bounds nothing is allocated.
pub owned-outside :
    (p : ℕ) (bs : List Block) (a : ℕ) → (a < p + 8) ⊎ (p + bytes bs < a) → owned p bs a ≡ false
owned-outside p bs a out = elim (Bool-cases (owned p bs a)) [
  | inl there ↦ let (lo, hi) = owned-bounds p bs a there in absurd (omega (arith, out))
  | inr elsewhere ↦ elsewhere
]

pub owned-cut :
    (p size : ℕ) (b : Block) (ys : List Block) (a : ℕ)
    → b.taken ≡ false
    → size ≤ b.size
    → owned p (cut size b ++ ys) a ≡ ((p + 8 == a) || owned p (b ∷ ys) a)
owned-cut p size b ys a free le = elim (Bool-cases (ltb 8 (b.size - size))) [
  | inl room ↦
      let place : p + 8 + size + 8 + (b.size - size - 8) ≡ p + 8 + b.size = ground (arith, room) in
      rw (room, free, place) refl
  | inr full ↦ rw (full, free) refl
]

owned-absorb :
    (p : ℕ) (b : Block) (ys : List Block) (a : ℕ)
    → b.taken ≡ false
    → owned p (absorb b ys) a ≡ owned p (b ∷ ys) a
owned-absorb p b [] a free = refl
owned-absorb p b (y ∷ ys) a free = by_test y.taken refl
  where
    by_test :
        (t : Bool)
        → y.taken ≡ t
        → owned p (if t then b ∷ y ∷ ys else fuse b y ∷ ys) a ≡ owned p (b ∷ y ∷ ys) a
    by_test true e = refl
    by_test false e =
        let place : p + 8 + (b.size + 8 + y.size) ≡ p + 8 + b.size + 8 + y.size = omega arith in
        rw (free, e, place) refl

-- The address `x` of the taken block in front leaves the allocated ones, which are `r` otherwise.
leave_first : (x : Bool) (r : Bool) → (x ≡ true → r ≡ false) → r ≡ ((x || r) && not x)
leave_first true r e = e refl
leave_first false true e = refl
leave_first false false e = refl

-- The address `z` leaves `r` and is not the one in front, `x`.
pub leave_later :
    (x z r : Bool) → (x ≡ true → z ≡ false) → (x || (r && not z)) ≡ ((x || r) && not z)
leave_later true true r e = absurd (ground (arith, e refl))
leave_later true false r e = refl
leave_later false z r e = refl

owned-freed :
    (p : ℕ) (b : Block) (ys : List Block) (a : ℕ)
    → b.taken ≡ true
    → owned (p + 8 + b.size) ys a ≡ (owned p (b ∷ ys) a && not (p + 8 == a))
owned-freed p b ys a taken = rw (taken) (
    leave_first (p + 8 == a) (owned (p + 8 + b.size) ys a)
      (λ e. owned-outside (p + 8 + b.size) ys a (inl (ground arith))))

owned-fuse :
    (p : ℕ) (x b : Block) (ys : List Block) (a : ℕ)
    → owned p (fuse x (freed b) ∷ ys) a ≡ owned (p + 8 + x.size + 8 + b.size) ys a
owned-fuse p x b ys a =
    let place : p + 8 + (x.size + 8 + b.size) ≡ p + 8 + x.size + 8 + b.size = omega arith in
    ap (λ k. owned k ys a) place

pub owned-give_back :
    (p : ℕ) (xs : List Block) (b : Block) (ys : List Block) (a : ℕ)
    → b.taken ≡ true
    → owned p (give_back xs b ys) a ≡ (owned p (xs ++ b ∷ ys) a && not (p + bytes xs + 8 == a))
owned-give_back p [] b ys a taken =
    let place : p + 0 + 8 ≡ p + 8 = omega arith in
    owned-absorb p (freed b) ys a refl
    ∙ owned-freed p b ys a taken
    ∙ ap (λ k. owned p (b ∷ ys) a && not (k == a)) (sym place)
owned-give_back p (x ∷ []) b ys a taken =
    let place : p + (8 + x.size + 0) + 8 ≡ p + 8 + x.size + 8 = omega arith in
    rw place (by_test x.taken refl)
  where
    by_test :
        (t : Bool)
        → x.taken ≡ t
        → owned p (if t then x ∷ absorb (freed b) ys else absorb (fuse x (freed b)) ys) a ≡ (
            ((t && (p + 8 == a)) || owned (p + 8 + x.size) (b ∷ ys) a)
            && not (p + 8 + x.size + 8 == a))
    by_test true held =
        ap (λ t. (t && (p + 8 == a)) || owned (p + 8 + x.size) (absorb (freed b) ys) a) held
        ∙ ap (λ r. (p + 8 == a) || r)
            (owned-absorb (p + 8 + x.size) (freed b) ys a refl
              ∙ owned-freed (p + 8 + x.size) b ys a taken)
        ∙ leave_later (p + 8 == a) (p + 8 + x.size + 8 == a) (owned (p + 8 + x.size) (b ∷ ys) a)
            (λ e. ground arith)
    by_test false free =
        owned-absorb p (fuse x (freed b)) ys a refl
        ∙ owned-fuse p x b ys a
        ∙ owned-freed (p + 8 + x.size) b ys a taken
owned-give_back p (x ∷ y ∷ xs) b ys a taken =
    let place : p + (8 + x.size + (8 + y.size + bytes xs)) + 8
        ≡ p + 8 + x.size + (8 + y.size + bytes xs) + 8 =
      omega arith in
    rw (place, owned-give_back (p + 8 + x.size) (y ∷ xs) b ys a taken)
      (leave_later (x.taken && (p + 8 == a)) (p + 8 + x.size + (8 + y.size + bytes xs) + 8 == a)
        (owned (p + 8 + x.size) (y ∷ xs ++ b ∷ ys) a) (λ e. ground arith))

pub owned-split :
    (p : ℕ) (bs : List Block) (a : ℕ)
    → owned p bs a ≡ true
    → (xs : List Block) × (b : Block) × (ys : List Block) × (bs ≡ xs ++ b ∷ ys)
      × (b.taken ≡ true)
      × (a ≡ p + bytes xs + 8)
owned-split p [] a h = absurd (ground arith)
owned-split p (b ∷ bs) a h = elim (Bool-cases (owned (p + 8 + b.size) bs a)) [
  | inl there ↦
      let (xs, c, ys, e, t, at) = owned-split (p + 8 + b.size) bs a there in
      (b ∷ xs, c, ys, ap (λ zs. b ∷ zs) e, t, omega (arith, at))
  | inr elsewhere ↦ ([], b, bs, refl, ground arith, ground arith)
]
