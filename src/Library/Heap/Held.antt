-- ===== src/Library/Heap/Held.antt =====
-- The addresses that the callers of a heap hold.
use sth.Base.{
  ℕ, ◌≡◌, refl, arith, ==→eq, Bool, true, false, not, ◌&&◌, ◌||◌, if◌then◌else◌, List, [], ◌∷◌,
  ◌==◌, ◌∙◌, ap, Bool-cases, inl, inr, eq→==,
}
use sth.Library.LinkedList.Walk.{member}
use sth.Library.Heap.Owned.{leave_later}

-- The addresses without `r`.
abbrev pub without : (r : ℕ) → List ℕ → List ℕ
without r [] = []
without r (x ∷ xs) = if r == x then without r xs else x ∷ without r xs

abbrev pub AllDistinct : List ℕ → Type 0
AllDistinct [] = Unit
AllDistinct (x ∷ xs) = (member x xs ≡ false) × AllDistinct xs

pub member-without :
    (a r : ℕ) (xs : List ℕ) → member a (without r xs) ≡ (member a xs && not (r == a))
member-without a r [] = refl
member-without a r (x ∷ xs) = elim (Bool-cases (r == x)) [
  | inl same ↦ rw same (
      member-without a r xs
      ∙ drop (x == a) (member a xs) (r == a) (λ e. eq→== r a (==→eq r x same ∙ ==→eq x a e)))
  | inr other ↦ rw other (
      ap (λ m. (x == a) || m) (member-without a r xs)
      ∙ leave_later (x == a) (r == a) (member a xs) (λ e. ground (arith, other)))
]
  where
    drop : (t m z : Bool) → (t ≡ true → z ≡ true) → (m && not z) ≡ ((t || m) && not z)
    drop true true true h = refl
    drop false true true h = refl
    drop true m false h = absurd (ground (arith, h refl))
    drop false m z h = refl
    drop true false true h = refl

pub without-AllDistinct : (r : ℕ) (xs : List ℕ) → AllDistinct xs → AllDistinct (without r xs)
without-AllDistinct r [] d = d
without-AllDistinct r (x ∷ xs) (new, d) = elim (Bool-cases (r == x)) [
  | inl same ↦ rw same (without-AllDistinct r xs d)
  | inr other ↦
      rw other (member-without x r xs ∙ ap (λ m. m && not (r == x)) new, without-AllDistinct r xs d)
]
