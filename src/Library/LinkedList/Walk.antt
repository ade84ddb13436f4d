-- ===== src/Library/LinkedList/Walk.antt =====
-- The loops over a list.
use sth.Base.{
  ℕ, zero, suc, ◌+◌, ◌<◌, ◌≡◌, ◌≢◌, refl, arith, Bool, true, false, ◌||◌, some, List, [], ◌∷◌, ◌==◌,
  if◌then◌else◌, ne→==, eq→==, sym, ◌∙◌, length, Bool-cases, inl, inr, ap,
}
use sth.Library.Words.{Words, pure, get, ◌>>=◌}
use sth.Library.LinkedList.{list_find, find_from, list_add, list_size_get, size_from}
use sth.Library.LinkedList.Chain.{Chain, Fresh, first, Chain-first, IsApart}
use sth.Library.LinkedList.Laws.{IsRing, between}

abbrev pub member : ℕ → List ℕ → Bool
member item [] = false
member item (x ∷ xs) = x == item || member item xs

member-Fresh : (item : ℕ) (xs : List ℕ) → member item xs ≡ false → Fresh item xs
member-Fresh item [] h = tt
member-Fresh item (x ∷ xs) h = (ground arith, member-Fresh item xs (ground arith))

find_from-member :
    (fuel root item p : ℕ) (mem : Words) (xs : List ℕ)
    → Chain mem p xs root
    → Fresh root xs
    → length xs < fuel
    → find_from fuel root item (first xs root) mem ≡ some (member item xs, mem)
unfolding find_from
find_from-member zero root item p mem xs c f h = absurd (omega arith)
find_from-member (suc fuel) root item p mem [] c f h = rw (eq→== root root refl) refl
find_from-member (suc fuel) root item p mem (x ∷ xs) (to, from, rest) (ne, f) h =
    let next = Chain-first mem x root xs rest in
    let later = find_from-member fuel root item x mem xs rest f (omega arith) in
    rw (ne→== x root (λ s. ne (sym s)))
      (by_test (x == item) (ap (λ n. find_from fuel root item n mem) next ∙ later))
  where
    by_test :
        (t : Bool)
        → find_from fuel root item (mem x) mem ≡ some (member item xs, mem)
        → (if t then pure true else (do next ← get x; find_from fuel root item next)) mem
          ≡ some (t || member item xs, mem)
    by_test true later = refl
    by_test false later = later

size_from-length :
    (fuel root count total p : ℕ) (mem : Words) (xs : List ℕ)
    → Chain mem p xs root
    → Fresh root xs
    → length xs < fuel
    → count + length xs ≡ total
    → size_from fuel root count (first xs root) mem ≡ some (total, mem)
unfolding size_from
size_from-length zero root count total p mem xs c f h e = absurd (omega arith)
size_from-length (suc fuel) root count total p mem [] c f h e =
    let here : count ≡ total = omega arith in rw (eq→== root root refl, here) refl
size_from-length (suc fuel) root count total p mem (x ∷ xs) (to, from, rest) (ne, f) h e =
    let next = Chain-first mem x root xs rest in
    let later =
      size_from-length fuel root (count + 1) total x mem xs rest f (omega arith) (omega arith) in
    rw (ne→== x root (λ s. ne (sym s)))
      (ap (λ n. size_from fuel root (count + 1) n mem) next ∙ later)

module _ (IsItem : ℕ → Type 0) (mem : Words) (root : ℕ) (xs : List ℕ) where
  -- With a round for each item and one for the end, `list_size_get` gives the number of items, and
  -- `list_find` tells whether `item` is one of them; neither changes memory.
  pub list_size_get-counts :
      (fuel item : ℕ)
      → IsRing IsItem mem root xs
      → length xs < fuel
      → (list_size_get fuel root mem ≡ some (length xs, mem))
        × (list_find fuel root item mem ≡ some (member item xs, mem))
  unfolding list_size_get list_find
  list_size_get-counts fuel item ring h =
      let start = Chain-first mem root root xs ring.chain in
      (
        rw start (
            size_from-length fuel root 0 (length xs) root mem xs ring.chain ring.distinct.0 h
              (omega arith)),
        rw start (find_from-member fuel root item root mem xs ring.chain ring.distinct.0 h),
      )

  -- When no item begins in the middle of another one, and with a round for each item and one for
  -- the end, adding an item that is not in the list gives the list with this item in front, and
  -- adding one that is leaves the same items. The item is not the head of the list.
  pub list_add-inserts :
      (fuel item : ℕ)
      → IsApart IsItem
      → IsRing IsItem mem root xs
      → IsItem item
      → item ≢ root
      → length xs < fuel
      → (mem' : Words) × (list_add fuel root item mem ≡ some (tt, mem'))
        × IsRing IsItem mem' root (if member item xs then xs else item ∷ xs)
  unfolding list_add
  list_add-inserts fuel item apart ring ii ne h = elim (Bool-cases (member item xs)) [
    | inl there ↦ kept there
    | inr new_ ↦ added new_
  ]
    where
      found : list_find fuel root item mem ≡ some (member item xs, mem)
      found = (list_size_get-counts fuel item ring h).1

      kept :
          member item xs ≡ true
          → (mem' : Words) × (list_add fuel root item mem ≡ some (tt, mem'))
            × IsRing IsItem mem' root (if member item xs then xs else item ∷ xs)
      kept there = rw (found, there) (mem, refl, ring)

      added :
          member item xs ≡ false
          → (mem' : Words) × (list_add fuel root item mem ≡ some (tt, mem'))
            × IsRing IsItem mem' root (if member item xs then xs else item ∷ xs)
      added new_ =
          let f = member-Fresh item xs new_ in
          let (mem', run, chain) = between IsItem apart mem root item xs ring ii (ne, f) in
          let (ir, e) = ring.items in
          let (fr, d) = ring.distinct in
          rw (found, new_, Chain-first mem root root xs ring.chain)
            (
              mem',
              run,
              record {
                items = (ir, (ii, e));
                distinct = (((λ s. ne (sym s)), fr), (f, d));
                chain = chain;
              },
            )
