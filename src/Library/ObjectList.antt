-- ===== src/Library/ObjectList.antt =====
-- Object lists (library/util/src/olist.c). `malloc` gives the words of a new block, or nothing; a
-- list without a block has a null pointer. `curr` and `size` are counts; an index is an `int`.
pub mod Laws
use sth.Base.{
  ℕ, ◌+◌, ◌-◌, ◌*◌, Bool, true, false, not, ◌||◌, Option, none, some, ltb, leb, ◌==◌, if◌then◌else◌,
  update, slt, u32,
}

pub record ObjectList : Type 0 where
  pub curr : ℕ
  pub size : ℕ
  pub list : Option (ℕ → ℕ)

abbrev size_initial : ℕ
size_initial = 24

abbrev size_next : ℕ → ℕ
size_next x = u32 (x * 2 + 8)

-- The words of the block; a null pointer is never read.
abbrev pub words : ObjectList → ℕ → ℕ
words ol = elim (ol.list) [ none ↦ (λ _. 0) | some w ↦ w ]

-- `memcpy(new_list, old_list, n * sizeof(void *))`
abbrev copied : (n : ℕ) (old new_ : ℕ → ℕ) → ℕ → ℕ
copied n old new_ i = if ltb i n then old i else new_ i

module _ (malloc : ℕ → Option (ℕ → ℕ)) where
  olist_grow : ObjectList → Bool × ObjectList
  olist_grow ol =
      let new_size = size_next ol.size in
      elim (malloc (u32 (new_size * 4))) [
        | none ↦ (false, ol)
        | some block ↦
            (true, record ol { list = some (copied ol.curr (words ol) block); size = new_size })
      ]

  unfoldable pub olist_init : Bool × ObjectList
  olist_init = elim (malloc (size_initial * 4)) [
    | none ↦ (false, record { curr = 0; size = size_initial; list = none })
    | some block ↦ (true, record { curr = 0; size = size_initial; list = some block })
  ]

  -- `ol->list[ol->curr++] = item`
  abbrev append : ℕ → ObjectList → ObjectList
  append item ol = record ol { list = some (update (words ol) ol.curr item); curr = ol.curr + 1 }

  -- The pair of a failed growth is given back as it is.
  abbrev after_growth : ℕ → Bool × ObjectList → Bool × ObjectList
  after_growth item (ok, ol) = if ok then (true, append item ol) else (false, ol)

  unfoldable pub olist_item_push : ObjectList → (item : ℕ) → Bool × ObjectList
  unfolding olist_grow
  olist_item_push ol item =
      if item == 0
      then (false, ol)
      else if leb (ol.size - 1) ol.curr
      then after_growth item (olist_grow ol)
      else (true, append item ol)

abbrev pub olist_cleanup : ObjectList → ObjectList
olist_cleanup ol = record ol { list = none }

abbrev pub olist_size_get : ObjectList → ℕ
olist_size_get ol = ol.curr

-- `index < 0 || index >= ol->curr`
abbrev pub outside : ObjectList → ℕ → Bool
outside ol index = slt index 0 || not (slt index ol.curr)

unfoldable pub olist_item_get : ObjectList → (index : ℕ) → ℕ
olist_item_get ol index = if outside ol index then 0 else words ol index

unfoldable pub olist_item_pop : ObjectList → ℕ × ObjectList
olist_item_pop ol =
    if ol.curr == 0 then (0, ol) else (words ol (ol.curr - 1), record ol { curr = ol.curr - 1 })

unfoldable pub olist_item_remove : ObjectList → (index : ℕ) → ObjectList
olist_item_remove ol index =
    let last = words ol (ol.curr - 1) in
    let shorter = record ol { curr = ol.curr - 1 } in
    if outside ol index
    then ol
    else if not (index == ol.curr - 1)
    then record shorter { list = some (update (words ol) index last) }
    else shorter
