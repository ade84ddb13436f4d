-- ===== src/Library/ObjectList/Laws.antt =====
-- An object list as a sequence that is read by index.
use sth.Base.{
  not, ◌||◌, ℕ, ◌+◌, ◌-◌, ◌*◌, ◌^◌, ◌≤◌, ◌<◌, ◌≡◌, ◌≢◌, refl, arith, Bool, true, false, ◌&&◌,
  Option, none, some, ltb, leb, ◌==◌, if◌then◌else◌, update, u32, ne→==, eq→==, sym, ◌∙◌, inl, inr,
  Bool-cases, ==→eq,
}
use sth.Library.ObjectList.{
  ObjectList, words, copied, append, after_growth, olist_grow, size_next, olist_item_push, outside,
  olist_item_get, olist_item_pop, olist_item_remove,
}

-- `old` holds what `ol` holds, and there is room for one more item.
record HasRoom (ol new_ : ObjectList) : Type 0 where
  curr : new_.curr ≡ ol.curr
  same : (i : ℕ) → i < ol.curr → words new_ i ≡ words ol i
  room : ol.curr + 1 < new_.size

outside-inside : (ol : ObjectList) (i : ℕ) → ol.curr < 2 ^ 31 → i < ol.curr → outside ol i ≡ false
outside-inside ol i small h = ground arith

outside-beyond :
    (ol : ObjectList) (i : ℕ) → ol.curr < 2 ^ 31 → i < 2 ^ 32 → ol.curr ≤ i → outside ol i ≡ true
outside-beyond ol i small w h = ground arith

append-get :
    (malloc : ℕ → Option (ℕ → ℕ)) (ol new_ : ObjectList) (item i : ℕ)
    → HasRoom ol new_
    → ol.curr < 2 ^ 30
    → i < 2 ^ 32
    → olist_item_get (append malloc item new_) i
      ≡ (if i == ol.curr then item else olist_item_get ol i)
unfolding olist_item_get
append-get malloc ol new_ item i r small w = elim (Bool-cases (i == ol.curr)) [
  | inl here ↦
      let inside =
        outside-inside (append malloc item new_) i (omega (arith, r.curr))
          (ground (arith, r.curr)) in
      let at : i ≡ new_.curr = ==→eq i ol.curr here ∙ sym r.curr in
      rw (inside, here, eq→== i new_.curr at) refl
  | inr other ↦
      let ne : i ≢ new_.curr = ground (arith, r.curr) in
      elim (Bool-cases (ltb i ol.curr)) [
        | inl below ↦
            let lt : i < ol.curr = ground arith in
            rw
              (
                outside-inside (append malloc item new_) i (omega (arith, r.curr))
                    (omega (arith, r.curr)),
                outside-inside ol i (omega arith) lt,
                other,
                ne→== i new_.curr ne,
              )
              (r.same i lt)
        | inr above ↦
            let ge : ol.curr + 1 ≤ i = ground arith in
            rw
              (
                outside-beyond (append malloc item new_) i (omega (arith, r.curr)) w
                    (omega (arith, r.curr)),
                outside-beyond ol i (omega arith) w (omega arith),
                other,
              )
              refl
      ]
]

-- What a push that gives `r` has done: the item stands after the others, or nothing has changed.
abbrev pub IsPushed : (ol : ObjectList) (item i : ℕ) → Bool × ObjectList → Type 0
IsPushed ol item i (ok, new_) =
    (olist_item_get new_ i ≡ (if ok && (i == ol.curr) then item else olist_item_get ol i))
    × (new_.curr ≡ (if ok then ol.curr + 1 else ol.curr))
    × (new_.curr < new_.size)
    × ((olist_item_pop new_).0 ≡ (if ok then item else (olist_item_pop ol).0))

abbrev pub has_block : Option (ℕ → ℕ) → Bool
has_block none = false
has_block (some b) = true

module _ (malloc : ℕ → Option (ℕ → ℕ)) (ol : ObjectList) (item i : ℕ) where
  append-IsPushed :
      (new_ : ObjectList)
      → HasRoom ol new_
      → ol.curr < 2 ^ 30
      → i < 2 ^ 32
      → IsPushed ol item i (true, append malloc item new_)
  unfolding olist_item_pop
  append-IsPushed new_ r small w =
      let some_ : (new_.curr + 1 == 0) ≡ false = ground arith in
      let last_one : new_.curr + 1 - 1 ≡ new_.curr = omega arith in
      (
        append-get malloc ol new_ item i r small w,
        omega (arith, r.curr),
        omega (arith, r.curr, r.room),
        rw (some_, last_one) (rw (eq→== new_.curr new_.curr refl) refl),
      )

  grown-IsPushed :
      ol.curr < ol.size
      → ol.size < 2 ^ 29
      → i < 2 ^ 32
      → IsPushed ol item i (after_growth malloc item (olist_grow malloc ol))
  unfolding olist_grow
  grown-IsPushed h small w = by_block (malloc (u32 (size_next ol.size * 4)))
    where
      by_block :
          (b : Option (ℕ → ℕ))
          → IsPushed ol item i (
              after_growth malloc item (elim b as (λ x. Bool × ObjectList) [
                | none ↦ (false, ol)
                | some block ↦ (
                  true,
                  record ol {
                    list = some (copied ol.curr (words ol) block);
                    size = size_next ol.size;
                  },
                )
              ]))
      by_block none = (refl, refl, h, refl)
      by_block (some block) =
          append-IsPushed
            (record ol { list = some (copied ol.curr (words ol) block); size = size_next ol.size })
            record { curr = refl; same = λ j lt. ground arith; room = omega arith } (omega arith) w

  -- When a push succeeds: the item is not null, and there is room or a block for a longer list.
  abbrev pub succeeds : Bool
  succeeds =
      not (item == 0)
      && (ltb (ol.curr + 1) ol.size || has_block (malloc (u32 ((u32 (ol.size * 2 + 8)) * 4))))

  pushes : ol.curr < ol.size → (olist_item_push malloc ol item).0 ≡ succeeds
  unfolding olist_item_push olist_grow
  pushes h = elim (Bool-cases (item == 0)) [
    | inl null ↦ rw null refl
    | inr object ↦ elim (Bool-cases (leb (ol.size - 1) ol.curr)) [
      | inl full ↦
          let more : ltb (ol.curr + 1) ol.size ≡ false = ground (arith, full) in
          rw (object, full, more) (by_block (malloc (u32 (size_next ol.size * 4))))
      | inr not_full ↦
          let more : ltb (ol.curr + 1) ol.size ≡ true = ground (arith, not_full) in
          rw (object, not_full, more) refl
    ]
  ]
    where
      by_block :
          (b : Option (ℕ → ℕ))
          → (after_growth malloc item (elim b as (λ x. Bool × ObjectList) [
            | none ↦ (false, ol)
            | some block ↦ (
              true,
              record ol { list = some (copied ol.curr (words ol) block); size = size_next ol.size },
            )
          ])).0
            ≡ has_block b
      by_block none = refl
      by_block (some block) = refl

  done :
      ol.curr < ol.size
      → ol.size < 2 ^ 29
      → i < 2 ^ 32
      → IsPushed ol item i (olist_item_push malloc ol item)
  unfolding olist_item_push
  done h small w = elim (Bool-cases (item == 0)) [
    | inl null ↦ rw null (refl, refl, h, refl)
    | inr object ↦ elim (Bool-cases (leb (ol.size - 1) ol.curr)) [
      | inl full ↦ rw (object, full) (grown-IsPushed h small w)
      | inr not_full ↦
          let more : ol.curr + 1 < ol.size = ground arith in
          rw (object, not_full)
            (append-IsPushed ol (record { curr = refl; same = λ j lt. refl; room = more })
              (omega arith) w)
    ]
  ]

  -- In a list that holds fewer items than its size, and whose size is below 2 ^ 29, pushing an item
  -- and reading the list at any word gives the item at the new index and what the list held at
  -- every other one; the list still holds fewer items than its size, and the item is the next one
  -- to be popped. The push succeeds when the item is not null and there is room or `malloc` gives a
  -- block for the next size; a push that fails changes nothing that can be read.
  pub olist_item_push-IsPushed :
      ol.curr < ol.size
      → ol.size < 2 ^ 29
      → i < 2 ^ 32
      → IsPushed ol item i (olist_item_push malloc ol item)
        × ((olist_item_push malloc ol item).0 ≡ succeeds)
  olist_item_push-IsPushed h small w = (done h small w, pushes h)

get-below :
    (ol : ObjectList) (i : ℕ)
    → ol.curr < 2 ^ 31
    → i < 2 ^ 32
    → olist_item_get ol i ≡ (if ltb i ol.curr then words ol i else 0)
unfolding olist_item_get
get-below ol i small w = elim (Bool-cases (ltb i ol.curr)) [
  | inl below ↦ rw (outside-inside ol i small (ground arith), below) refl
  | inr above ↦ rw (outside-beyond ol i small w (ground arith), above) refl
]

-- What is left of a list whose item at `index` is gone.
shorter-get :
    (ol left : ObjectList) (index i : ℕ)
    → index < ol.curr
    → ol.curr < 2 ^ 31
    → i < 2 ^ 32
    → left.curr ≡ ol.curr - 1
    → (i < ol.curr - 1 → words left i ≡ words ol (if i == index then ol.curr - 1 else i))
    → olist_item_get left i ≡ (
        if ltb i (ol.curr - 1)
        then olist_item_get ol (if i == index then ol.curr - 1 else i)
        else 0)
shorter-get ol left index i h small w curr kept =
    let from : ℕ = if i == index then ol.curr - 1 else i in
    rw (get-below left i (omega arith) w, curr)
      (elim (Bool-cases (ltb i (ol.curr - 1))) [
        | inl below ↦
            let lt : i < ol.curr - 1 = ground arith in
            let inside : ltb from ol.curr ≡ true = ground arith in
            rw (below, get-below ol from small (ground arith), inside) (kept lt)
        | inr above ↦ rw above refl
      ])

-- Removing the item with an index puts the last item in its place: the list is shorter by one, and
-- every other item keeps its index.
pub olist_item_remove-moves_last :
    (ol : ObjectList) (index i : ℕ)
    → index < ol.curr
    → ol.curr < 2 ^ 31
    → i < 2 ^ 32
    → ((olist_item_remove ol index).curr ≡ ol.curr - 1)
      × (olist_item_get (olist_item_remove ol index) i ≡ (
          if ltb i (ol.curr - 1)
          then olist_item_get ol (if i == index then ol.curr - 1 else i)
          else 0))
unfolding olist_item_remove
olist_item_remove-moves_last ol index i h small w =
    let inside = outside-inside ol index small h in
    elim (Bool-cases (index == ol.curr - 1)) [
      | inl last_one ↦
          rw (inside, last_one)
            (
              refl,
              shorter-get ol (record ol { curr = ol.curr - 1 }) index i h small w refl
                  (λ lt. ground arith),
            )
      | inr other ↦
          rw (inside, other)
            (
              refl,
              shorter-get ol
                  (record ol {
                    curr = ol.curr - 1;
                    list = some (update (words ol) index (words ol (ol.curr - 1)));
                  })
                  index i h small w refl (λ lt. moved (i == index)),
            )
    ]
  where
    moved :
        (t : Bool)
        → (if t then words ol (ol.curr - 1) else words ol i)
          ≡ words ol (if t then ol.curr - 1 else i)
    moved true = refl
    moved false = refl
