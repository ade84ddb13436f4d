-- ===== src/Library/Buddy/Free.antt =====
-- The free lists: a block that is added to the front of a list and removed again.
use sth.Base.{
  ℕ, ◌+◌, ◌*◌, ◌/◌, ◌%◌, ◌^◌, ◌<◌, ◌≡◌, ◌≢◌, refl, arith, ◌==◌, update, bit_and, bit_or, ne→==,
  eq→==, sym, ◌∙◌, bit_and_mask, bit_and_split, bit_or_split, bit_and-zero, bit_or-zero,
  zero-bit_or, ◌<<<◌, ◌⊎◌, inl, inr, Bool-cases, ==→eq,
}
use sth.Library.Buddy.{
  Buddy, buddy_add_free, buddy_remove_free, flag_free, mask_order, mask_next, mask_prev, nil,
  get_next, get_prev, set_prev, set_free,
}

-- An index below the high digits of a word.
or_low : (h a index : ℕ) → a ≡ h * 2 ^ 27 → index < 2 ^ 27 → bit_or a index ≡ a + index
or_low h a index e w =
    let high : a / 2 ^ 27 ≡ h = omega arith in
    let no_high : index / 2 ^ 27 ≡ 0 = omega arith in
    let no_low : a % 2 ^ 27 ≡ 0 = omega arith in
    let low : index % 2 ^ 27 ≡ index = omega arith in
    bit_or_split 27 a index
    ∙ rw (high, no_high, no_low, low, bit_or-zero h, zero-bit_or index) (omega arith)

low_next : (index : ℕ) → index < 2 ^ 27 → bit_and (bit_or flag_free index) mask_next ≡ index
low_next index w =
    rw (or_low 16 flag_free index refl w) (bit_and_mask 28 (flag_free + index) ∙ omega arith)

low_prev :
    (order index : ℕ) → index < 2 ^ 27 → bit_and (bit_or (order <<< 27) index) mask_prev ≡ index
low_prev order index w =
    let whole : (order <<< 27) ≡ (order <<< 27) / 2 ^ 27 * 2 ^ 27 = omega arith in
    rw (or_low ((order <<< 27) / 2 ^ 27) (order <<< 27) index whole w)
      (bit_and_mask 27 ((order <<< 27) + index) ∙ omega arith)

keep_order : (x : ℕ) → x < 2 ^ 32 → bit_and x mask_order ≡ x / 2 ^ 27 * 2 ^ 27
keep_order x w =
    let high = bit_and_mask 5 (x / 2 ^ 27) in
    let low = bit_and-zero (x % 2 ^ 27) in bit_and_split 27 x mask_order ∙ omega (arith, high, low)

-- A word whose index is replaced and put back is the same word.
order_kept :
    (x index first : ℕ)
    → x < 2 ^ 32
    → index < 2 ^ 27
    → bit_and x mask_prev ≡ first
    → bit_or (bit_and (bit_or (bit_and x mask_order) index) mask_order) first ≡ x
order_kept x index first w w' e =
    let h = x / 2 ^ 27 in
    let own : first ≡ x % 2 ^ 27 = sym e ∙ bit_and_mask 27 x in
    let replaced = or_low h (h * 2 ^ 27) index refl w' in
    let again : bit_and (h * 2 ^ 27 + index) mask_order ≡ h * 2 ^ 27 =
      keep_order (h * 2 ^ 27 + index) (omega arith) ∙ omega arith in
    rw (keep_order x w, replaced, again)
      (or_low h (h * 2 ^ 27) first refl (omega (arith, own)) ∙ omega (arith, own))

update-update : (f : ℕ → ℕ) (a v w i : ℕ) → f a ≡ w → update (update f a v) a w i ≡ f i
update-update f a v w i e = elim (Bool-cases (i == a)) [
  | inl here ↦ rw (==→eq i a here, eq→== a a refl) (sym e)
  | inr other ↦ rw other refl
]

-- The free list of the order is empty, or its first block, another one, has no block before it.
pub record IsHead (b : Buddy) (index order : ℕ) : Type 0 where
  pub first :
      (b.free order ≡ nil)
      ⊎ ((b.free order < 2 ^ 27)
          × (b.free order ≢ index)
          × (get_prev b (b.free order) ≡ b.free order)
          × (b.prev (b.free order) < 2 ^ 32))

-- The allocator with `block` in front of a list whose old head is `next_`.
abbrev with_head : Buddy → (block order next_ : ℕ) → Buddy
with_head c block order next_ = record c {
  next = update c.next block (bit_or flag_free next_);
  prev = update c.prev block (bit_or (order <<< 27) block);
  free = update c.free order block;
}

module _ (b : Buddy) (index order : ℕ) where
  add-empty : b.free order ≡ nil → buddy_add_free b index order ≡ with_head b index order index
  unfolding buddy_add_free
  add-empty e = rw (eq→== (b.free order) nil e) refl

  add-linked :
      b.free order ≢ nil
      → buddy_add_free b index order
        ≡ with_head (set_prev b (b.free order) index) index order (b.free order)
  unfolding buddy_add_free
  add-linked ne = rw (ne→== (b.free order) nil ne) refl

  remove-alone :
      get_prev b index ≡ index
      → get_next b index ≡ index
      → buddy_remove_free b index order ≡ set_free b order nil
  unfolding buddy_remove_free
  remove-alone p n = rw (eq→== (get_prev b index) index p, eq→== (get_next b index) index n) refl

  remove-first :
      (first : ℕ)
      → get_prev b index ≡ index
      → get_next b index ≡ first
      → first ≢ index
      → buddy_remove_free b index order ≡ set_prev (set_free b order first) first first
  unfolding buddy_remove_free
  remove-first first p n ne = rw (eq→== (get_prev b index) index p, n, ne→== first index ne) refl

-- The words of the new head.
head-next :
    (c : Buddy) (block order next_ : ℕ)
    → next_ < 2 ^ 27
    → get_next (with_head c block order next_) block ≡ next_
head-next c block order next_ w = rw (eq→== block block refl) (low_next next_ w)

head-prev :
    (c : Buddy) (block order next_ : ℕ)
    → block < 2 ^ 27
    → get_prev (with_head c block order next_) block ≡ block
head-prev c block order next_ w = rw (eq→== block block refl) (low_prev order block w)

module _ (b : Buddy) (index order : ℕ) where
  -- When the free list of an order is empty, or its first block is another one without a block
  -- before it, removing a block with an index below 2 ^ 27 that has just been added to this list
  -- gives every free list its old head back, and every other block its old words.
  pub buddy_remove_free-add_free :
      (i o : ℕ)
      → IsHead b index order
      → index < 2 ^ 27
      → i ≢ index
      → ((buddy_remove_free (buddy_add_free b index order) index order).free o ≡ b.free o)
        × ((buddy_remove_free (buddy_add_free b index order) index order).prev i ≡ b.prev i)
        × ((buddy_remove_free (buddy_add_free b index order) index order).next i ≡ b.next i)
  buddy_remove_free-add_free i o head w ne = elim (head.first) [
    | inl empty ↦
        let c = with_head b index order index in
        rw
          (
            add-empty b index order empty,
            remove-alone c index order (head-prev b index order index w)
                (head-next b index order index w),
          )
          (
            update-update b.free order index nil o empty,
            rw (ne→== i index ne) refl,
            rw (ne→== i index ne) refl,
          )
    | inr (w', other, alone, word) ↦
        let first = b.free order in
        let linked = set_prev b first index in
        let c = with_head linked index order first in
        rw
          (
            add-linked b index order (λ e. absurd (omega (arith, e, w'))),
            remove-first c index order first (head-prev linked index order first w)
                (head-next linked index order first w') other,
          )
          (
            update-update b.free order index first o refl,
            elim (Bool-cases (i == first)) [
              | inl here ↦
                  rw (==→eq i first here, eq→== first first refl, ne→== first index other)
                    (order_kept (b.prev first) index first word w alone)
              | inr there ↦ rw (there, ne→== i index ne) refl
            ],
            rw (ne→== i index ne) refl,
          )
  ]
