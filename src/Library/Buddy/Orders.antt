-- ===== src/Library/Buddy/Orders.antt =====
-- The order of a size.
use sth.Base.{
  ℕ, zero, suc, ◌+◌, ◌-◌, ◌^◌, ◌≤◌, ◌<◌, ◌≡◌, refl, arith, false, some, ltb, ◌⊎◌, inl, inr,
  Bool-cases,
}
use sth.Library.Buddy.{Buddy}
use sth.Library.Buddy.Alloc.{order_from, buddy_get_order_from_size}

-- `k` is the least number from `ret` on with room for `size`.
record IsLeast (size ret k : ℕ) : Type 0 where
  from : ret ≤ k
  room : size ≤ 2 ^ k
  least : (k ≡ ret) ⊎ (2 ^ (k - 1) < size)

order_from-IsLeast :
    (rounds size ret : ℕ)
    → ret + rounds ≡ 31
    → size ≤ 2 ^ 31
    → (k : ℕ) × (order_from (suc rounds) size ret ≡ some k) × IsLeast size ret k
unfolding order_from
order_from-IsLeast zero size ret e h =
    let at : ret ≡ 31 = omega arith in
    let enough : ltb (2 ^ ret) size ≡ false = rw at (ground arith) in
    (
      ret,
      rw enough refl,
      record { from = omega arith; room = rw at (omega arith); least = inl refl },
    )
order_from-IsLeast (suc rounds) size ret e h = elim (Bool-cases (ltb (2 ^ ret) size)) [
  | inl more ↦
      let (k, run, least) = order_from-IsLeast rounds size (ret + 1) (omega arith) h in
      (
        k,
        rw more run,
        record {
          from = omega (arith, least.from);
          room = least.room;
          least = inr (elim (least.least) [
            | inl here ↦ let before : k - 1 ≡ ret = omega arith in rw before (ground arith)
            | inr later ↦ later
          ]);
        },
      )
  | inr enough ↦
      (ret, rw enough refl, record { from = omega arith; room = ground arith; least = inl refl })
]

-- With pages of fewer than 2 ^ 32 bytes and for a size of at most 2 ^ 31 bytes,
-- `buddy_get_order_from_size` ends and gives the least order whose blocks have room for it.
pub buddy_get_order_from_size-least :
    (b : Buddy) (size : ℕ)
    → b.page_bits < 32
    → size ≤ 2 ^ 31
    → (order : ℕ) × (buddy_get_order_from_size b size ≡ some order)
      × (size ≤ 2 ^ (b.page_bits + order))
      × ((order ≡ 0) ⊎ (2 ^ (b.page_bits + order - 1) < size))
unfolding buddy_get_order_from_size
buddy_get_order_from_size-least b size small h =
    let (k, run, least) = order_from-IsLeast (31 - b.page_bits) size b.page_bits (omega arith) h in
    let rounds : 32 - b.page_bits ≡ suc (31 - b.page_bits) = omega arith in
    let total : b.page_bits + (k - b.page_bits) ≡ k = omega (arith, least.from) in
    (
      k - b.page_bits,
      rw (buddy_get_order_from_size, rounds, run) refl,
      rw total least.room,
      elim (least.least) [ inl here ↦ inl (omega arith) | inr later ↦ inr (rw total later) ],
    )
