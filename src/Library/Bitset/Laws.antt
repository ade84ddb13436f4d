-- ===== src/Library/Bitset/Laws.antt =====
-- A bit set as a function from positions to Booleans.
use sth.Base.{
  ℕ, zero, suc, ◌+◌, ◌/◌, ◌*◌, ◌-◌, ◌%◌, ◌^◌, ◌≤◌, ◌<◌, ◌≡◌, refl, ◌∙◌, bit_and, Bool, true, false,
  Option, some, ◌==◌, if◌then◌else◌, update, u32, not32, ◌<<<◌, ◌>>>◌, arith, ◌⊎◌, inl, inr,
  bit_and_mask, bit_at, bit_at-not32, bit_at-nothing, bit_and_clear_low_five, bit_and-power,
  Bool-cases, power-lt, or-power, and-power,
}
use native.Mathlib.Nat.{pow-le-pow_right}
use sth.Library.Bitset.{
  Bitset, outside, bitset_init, bitset_set, bitset_get, bitset_set_all, fill, set_in, put_word,
}

-- The bit of position `n` in its word.
abbrev bit_of : Bitset → ℕ → ℕ
bit_of b n = bit_at (b.data_ (n / 32)) (n % 32)

mask-power : (n : ℕ) → 1 <<< bit_and n 31 ≡ 2 ^ (n % 32)
mask-power n = rw (bit_and_mask 5 n) (omega (arith, power-lt (n % 32) (omega arith)))

module _ (b : Bitset) (small : b.size < 2 ^ 31) where
  outside-inside : (n : ℕ) → n < b.size → outside b n ≡ false
  outside-inside n h = ground arith

  bitset_get-bit : (n : ℕ) → n < b.size → bitset_get (some b) n ≡ (bit_of b n == 1)
  unfolding bitset_get
  bitset_get-bit n h =
      let bit = bit_and-power (n % 32) (b.data_ (n / 32)) in
      let room = pow-le-pow_right {n = 2} (omega arith) {i = 0} {j = n % 32} (omega arith) in
      rw (outside-inside n h, mask-power n, bit)
        (elim (low (b.data_ (n / 32) / 2 ^ (n % 32))) [
          | inl zero_bit ↦ rw zero_bit (ground arith)
          | inr one_bit ↦ rw one_bit (ground (arith, room))
        ])
    where
      low : (w : ℕ) → (w % 2 ≡ 0) ⊎ (w % 2 ≡ 1)
      low w = ground arith

  put_word-bit :
      (n m word v : ℕ)
      → bit_at word (m % 32) ≡ (if m % 32 == n % 32 then v else bit_at (b.data_ (n / 32)) (m % 32))
      → bit_of (put_word b (n / 32) word) m ≡ (if m == n then v else bit_of b m)
  put_word-bit n m word v h = elim (Bool-cases (m / 32 == n / 32)) [
    | inl same ↦ rw same (same_word (ground arith))
    | inr other ↦ rw other (ground arith)
  ]
    where
      same_word : m / 32 ≡ n / 32 → bit_at word (m % 32) ≡ (if m == n then v else bit_of b m)
      same_word e = rw e (h ∙ same_place (ground arith))
        where
          same_place :
              (m % 32 == n % 32) ≡ (m == n)
              → (if m % 32 == n % 32 then v else bit_at (b.data_ (n / 32)) (m % 32))
                ≡ (if m == n then v else bit_at (b.data_ (n / 32)) (m % 32))
          same_place t = rw t refl

  set_in-bit :
      (n m : ℕ) (value : Bool)
      → n < b.size
      → bit_of (set_in b n value) m ≡ (if m == n then (if value then 1 else 0) else bit_of b m)
  set_in-bit n m true h =
      rw (outside-inside n h, mask-power n)
        (put_word-bit n m _ 1 (or-power (b.data_ (n / 32)) (n % 32) (m % 32)))
  set_in-bit n m false h =
      rw (outside-inside n h, mask-power n)
        (put_word-bit n m _ 0
          (and-power (b.data_ (n / 32)) (n % 32) (m % 32) (omega arith) (omega arith)))

set_in-size : (b : Bitset) (n : ℕ) (value : Bool) → (set_in b n value).size ≡ b.size
set_in-size b n value = ground arith

-- In a set of fewer than 2 ^ 31 positions, writing a position of the set makes `bitset_get` answer
-- the value there, and leaves the answer at every other position of the set as it was.
pub bitset_get-set :
    (b : Bitset) (n m : ℕ) (value : Bool)
    → b.size < 2 ^ 31
    → n < b.size
    → m < b.size
    → bitset_get (bitset_set (some b) n value) m ≡ (if m == n then value else bitset_get (some b) m)
unfolding bitset_set
bitset_get-set b n m value small h h' =
    let size = set_in-size b n value in
    rw
      (
        bitset_get-bit (set_in b n value) (omega (arith, size)) m (omega (arith, size)),
        set_in-bit b small n m value h,
        bitset_get-bit b small m h',
      )
      (by_test (m == n) value)
  where
    by_test :
        (t v : Bool)
        → ((if t then (if v then 1 else 0) else bit_of b m) == 1)
          ≡ (if t then v else (bit_of b m == 1))
    by_test true true = refl
    by_test true false = refl
    by_test false v = refl

fill-words :
    (val cnt ptr i : ℕ) (words : ℕ → ℕ) → ptr ≤ i → i < ptr + cnt → fill val cnt ptr words i ≡ val
unfolding fill
fill-words val zero ptr i words lo hi = absurd (omega arith)
fill-words val (suc cnt) ptr i words lo hi = elim (Bool-cases (i == ptr)) [
  | inl here ↦ first cnt (ptr + 1) (update words ptr val) (ground arith) (ground arith)
  | inr later ↦ fill-words val cnt (ptr + 1) i (update words ptr val) (ground arith) (omega arith)
]
  where
    first : (cnt p : ℕ) (w : ℕ → ℕ) → i < p → w i ≡ val → fill val cnt p w i ≡ val
    first zero p w h e = e
    first (suc cnt) p w h e = first cnt (p + 1) (update w p val) (omega arith) (ground arith)

all_ones : (k : ℕ) → k < 32 → bit_at 0xffff_ffff k ≡ 1
all_ones k h = omega (arith, bit_at-not32 k 0 h (omega arith), bit_at-nothing k)

bitset_init-size :
    (malloc : ℕ → Option (ℕ → ℕ)) (size : ℕ) {b : Bitset}
    → size < 2 ^ 31 - 31
    → bitset_init malloc size ≡ some b
    → b.size ≡ (size + 31) / 32 * 32
unfolding bitset_init
bitset_init-size malloc size {b} w e =
    let wrap : u32 (size + 31) ≡ size + 31 = omega arith in
    let rounded : bit_and (u32 (size + 31)) (not32 31) ≡ (size + 31) / 32 * 32 =
      rw wrap (bit_and_clear_low_five (size + 31) (omega arith)) in
    ground (arith, rounded)

set_all-bit :
    (b : Bitset) (n : ℕ) (value : Bool)
    → b.size < 2 ^ 31
    → b.size % 32 ≡ 0
    → n < b.size
    → bitset_get (bitset_set_all (some b) value) n ≡ value
unfolding bitset_set_all
set_all-bit b n value small whole h =
    let val : ℕ = if value then 0xffff_ffff else 0 in
    let filled : Bitset = record b { data_ = fill val (b.size >>> 5) 0 b.data_ } in
    let word = fill-words val (b.size >>> 5) 0 (n / 32) b.data_ (omega arith) (omega arith) in
    rw (bitset_get-bit filled small n h, word) (ones value)
  where
    ones : (v : Bool) → (bit_at (if v then 0xffff_ffff else 0) (n % 32) == 1) ≡ v
    ones true = rw (all_ones (n % 32) (omega arith)) refl
    ones false = rw (bit_at-nothing (n % 32)) refl

-- A set from `bitset_init` has a whole number of words and room for the positions asked for; after
-- `bitset_set_all` each of its positions has the value.
pub bitset_get-set_all-init :
    (malloc : ℕ → Option (ℕ → ℕ)) (size n : ℕ) (value : Bool) {b : Bitset}
    → size < 2 ^ 31 - 31
    → bitset_init malloc size ≡ some b
    → n < b.size
    → (size ≤ b.size) × (b.size % 32 ≡ 0) × (bitset_get (bitset_set_all (some b) value) n ≡ value)
bitset_get-set_all-init malloc size n value {b} w e h =
    let rounded = bitset_init-size malloc size w e in
    (
      omega (arith, rounded),
      omega (arith, rounded),
      set_all-bit b n value (omega (arith, rounded)) (omega (arith, rounded)) h,
    )
