-- ===== src/Library/Bitset.antt =====
-- Bit sets (library/util/src/bitset.c). `malloc` gives the words of a new block, or nothing.
pub mod Laws
use sth.Base.{
  ℕ, zero, suc, ◌+◌, ◌/◌, bit_and, bit_or, Bool, false, not, ◌||◌, Option, none, some, ◌==◌,
  if◌then◌else◌, update, u32, not32, slt, ◌<<<◌, ◌>>>◌,
}

-- `size` is an `int`, kept as a word.
pub record Bitset : Type 0 where
  pub size : ℕ
  pub data_ : ℕ → ℕ

unfoldable pub bitset_init : (malloc : ℕ → Option (ℕ → ℕ)) (size : ℕ) → Option Bitset
bitset_init malloc size =
    let rounded = bit_and (u32 (size + 31)) (not32 31) in
    elim (malloc (u32 (4 + rounded / 8))) [
      | none ↦ none
      | some words ↦ some (record { size = rounded; data_ = words })
    ]

-- `n < 0 || n >= b->size`
abbrev pub outside : Bitset → ℕ → Bool
outside b n = slt n 0 || not (slt n b.size)

abbrev put_word : Bitset → (index word : ℕ) → Bitset
put_word b index word = record b { data_ = update b.data_ index word }

-- Of a set that is there; with a null pointer nothing is done.
abbrev set_in : Bitset → (n : ℕ) → Bool → Bitset
set_in b n value =
    let index = n >>> 5 in
    let bit = 1 <<< bit_and n 31 in
    if outside b n
    then b
    else if value
    then put_word b index (bit_or (b.data_ index) bit)
    else put_word b index (bit_and (b.data_ index) (not32 bit))

unfoldable pub bitset_set : Option Bitset → (n : ℕ) → Bool → Option Bitset
bitset_set none n value = none
bitset_set (some b) n value = some (set_in b n value)

unfoldable pub bitset_get : Option Bitset → (n : ℕ) → Bool
bitset_get none n = false
bitset_get (some b) n =
    if outside b n then false else not (bit_and (b.data_ (n >>> 5)) (1 <<< bit_and n 31) == 0)

-- `while(cnt--) *ptr++ = val`
pub fill : (val cnt ptr : ℕ) → (ℕ → ℕ) → ℕ → ℕ
fill val zero ptr words = words
fill val (suc cnt) ptr words = fill val cnt (ptr + 1) (update words ptr val)

unfoldable pub bitset_set_all : Option Bitset → Bool → Option Bitset
unfolding fill
bitset_set_all none value = none
bitset_set_all (some b) value =
    let val = if value then 0xffff_ffff else 0 in
    some (record b { data_ = fill val (b.size >>> 5) 0 b.data_ })
