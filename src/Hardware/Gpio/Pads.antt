-- ===== src/Hardware/Gpio/Pads.antt =====
-- The configurations of the pads, two to a word.
use sth.Base.{
  ℕ, ◌+◌, ◌*◌, ◌/◌, ◌%◌, ◌^◌, ◌≤◌, ◌<◌, ◌≡◌, refl, arith, bit_and, bit_or, Bool, true, false, ◌==◌,
  if◌then◌else◌, some, sym, ◌∙◌, ap, Bool-cases, inl, inr, eq→==, bit_and_split, bit_and_mask,
  bit_and-zero, bit_or_split, bit_or-zero, zero-bit_or, bit_or-lt, ◌⊎◌,
}
use sth.Hardware.{Bus}
use sth.Hardware.Gpio.{gpio_set_pad_configuration, pad_config, pad_value, with_pad}

-- The configuration of a pad in its word.
abbrev pub pad_of : (words : ℕ → ℕ) (item : ℕ) → ℕ
pad_of words item = if item % 2 == 0 then words (item / 2) % 2 ^ 16 else words (item / 2) / 2 ^ 16

-- The half of a word that belongs to pad `m`.
abbrev half : (m w : ℕ) → ℕ
half m w = if m % 2 == 0 then w % 2 ^ 16 else w / 2 ^ 16

pad_value-small : (mode : ℕ) (i e u : Bool) → mode < 2 ^ 16 → pad_value mode i e u < 2 ^ 16
pad_value-small mode i e u h =
    or_if u
      (if e
        then bit_or (if i then bit_or mode 0x100 else mode) 0x8
        else if i
        then bit_or mode 0x100
        else mode)
      0x10
      (or_if e (if i then bit_or mode 0x100 else mode) 0x8 (or_if i mode 0x100 h (omega arith))
        (omega arith))
      (omega arith)
  where
    or_if : (t : Bool) (v b : ℕ) → v < 2 ^ 16 → b < 2 ^ 16 → (if t then bit_or v b else v) < 2 ^ 16
    or_if true v b h h' = bit_or-lt 16 v b h h'
    or_if false v b h h' = h

-- The configuration words of the first `count` pads can be read and written.
pub record HasPads {D : Type 0} (bus : Bus D) (words : D → ℕ → ℕ) (count : ℕ) : Type 0 where
  pub word_sized : (d : D) (k : ℕ) → words d k < 2 ^ 32
  pub read_pad :
      (item : ℕ) (d : D) → item < count → bus.read (pad_config item) d ≡ (words d (item / 2), d)
  pub write_pad :
      (item w other : ℕ) (d : D)
      → item < count
      → w < 2 ^ 32
      → words (bus.write (pad_config item) w d) other
        ≡ (if other == item / 2 then w else words d other)

low_bit : (item : ℕ) → bit_and item 1 ≡ item % 2
low_bit item = bit_and_mask 1 item

join_halves : (high low : ℕ) → low < 2 ^ 16 → bit_or (high * 2 ^ 16) low ≡ high * 2 ^ 16 + low
join_halves high low h =
    let no_high : low / 2 ^ 16 ≡ 0 = omega arith in
    let all_low : low % 2 ^ 16 ≡ low = omega arith in
    let whole : high * 2 ^ 16 / 2 ^ 16 ≡ high = omega arith in
    let no_low : high * 2 ^ 16 % 2 ^ 16 ≡ 0 = omega arith in
    bit_or_split 16 (high * 2 ^ 16) low
    ∙ rw (no_high, all_low, whole, no_low, bit_or-zero high, zero-bit_or low) refl

join_low_half : (high low : ℕ) → low < 2 ^ 16 → bit_or low (high * 2 ^ 16) ≡ high * 2 ^ 16 + low
join_low_half high low h =
    let no_high : low / 2 ^ 16 ≡ 0 = omega arith in
    let all_low : low % 2 ^ 16 ≡ low = omega arith in
    let whole : high * 2 ^ 16 / 2 ^ 16 ≡ high = omega arith in
    let no_low : high * 2 ^ 16 % 2 ^ 16 ≡ 0 = omega arith in
    bit_or_split 16 low (high * 2 ^ 16)
    ∙ rw (no_high, all_low, whole, no_low, zero-bit_or high, bit_or-zero low) refl

parity : (n : ℕ) → (n % 2 ≡ 0) ⊎ (n % 2 ≡ 1)
parity n = ground arith

with_pad-even :
    (item val tmp : ℕ)
    → item % 2 ≡ 0
    → val < 2 ^ 16
    → tmp < 2 ^ 32
    → with_pad item val tmp ≡ tmp / 2 ^ 16 * 2 ^ 16 + val
with_pad-even item val tmp even h h' =
    let kept : bit_and tmp 0xffff_0000 ≡ tmp / 2 ^ 16 * 2 ^ 16 = omega (
      arith,
      bit_and_split 16 tmp 0xffff_0000,
      bit_and_mask 16 (tmp / 2 ^ 16),
      bit_and-zero (tmp % 2 ^ 16),
    ) in
    rw (low_bit item, even, kept) (join_halves (tmp / 2 ^ 16) val h)

with_pad-odd :
    (item val tmp : ℕ)
    → item % 2 ≡ 1
    → val < 2 ^ 16
    → with_pad item val tmp ≡ val * 2 ^ 16 + tmp % 2 ^ 16
with_pad-odd item val tmp odd h =
    rw (low_bit item, odd, bit_and_mask 16 tmp)
      (ap (λ w. bit_or (tmp % 2 ^ 16) w) (omega (arith, h))
        ∙ join_low_half val (tmp % 2 ^ 16) (omega arith))

with_pad-small : (item val tmp : ℕ) → val < 2 ^ 16 → tmp < 2 ^ 32 → with_pad item val tmp < 2 ^ 32
with_pad-small item val tmp h h' = elim (parity item) [
  | inl even ↦ omega (arith, with_pad-even item val tmp even h h')
  | inr odd ↦ omega (arith, with_pad-odd item val tmp odd h)
]

-- The value is in the half of the word for its pad, and the other half stays.
with_pad-halves :
    (item val tmp : ℕ)
    → val < 2 ^ 16
    → tmp < 2 ^ 32
    → (if item % 2 == 0 then with_pad item val tmp % 2 ^ 16 else with_pad item val tmp / 2 ^ 16)
      ≡ val
with_pad-halves item val tmp h h' = elim (parity item) [
  | inl even ↦ rw (with_pad-even item val tmp even h h', even) (omega arith)
  | inr odd ↦ rw (with_pad-odd item val tmp odd h, odd) (omega arith)
]

with_pad-other :
    (item m val tmp : ℕ)
    → (m == item) ≡ false
    → m / 2 ≡ item / 2
    → val < 2 ^ 16
    → tmp < 2 ^ 32
    → (if m % 2 == 0 then with_pad item val tmp % 2 ^ 16 else with_pad item val tmp / 2 ^ 16)
      ≡ (if m % 2 == 0 then tmp % 2 ^ 16 else tmp / 2 ^ 16)
with_pad-other item m val tmp other same h h' = elim (parity item) [
  | inl even ↦
      let odd : m % 2 ≡ 1 = ground (arith, other) in
      rw (with_pad-even item val tmp even h h', odd) (omega arith)
  | inr odd ↦
      let even : m % 2 ≡ 0 = ground (arith, other) in
      rw (with_pad-odd item val tmp odd h, even) (omega arith)
]

-- With configuration words that can be read and written for the first `count` pads, at most 2 ^ 31,
-- and a mode of at most 16 bits, gpio_set_pad_configuration of one of them returns, and afterwards the
-- configuration of this pad is the one asked for and that of every other pad is as it was.
pub gpio_set_pad_configuration-pad :
    (D : Type 0) (bus : Bus D) (words : D → ℕ → ℕ) (count item mode : ℕ) (i e u : Bool) (d : D)
    → HasPads bus words count
    → item < count
    → count ≤ 2 ^ 31
    → mode < 2 ^ 16
    → (d' : D) × (gpio_set_pad_configuration bus item mode i e u d ≡ some (tt, d'))
      × ((m : ℕ)
          → pad_of (words d') m ≡ (if m == item then pad_value mode i e u else pad_of (words d) m))
unfolding gpio_set_pad_configuration
gpio_set_pad_configuration-pad D bus words count item mode i e u d hw h few small =
    let val = pad_value mode i e u in
    let tmp = words d (item / 2) in
    let fits = pad_value-small mode i e u small in
    (
      bus.write (pad_config item) (with_pad item val tmp) d,
      rw (hw.read_pad item d h) refl,
      λ m.
          ap (λ w. if m % 2 == 0 then w % 2 ^ 16 else w / 2 ^ 16)
            (hw.write_pad item (with_pad item val tmp) (m / 2) d h
              (with_pad-small item val tmp fits (hw.word_sized d (item / 2))))
          ∙ after val tmp fits (hw.word_sized d (item / 2)) m,
    )
  where
    after :
        (val tmp : ℕ)
        → val < 2 ^ 16
        → words d (item / 2) < 2 ^ 32
        → (m : ℕ)
        → half m
            (if m / 2 == item / 2 then with_pad item val (words d (item / 2)) else words d (m / 2))
          ≡ (if m == item then val else pad_of (words d) m)
    after val tmp fits sized m = elim (Bool-cases (m == item)) [
      | inl same ↦
          let here : m ≡ item = ground (arith, same) in
          rw same (
            ap
              (λ k. half k (
                if k / 2 == item / 2
                then with_pad item val (words d (item / 2))
                else words d (k / 2)))
              here
            ∙ rw (eq→== (item / 2) (item / 2) refl)
                (with_pad-halves item val (words d (item / 2)) fits sized))
      | inr other ↦ rw other (elim (Bool-cases (m / 2 == item / 2)) [
        | inl near ↦
            let word : m / 2 ≡ item / 2 = ground (arith, near) in
            rw near (
              with_pad-other item m val (words d (item / 2)) other word fits sized
              ∙ ap (λ k. half m (words d k)) (sym word))
        | inr far ↦ rw far refl
      ])
    ]
