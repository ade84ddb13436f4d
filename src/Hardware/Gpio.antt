-- ===== src/Hardware/Gpio.antt =====
-- The pins and their pads (core/hw/soc/omap35xx/soc_gpio.c). An `int` is a word in two's complement.
pub mod Laws
pub mod Pads
use sth.Base.{
  ℕ, zero, suc, ◌+◌, ◌-◌, ◌*◌, ◌/◌, ◌%◌, ◌^◌, bit_and, bit_or, Bool, true, false, not, ◌||◌, ◌==◌,
  leb, if◌then◌else◌, u32, sub32, not32, slt,
}
use sth.Hardware.{Bus, Io, ◌>>=◌, ◌>>◌, pure, stuck, load, store, io_va_address}

abbrev pub gpio_bank_count : ℕ
gpio_bank_count = 6

abbrev pub gpio_bank_adr : ℕ → ℕ
gpio_bank_adr bank =
    if bank == 0
    then 0x4831_0000
    else if bank == 1
    then 0x4905_0000
    else if bank == 2
    then 0x4905_2000
    else if bank == 3
    then 0x4905_4000
    else if bank == 4
    then 0x4905_6000
    else 0x4905_8000

-- C rounds the quotient of two `int` to 0, and the remainder has the sign of the dividend.
abbrev pub quotient : (n k : ℕ) → ℕ
quotient n k = if slt n 0 then sub32 0 (sub32 0 n / k) else n / k

abbrev pub remainder : (n k : ℕ) → ℕ
remainder n k = if slt n 0 then sub32 0 (sub32 0 n % k) else n % k

abbrev pub gpio_get_bank_from_pin : ℕ → ℕ
gpio_get_bank_from_pin pin = quotient pin 32

abbrev pub gpio_get_position_from_pin : ℕ → ℕ
gpio_get_position_from_pin pin = remainder pin 32

unfoldable pub gpio_get_bank : ℕ → ℕ
gpio_get_bank bank =
    if slt bank 0 || not (slt bank gpio_bank_count) then 0 else io_va_address (gpio_bank_adr bank)

abbrev pub irqenable1 : ℕ → ℕ
irqenable1 r = r + 0x1c

abbrev pub irqenable2 : ℕ → ℕ
irqenable2 r = r + 0x2c

abbrev pub oe : ℕ → ℕ
oe r = r + 0x34

abbrev pub datain : ℕ → ℕ
datain r = r + 0x38

abbrev pub dataout : ℕ → ℕ
dataout r = r + 0x3c

abbrev pub pull_enable_bit : ℕ
pull_enable_bit = 0x8

abbrev pub pull_up_bit : ℕ
pull_up_bit = 0x10

abbrev pub input_enable_bit : ℕ
input_enable_bit = 0x100

-- The configuration of a pad.
abbrev pub pad_value : (mode : ℕ) → (is_input pull_enable pull_up : Bool) → ℕ
pad_value mode is_input pull_enable pull_up =
    let v1 = if is_input then bit_or mode input_enable_bit else mode in
    let v2 = if pull_enable then bit_or v1 pull_enable_bit else v1 in
    if pull_up then bit_or v2 pull_up_bit else v2

-- Where the word for a pad is.
abbrev pub pad_config : (item : ℕ) → ℕ
pad_config item = io_va_address (u32 (0x4800_2030 + quotient item 2 * 4))

-- The word for two pads with the value for one of them.
abbrev pub with_pad : (item val tmp : ℕ) → ℕ
with_pad item val tmp =
    if bit_and item 1 == 0
    then bit_or (bit_and tmp 0xffff_0000) val
    else bit_or (bit_and tmp 0xffff) (u32 (val * 2 ^ 16))

module _ {D : Type 0} (bus : Bus D) where
  -- `1 << pos`, which C leaves undefined for a negative place or one that is not in the word.
  abbrev shifted : (pos : ℕ) → Io D ℕ
  shifted pos = if leb 32 pos then stuck else pure (2 ^ pos)

  -- `*reg |= 1 << pos` or `*reg &= ~(1 << pos)`
  unfoldable pub change_bit : (reg pos : ℕ) → (on : Bool) → Io D (Unit {0})
  change_bit reg pos on = do
    bit ← shifted pos
    word ← load bus reg
    store bus reg (if on then bit_or word bit else bit_and word (not32 bit))

  unfoldable pub gpio_set_data : (pin : ℕ) → (data_ : Bool) → Io D (Unit {0})
  unfolding gpio_get_bank change_bit
  gpio_set_data pin data_ =
      let r = gpio_get_bank (gpio_get_bank_from_pin pin) in
      if r == 0 then pure tt else change_bit (dataout r) (gpio_get_position_from_pin pin) data_

  -- `pos` is what the variable of this name, which has no value, holds.
  unfoldable pub gpio_set_direction : (pos pin : ℕ) → (is_input : Bool) → Io D (Unit {0})
  unfolding gpio_get_bank change_bit
  gpio_set_direction pos pin is_input =
      let r = gpio_get_bank (gpio_get_bank_from_pin pin) in
      if r == 0 then pure tt else change_bit (oe r) pos is_input

  unfoldable pub gpio_get_data : (pin : ℕ) → Io D Bool
  unfolding gpio_get_bank
  gpio_get_data pin =
      let r = gpio_get_bank (gpio_get_bank_from_pin pin) in
      if r == 0 then pure false else (do
        word ← load bus (datain r)
        bit ← shifted (gpio_get_position_from_pin pin)
        pure (not (bit_and word bit == 0)))

  -- `for(i = 0; i < GPIO_BANK_COUNT; i++)`
  unfoldable pub disable_interrupts : (count i : ℕ) → Io D (Unit {0})
  unfolding gpio_get_bank
  disable_interrupts zero i = pure tt
  disable_interrupts (suc count) i = do
    store bus (irqenable2 (gpio_get_bank i)) 0
    store bus (irqenable1 (gpio_get_bank i)) 0
    disable_interrupts count (i + 1)

  unfoldable pub soc_gpio_init : Io D (Unit {0})
  unfolding disable_interrupts
  soc_gpio_init = disable_interrupts gpio_bank_count 0

  unfoldable pub gpio_set_pad_configuration :
      (item mode : ℕ) → (is_input pull_enable pull_up : Bool) → Io D (Unit {0})
  gpio_set_pad_configuration item mode is_input pull_enable pull_up = do
    tmp ← load bus (pad_config item)
    store bus (pad_config item) (with_pad item (pad_value mode is_input pull_enable pull_up) tmp)
