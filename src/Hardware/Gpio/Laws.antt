-- ===== src/Hardware/Gpio/Laws.antt =====
-- The outputs that gpio_set_data sets.
use sth.Base.{
  ℕ, ◌/◌, ◌%◌, ◌^◌, ◌≤◌, ◌<◌, ◌≡◌, refl, arith, bit_and, bit_or, Bool, true, false, not, ◌||◌, ◌==◌,
  if◌then◌else◌, not32, slt, leb, some, ◌∙◌, ap, bit_at, or-power, and-power, ne→==,
}
use sth.Hardware.{Bus, io_va_address}
use sth.Hardware.Intc.Laws.{masked, same_bit}
use sth.Hardware.Gpio.{gpio_get_bank, gpio_set_data, change_bit, dataout, gpio_bank_adr}

-- The output registers of the six banks are words that can be read and written.
pub record HasOutputs {D : Type 0} (bus : Bus D) (outputs : D → ℕ → ℕ) : Type 0 where
  pub read_out :
      (bank : ℕ) (d : D)
      → bank < 6
      → bus.read (dataout (gpio_get_bank bank)) d ≡ (outputs d bank, d)
  pub write_out :
      (bank w other : ℕ) (d : D)
      → bank < 6
      → outputs (bus.write (dataout (gpio_get_bank bank)) w d) other
        ≡ (if other == bank then w else outputs d other)

bank_adr-bounds :
    (bank : ℕ) → (0x4831_0000 ≤ gpio_bank_adr bank) × (gpio_bank_adr bank ≤ 0x4905_8000)
bank_adr-bounds bank = ground arith

bank_adr-not_null : (bank : ℕ) → bank < 6 → (gpio_get_bank bank == 0) ≡ false
unfolding gpio_get_bank
bank_adr-not_null bank h =
    let inside : (slt bank 0 || not (slt bank 6)) ≡ false = ground arith in
    let (low, high) = bank_adr-bounds bank in
    rw inside (ne→== (io_va_address (gpio_bank_adr bank)) 0 (omega (arith, low, high)))

-- With output registers that can be read and written, for a pin of the six banks gpio_set_data
-- returns, and afterwards the output of the pin is the one asked for and that of every other pin is
-- as it was.
pub gpio_set_data-output :
    (D : Type 0) (bus : Bus D) (outputs : D → ℕ → ℕ) (pin : ℕ) (data_ : Bool) (d : D)
    → HasOutputs bus outputs
    → pin < 192
    → (d' : D) × (gpio_set_data bus pin data_ d ≡ some (tt, d'))
      × ((m : ℕ)
          → masked (outputs d') m
            ≡ (if m == pin then (if data_ then 1 else 0) else masked (outputs d) m))
unfolding gpio_set_data change_bit
gpio_set_data-output D bus outputs pin data_ d hw h =
    let bank = pin / 32 in
    let pos = pin % 32 in
    let positive : slt pin 0 ≡ false = ground arith in
    let there = bank_adr-not_null bank (omega arith) in
    let inside : leb 32 pos ≡ false = ground arith in
    let word =
      if data_
      then bit_or (outputs d bank) (2 ^ pos)
      else bit_and (outputs d bank) (not32 (2 ^ pos)) in
    (
      bus.write (dataout (gpio_get_bank bank)) word d,
      rw (positive, there, inside, hw.read_out bank d (omega arith)) refl,
      λ m.
          ap (λ w. bit_at w (m % 32)) (hw.write_out bank word (m / 32) d (omega arith))
          ∙ same_bit pin m (if data_ then 1 else 0) (outputs d) word
              (new_bit data_ (outputs d bank) m),
    )
  where
    new_bit :
        (t : Bool) (w m : ℕ)
        → bit_at
            (if t then bit_or w (2 ^ (pin % 32)) else bit_and w (not32 (2 ^ (pin % 32))))
            (m % 32)
          ≡ (if m % 32 == pin % 32 then (if t then 1 else 0) else bit_at w (m % 32))
    new_bit true w m = or-power w (pin % 32) (m % 32)
    new_bit false w m = and-power w (pin % 32) (m % 32) (omega arith) (omega arith)
