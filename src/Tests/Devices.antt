-- ===== src/Tests/Devices.antt =====
-- The theorems on the drivers applied to small devices.
use sth.Base.{
  ℕ, zero, suc, ◌+◌, ◌-◌, ◌*◌, ◌/◌, ◌%◌, ◌^◌, ◌≤◌, ◌<◌, ◌≡◌, refl, arith, bit_and, bit_or, not32,
  Bool, true, false, ◌==◌, if◌then◌else◌, some, update, bit_at, Bool-cases, inl, inr, ltb,
}
use mathlib.Core.Path.{subst}
use sth.Hardware.{Bus, io_va_address}
use sth.Hardware.Intc.{Intc, Functions, intc_base, soc_interrupt_init}
use sth.Hardware.Intc.Laws.{IsController, masked, soc_interrupt_init-masks}
use sth.Hardware.Gpio.{
  gpio_set_data, gpio_get_bank, gpio_set_pad_configuration, dataout, pad_config,
}
use sth.Hardware.Gpio.Laws.{HasOutputs, gpio_set_data-output}
use sth.Hardware.Gpio.Pads.{HasPads, pad_of, gpio_set_pad_configuration-pad}
use sth.Hardware.Timer.{timer_get, tclr, tisr, soc_timer_init}
use sth.Hardware.Timer.Laws.{HasTimers, soc_timer_init-keeps_running}

-- Cases for an index.
first_three : (P : ℕ → Type 0) → P 0 → P 1 → P 2 → (n : ℕ) → n < 3 → P n
first_three P a b c zero h = a
first_three P a b c (suc zero) h = b
first_three P a b c (suc (suc zero)) h = c
first_three P a b c (suc (suc (suc n))) h = absurd (omega arith)

first_six : (P : ℕ → Type 0) → P 0 → P 1 → P 2 → P 3 → P 4 → P 5 → (n : ℕ) → n < 6 → P n
first_six P a b c x y z zero h = a
first_six P a b c x y z (suc zero) h = b
first_six P a b c x y z (suc (suc zero)) h = c
first_six P a b c x y z (suc (suc (suc n))) h =
    first_three (λ k. P (suc (suc (suc k)))) x y z n (omega arith)

-- A controller whose reset takes two reads of the status.
abbrev Controller : Type 0
Controller = (ℕ → ℕ) × ℕ

abbrev mask_words : Controller → ℕ → ℕ
mask_words d = d.0

abbrev resetting : Controller → ℕ
resetting d = d.1

abbrev controller : Bus Controller
controller = record {
  read = λ a d.
      if a == 0xfa20_0014
      then (if d.1 == 0 then (1, d) else (0, (d.0, d.1 - 1)))
      else (d.0 ((a - 0xfa20_0084) / 0x20), d);
  write = λ a w d.
      if a == 0xfa20_0010
      then (d.0, 2)
      else if a == 0xfa20_0048
      then d
      else if (a - 0xfa20_0080) % 0x20 == 4
      then (update d.0 ((a - 0xfa20_0080) / 0x20) w, d.1)
      else if (a - 0xfa20_0080) % 0x20 == 8
      then ((λ t. if t == (a - 0xfa20_0080) / 0x20 then bit_and (d.0 t) (not32 w) else d.0 t), d.1)
      else ((λ t. if t == (a - 0xfa20_0080) / 0x20 then bit_or (d.0 t) w else d.0 t), d.1);
}

status_read : (d : Controller) → resetting d ≡ 0 → bit_and (controller.read 0xfa20_0014 d).0 1 ≡ 1
status_read d h = rw h refl

status_waits :
    (k : ℕ) (d : Controller) → resetting d ≡ suc k → resetting (controller.read 0xfa20_0014 d).1 ≡ k
status_waits k d h = ground (arith, h)

controller-IsController : IsController controller (io_va_address intc_base) mask_words resetting
controller-IsController = record {
  read_mir = λ s d h.
      first_three (λ s. controller.read (0xfa20_0084 + 0x20 * s) d ≡ (mask_words d s, d)) refl refl
        refl s h;
  write_mir = λ s w t d h.
      first_three
        (λ s.
          mask_words (controller.write (0xfa20_0084 + 0x20 * s) w d) t
          ≡ (if t == s then w else mask_words d t))
        refl refl refl s h;
  write_clear = λ s w t d h.
      first_three
        (λ s.
          mask_words (controller.write (0xfa20_0088 + 0x20 * s) w d) t
          ≡ (if t == s then bit_and (mask_words d t) (not32 w) else mask_words d t))
        refl refl refl s h;
  write_set = λ s w t d h.
      first_three
        (λ s.
          mask_words (controller.write (0xfa20_008c + 0x20 * s) w d) t
          ≡ (if t == s then bit_or (mask_words d t) w else mask_words d t))
        refl refl refl s h;
  write_control = λ w t d. refl;
  done = status_read;
  waits = status_waits;
}

abbrev functions : Functions
functions = record { handler_stub = 0x100; default_handler = 0x200; irq_handler = 0x300 }

abbrev unset : Intc
unset = record { interrupt_handler = 0; intc = 0; irq_function_table = λ n. 0 }

soc_interrupt_init-masks_example :
    (d' : Controller) × (c' : Intc) × (soc_interrupt_init controller 3 functions unset ((λ s. 0), 0)
      ≡ some (c', d'))
    × ((m : ℕ) → m < 96 → masked (mask_words d') m ≡ (if m == 0x4a then 0 else 1))
    × ((m : ℕ) → m < 96 → c'.irq_function_table m ≡ 0x200)
    × (c'.interrupt_handler ≡ 0x300)
soc_interrupt_init-masks_example =
    soc_interrupt_init-masks Controller controller mask_words resetting 3 functions unset
      ((λ s. 0), 0) controller-IsController (omega arith) (λ e. omega (arith, e))

-- Output words by bank.
abbrev bank_at : ℕ → ℕ
bank_at a =
    if a == 0xfa31_003c
    then 0
    else if a == 0xfb05_003c
    then 1
    else if a == 0xfb05_203c
    then 2
    else if a == 0xfb05_403c
    then 3
    else if a == 0xfb05_603c
    then 4
    else 5

abbrev outputs_bus : Bus (ℕ → ℕ)
outputs_bus = record { read = λ a d. (d (bank_at a), d); write = λ a w d. update d (bank_at a) w }

outputs_bus-HasOutputs : HasOutputs outputs_bus (λ d. d)
unfolding gpio_get_bank
outputs_bus-HasOutputs = record {
  read_out = λ bank d h.
      first_six (λ b. outputs_bus.read (dataout (gpio_get_bank b)) d ≡ (d b, d)) refl refl refl refl
        refl refl bank h;
  write_out = λ bank w other d h.
      first_six
        (λ b.
          outputs_bus.write (dataout (gpio_get_bank b)) w d other
          ≡ (if other == b then w else d other))
        refl refl refl refl refl refl bank h;
}

gpio_set_data-output_example :
    (d' : ℕ → ℕ) × (gpio_set_data outputs_bus 149 true (λ b. 0) ≡ some (tt, d'))
    × ((m : ℕ) → masked d' m ≡ (if m == 149 then 1 else masked (λ b. 0) m))
gpio_set_data-output_example =
    gpio_set_data-output (ℕ → ℕ) outputs_bus (λ d. d) 149 true (λ b. 0) outputs_bus-HasOutputs
      (omega arith)

-- Words for six pads.
abbrev pads_bus : Bus (ℕ → ℕ)
pads_bus = record {
  read = λ a d. (d ((a - 0xfa00_2030) / 4) % 2 ^ 32, d);
  write = λ a w d. update d ((a - 0xfa00_2030) / 4) w;
}

abbrev pad_words : (ℕ → ℕ) → ℕ → ℕ
pad_words d k = d k % 2 ^ 32

word_if :
    (t : Bool) (w x : ℕ)
    → w < 2 ^ 32
    → (if t then w else x) % 2 ^ 32 ≡ (if t then w else x % 2 ^ 32)
word_if true w x h = omega arith
word_if false w x h = refl

pads_bus-HasPads : HasPads pads_bus pad_words 6
pads_bus-HasPads = record {
  word_sized = λ d k. omega arith;
  read_pad = λ item d h.
      first_six (λ i. pads_bus.read (pad_config i) d ≡ (pad_words d (i / 2), d)) refl refl refl refl
        refl refl item h;
  write_pad = λ item w other d h small.
      first_six
        (λ i.
          pad_words (pads_bus.write (pad_config i) w d) other
          ≡ (if other == i / 2 then w else pad_words d other))
        (word_if (other == 0) w (d other) small) (word_if (other == 0) w (d other) small)
        (word_if (other == 1) w (d other) small) (word_if (other == 1) w (d other) small)
        (word_if (other == 2) w (d other) small) (word_if (other == 2) w (d other) small) item h;
}

gpio_set_pad_configuration-pad_example :
    (d' : ℕ → ℕ) × (gpio_set_pad_configuration pads_bus 3 4 true true false (λ k. 7)
      ≡ some (tt, d'))
    × ((m : ℕ) → pad_of (pad_words d') m ≡ (if m == 3 then 0x10c else pad_of (λ k. 7) m))
gpio_set_pad_configuration-pad_example =
    gpio_set_pad_configuration-pad (ℕ → ℕ) pads_bus pad_words 6 3 4 true true false (λ k. 7)
      pads_bus-HasPads (omega arith) (omega arith) (omega arith)

-- The control registers of the timers by number.
abbrev timer_at : ℕ → ℕ
timer_at a =
    if a == 0xfa31_8024
    then 1
    else if a == 0xfa08_6024
    then 10
    else if a == 0xfa08_8024
    then 11
    else if a == 0xfa30_4024
    then 12
    else if (a - 0xfb03_0000) % 0x2000 == 0x24
    then (a - 0xfb03_0000) / 0x2000 + 1
    else 0

abbrev timers : Bus (ℕ → ℕ)
timers = record {
  read = λ a d. (d (timer_at a), d);
  write = λ a w d. if timer_at a == 0 then d else update d (timer_at a) w;
}

six_from :
    (s : ℕ) (P : ℕ → Type 0)
    → P s
    → P (s + 1)
    → P (s + 2)
    → P (s + 3)
    → P (s + 4)
    → P (s + 5)
    → (n : ℕ) → s ≤ n
    → n < s + 6
    → P n
six_from s P a b c d e f n p q =
    let same : s + (n - s) ≡ n = omega arith in
    let first : P (s + 0) = subst P (omega arith) a in
    subst P same (first_six (λ m. P (s + m)) first b c d e f (n - s) (omega arith))

one_to_twelve :
    (P : ℕ → Type 0)
    → P 1
    → P 2
    → P 3
    → P 4
    → P 5
    → P 6
    → P 7
    → P 8
    → P 9
    → P 10
    → P 11
    → P 12
    → (n : ℕ) → 0 < n
    → n < 13
    → P n
one_to_twelve P a b c d e f g h i j k l n p q = elim (Bool-cases (ltb n 7)) [
  | inl low ↦ six_from 1 (λ m. P m) a b c d e f n p (ground (arith, low))
  | inr high ↦ six_from 7 (λ m. P m) g h i j k l n (ground (arith, high)) q
]

timers-HasTimers : HasTimers timers (λ d. d)
unfolding timer_get
timers-HasTimers = record {
  version = λ n d p h. refl;
  read_control = λ n d p h.
      one_to_twelve (λ n. timers.read (tclr (timer_get n)) d ≡ (d n, d)) refl refl refl refl refl
        refl refl refl refl refl refl refl n p h;
  write_control = λ n w m d p h.
      one_to_twelve (λ n. timers.write (tclr (timer_get n)) w d m ≡ (if m == n then w else d m))
        refl refl refl refl refl refl refl refl refl refl refl refl n p h;
  read_status = λ n d p h. refl;
  write_status = λ n w d p h.
      one_to_twelve (λ n. timers.write (tisr (timer_get n)) w d ≡ d) refl refl refl refl refl refl
        refl refl refl refl refl refl n p h;
}

soc_timer_init-keeps_running_example :
    (d' : ℕ → ℕ) × (soc_timer_init timers (λ n. 3) ≡ some (tt, d'))
    × ((n : ℕ) → 1 ≤ n → n < 13 → bit_at (d' n) 0 ≡ bit_at 3 0)
soc_timer_init-keeps_running_example =
    soc_timer_init-keeps_running (ℕ → ℕ) timers (λ d. d) (λ n. 3) timers-HasTimers
