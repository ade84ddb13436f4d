-- ===== src/Hardware/Timer.antt =====
-- The timers (core/hw/soc/omap35xx/soc_timer.c). Callbacks are addresses, 0 for none.
pub mod Laws
use sth.Base.{
  ℕ, zero, suc, ◌+◌, ◌-◌, ◌*◌, ◌^◌, bit_and, bit_or, Bool, true, false, not, ◌||◌, ◌==◌,
  if◌then◌else◌, slt, List, [], ◌∷◌,
}
use sth.Hardware.{Bus, Io, ◌>>=◌, ◌>>◌, pure, stuck, load, store, io_va_address}
use sth.Hardware.Intc.{Intc, Functions, cpu_irq_set_enable, cpu_irq_set_handler}

abbrev pub timer_bases : ℕ → ℕ
timer_bases i =
    if i == 0
    then 0x4831_8000
    else if i == 9
    then 0x4808_6000
    else if i == 10
    then 0x4808_8000
    else if i == 11
    then 0x4830_4000
    else 0x4903_0000 + i * 0x2000

unfoldable pub timer_get : (n : ℕ) → ℕ
timer_get n = if n == 0 || (slt n 1 || slt 12 n) then 0 else io_va_address (timer_bases (n - 1))

-- The registers of a timer.
abbrev pub tiocp_cfg : ℕ → ℕ
tiocp_cfg timer = timer + 0x10

abbrev pub tistat : ℕ → ℕ
tistat timer = timer + 0x14

abbrev pub tisr : ℕ → ℕ
tisr timer = timer + 0x18

abbrev pub tier : ℕ → ℕ
tier timer = timer + 0x1c

abbrev pub twer : ℕ → ℕ
twer timer = timer + 0x20

abbrev pub tclr : ℕ → ℕ
tclr timer = timer + 0x24

abbrev pub tcrr : ℕ → ℕ
tcrr timer = timer + 0x28

abbrev pub tldr : ℕ → ℕ
tldr timer = timer + 0x2c

abbrev pub tsicr : ℕ → ℕ
tsicr timer = timer + 0x40

-- The variables of the driver, and the address of its handler for the interrupt.
pub record Ticks : Type 0 where
  pub timer : ℕ
  pub tick_handler : ℕ
  pub stub : ℕ

abbrev pub irq_timer7 : ℕ
irq_timer7 = 95

module _ {D : Type 0} (bus : Bus D) where
  -- `*reg |= bits`
  unfoldable pub raise : (reg bits : ℕ) → Io D (Unit {0})
  raise reg bits = do word ← load bus reg; store bus reg (bit_or word bits)

  unfoldable pub timer_tick_clear_interrupt : Ticks → Io D (Unit {0})
  timer_tick_clear_interrupt t = store bus (tisr t.timer) 2

  -- The handler calls `tick_handler`, which is a command of its own.
  unfoldable pub timer_tick_handler_stub : (call : ℕ → Io D (Unit {0})) → Ticks → Io D (Unit {0})
  unfolding timer_tick_clear_interrupt
  timer_tick_handler_stub call t = do
    if t.tick_handler == 0 then pure tt else call t.tick_handler
    timer_tick_clear_interrupt t

  -- `while (!(timer->tistat & 1))`
  unfoldable pub wait_for_timer : (fuel timer : ℕ) → Io D (Unit {0})
  wait_for_timer zero timer = stuck
  wait_for_timer (suc fuel) timer = do
    word ← load bus (tistat timer)
    if bit_and word 1 == 0 then wait_for_timer fuel timer else pure tt

  abbrev configure_timer : (timer : ℕ) → Io D (Unit {0})
  configure_timer timer = do
    word ← load bus (tiocp_cfg timer)
    store bus (tiocp_cfg timer) (bit_or (bit_or word 0x10) 0x200)
    store bus (tsicr timer) 4
    store bus (tldr timer) 0xffff_ff00
    store bus (tcrr timer) 0xffff_ff00

  abbrev start_timer : (timer : ℕ) → Io D (Unit {0})
  start_timer timer = do
    raise (tclr timer) 3
    raise (tisr timer) 7
    store bus (tier timer) 2
    store bus (twer timer) 2

  unfoldable pub timer_tick_start :
      (fuel : ℕ) → Functions → (handler : ℕ) → Intc → Ticks → Io D (Intc × Ticks)
  unfolding timer_get raise wait_for_timer cpu_irq_set_enable cpu_irq_set_handler
  timer_tick_start fuel f handler c t =
      let timer = timer_get 12 in
      let c1 = cpu_irq_set_handler f irq_timer7 t.stub c in
      (do
        cpu_irq_set_enable bus c irq_timer7 false
        store bus (tsicr timer) 6
        wait_for_timer fuel timer
        configure_timer timer
        cpu_irq_set_enable bus c1 irq_timer7 true
        start_timer timer
        pure (c1, record t { timer = timer; tick_handler = handler }))

  -- `for(i = GTIMER_FIRST; i <= GTIMER_LAST; i++)`; the version is read for each of two numbers.
  unfoldable pub init_timers : (count i : ℕ) → Io D (Unit {0})
  unfolding timer_get raise
  init_timers zero i = pure tt
  init_timers (suc count) i = do
    load bus (timer_get i)
    load bus (timer_get i)
    raise (tclr (timer_get i)) 0xffff_fffe
    raise (tisr (timer_get i)) 7
    init_timers count (i + 1)

  unfoldable pub soc_timer_init : Io D (Unit {0})
  unfolding init_timers
  soc_timer_init = init_timers 12 1
