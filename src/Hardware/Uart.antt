-- ===== src/Hardware/Uart.antt =====
-- The serial line (core/hw/soc/omap35xx/soc_uart.c). `uart` is the address in `uart_`, 0 before it is set.
pub mod Laws
use sth.Base.{ℕ, zero, suc, ◌+◌, ◌-◌, ◌^◌, bit_and, Bool, true, false, not, ◌==◌, if◌then◌else◌}
use sth.Hardware.{Bus, Io, ◌>>=◌, ◌>>◌, pure, stuck, load, store, io_va_address}

abbrev pub uart3_base : ℕ
uart3_base = 0x4902_0000

abbrev pub uart1_base : ℕ
uart1_base = 0x4806_a000

-- `UART_OP_FLAGS`
abbrev pub uart_op_flags : ℕ
uart_op_flags = 3

abbrev pub uart_lcr_div_en : ℕ
uart_lcr_div_en = 0x80

abbrev pub uart_lsr_tx_fifo_e : ℕ
uart_lsr_tx_fifo_e = 0x20

abbrev pub uart_lsr_rx_fifo_e : ℕ
uart_lsr_rx_fifo_e = 1

abbrev pub lcr : ℕ → ℕ
lcr uart = uart + 0xc

abbrev pub lsr : ℕ → ℕ
lsr uart = uart + 0x14

-- `soc_uart_set` keeps the address of its line.
abbrev pub soc_uart_set : (base uart : ℕ) → ℕ
soc_uart_set base uart = base

abbrev pub soc_uart_init : (uart : ℕ) → ℕ
soc_uart_init uart =
    soc_uart_set (io_va_address uart3_base) (soc_uart_set (io_va_address uart1_base) uart)

module _ {D : Type 0} (bus : Bus D) where
  -- `switch to OP mode if needed`
  unfoldable pub operate : (uart : ℕ) → Io D (Unit {0})
  operate uart = do
    word ← load bus (lcr uart)
    if bit_and word uart_lcr_div_en == 0 then pure tt else store bus (lcr uart) uart_op_flags

  unfoldable pub stdio_can_write : (uart : ℕ) → Io D Bool
  unfolding operate
  stdio_can_write uart = if uart == 0 then pure false else (do
    operate uart
    word ← load bus (lsr uart)
    pure (not (bit_and word uart_lsr_tx_fifo_e == 0)))

  unfoldable pub stdio_can_read : (uart : ℕ) → Io D Bool
  unfolding operate
  stdio_can_read uart = if uart == 0 then pure false else (do
    operate uart
    word ← load bus (lsr uart)
    pure (bit_and word uart_lsr_rx_fifo_e == 0))

  -- `while(!stdio_can_write())`
  unfoldable pub wait_to_write : (fuel uart : ℕ) → Io D (Unit {0})
  unfolding stdio_can_write
  wait_to_write zero uart = stuck
  wait_to_write (suc fuel) uart = do
    free ← stdio_can_write uart
    if free then pure tt else wait_to_write fuel uart

  unfoldable pub stdio_write_char : (fuel uart c : ℕ) → Io D (Unit {0})
  unfolding wait_to_write
  stdio_write_char fuel uart c = if uart == 0 then pure tt else (do
    wait_to_write fuel uart
    store bus uart c
    if c == 10 then (do wait_to_write fuel uart; store bus uart 13) else pure tt)

  -- -1 without a character
  unfoldable pub stdio_read_char : (uart : ℕ) → Io D ℕ
  unfolding stdio_can_read
  stdio_read_char uart = do
    there ← stdio_can_read uart
    if there then load bus uart else pure 0xffff_ffff
