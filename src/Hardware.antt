-- ===== src/Hardware.antt =====
-- The drivers of the devices of a chip (core/hw/soc/omap35xx). The devices are not part of the
-- program: a bus reads and writes their registers, and a read may change the state of a device too.
pub mod Intc
pub mod Gpio
pub mod Uart
pub mod Timer
pub mod Console
use sth.Base.{ℕ, zero, suc, ◌+◌, Option, none, some, u32}

pub record Bus (D : Type 0) : Type 0 where
  pub read : ℕ → D → ℕ × D
  pub write : (a w : ℕ) → D → D

-- A command on the devices gives nothing if the rounds of a loop are used up or C leaves it undefined.
abbrev pub Io : (D A : Type 0) → Type 0
Io D A = D → Option (A × D)

module _ {D : Type 0} where
  module _ {A B : Type 0} where
    abbrev pub continue : Option (A × D) → (A → Io D B) → Option (B × D)
    continue none k = none
    continue (some (a, d)) k = k a d

    infixl 5 ◌>>=◌ ◌>>◌
    abbrev pub ◌>>=◌ : Io D A → (A → Io D B) → Io D B
    m >>= k = λ d. continue (m d) k

    abbrev pub ◌>>◌ : Io D A → Io D B → Io D B
    m >> k = m >>= λ _. k

  abbrev pub pure : {A : Type 0} → A → Io D A
  pure a d = some (a, d)

  abbrev pub stuck : {A : Type 0} → Io D A
  stuck d = none

  abbrev pub load : Bus D → ℕ → Io D ℕ
  load bus a d = some (bus.read a d)

  abbrev pub store : Bus D → (a w : ℕ) → Io D (Unit {0})
  store bus a w d = some (tt, bus.write a w d)

-- `IO_VA_ADDRESS`
abbrev pub io_va_address : ℕ → ℕ
io_va_address x = u32 (x + 0xb200_0000)
