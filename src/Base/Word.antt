-- ===== src/Base/Word.antt =====
-- 32-bit words as native numbers below 2 ^ 32: `+`, `-`, `~`, `<<` and `>>` of `uint32_t`, and
-- what the masks of the sources come to. `-` on ℕ stops at 0, so the modulus is added first.
use Prim.Native.Nat.{ℕ, ◌+◌, ◌-◌, ◌*◌, ◌/◌, ◌%◌, ◌^◌, ◌<◌, bit_and}
use mathlib.Core.Path.{◌≡◌}
use mathlib.Core.Bool.{Bool}
use sth.Base.Tests.{ltb}
use native.Mathlib.Omega.{arith}
use sth.Base.Bits.{bit_and_comm, bit_and_split, bit_and-zero, bit_and_mask}

abbrev pub u32 : ℕ → ℕ
u32 n = n % 2 ^ 32

abbrev pub sub32 : ℕ → ℕ → ℕ
sub32 a b = (a + 2 ^ 32 - b) % 2 ^ 32

abbrev pub not32 : ℕ → ℕ
not32 a = 0xffff_ffff - a

infixl 60 ◌<<<◌ ◌>>>◌
abbrev pub ◌<<<◌ : ℕ → ℕ → ℕ
a <<< k = u32 (a * 2 ^ k)

abbrev pub ◌>>>◌ : ℕ → ℕ → ℕ
a >>> k = a / 2 ^ k

-- `a & 0xFFFFFFF0` clears the four low bits.
pub bit_and_clear_low_four : (a : ℕ) → a < 2 ^ 32 → bit_and 0xffff_fff0 a ≡ a / 16 * 16
bit_and_clear_low_four a h = omega (
  arith,
  bit_and_comm 0xffff_fff0 a,
  bit_and_split 4 a 0xffff_fff0,
  bit_and_mask 28 (a / 2 ^ 4),
  bit_and-zero (a % 2 ^ 4),
)

pub bit_and_clear_low_ten : (a : ℕ) → a < 2 ^ 32 → bit_and a 0xffff_fc00 ≡ a / 1024 * 1024
bit_and_clear_low_ten a h =
    omega (
      arith,
      bit_and_split 10 a 0xffff_fc00,
      bit_and_mask 22 (a / 2 ^ 10),
      bit_and-zero (a % 2 ^ 10),
    )

pub bit_and_clear_low_twelve : (a : ℕ) → a < 2 ^ 32 → bit_and a 0xffff_f000 ≡ a / 4096 * 4096
bit_and_clear_low_twelve a h =
    omega (
      arith,
      bit_and_split 12 a 0xffff_f000,
      bit_and_mask 20 (a / 2 ^ 12),
      bit_and-zero (a % 2 ^ 12),
    )

pub bit_and_clear_low_twenty : (a : ℕ) → a < 2 ^ 32 → bit_and a 0xfff0_0000 ≡ a / 2 ^ 20 * 2 ^ 20
bit_and_clear_low_twenty a h =
    omega (
      arith,
      bit_and_split 20 a 0xfff0_0000,
      bit_and_mask 12 (a / 2 ^ 20),
      bit_and-zero (a % 2 ^ 20),
    )

-- `<` of `int`, on words in two's complement.
abbrev pub slt : ℕ → ℕ → Bool
slt a b = ltb (u32 (a + 2 ^ 31)) (u32 (b + 2 ^ 31))

pub bit_and_clear_low_five : (a : ℕ) → a < 2 ^ 32 → bit_and a (not32 31) ≡ a / 32 * 32
bit_and_clear_low_five a h =
    omega
      (arith, bit_and_split 5 a 0xffff_ffe0, bit_and_mask 27 (a / 2 ^ 5), bit_and-zero (a % 2 ^ 5))
