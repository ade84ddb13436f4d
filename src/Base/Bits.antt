-- ===== src/Base/Bits.antt =====
-- `bit_and`, `bit_or` and `bit_xor` split at a bit position: the high and the low digits are
-- combined apart. At a numeral position such a split turns a mask into `/` and `%`.
use Prim.Native.Nat.{
  ℕ, zero, suc, ◌+◌, ◌-◌, ◌*◌, ◌/◌, ◌%◌, ◌^◌, ◌≤◌, ◌<◌, min, max, digits, bit_and, bit_or,
  bit_and-bitwise, bit_or-bitwise,
}
use mathlib.Core.Path.{◌≡◌, refl, sym, ap, ◌∙◌}
use native.Mathlib.Nat.{pow-suc, one-le-pow, div-div-eq-div-mul, div-add-mod, div-one, mod-one}
use native.Mathlib.Omega.{arith}

pub zero-bit_and : (b : ℕ) → bit_and 0 b ≡ 0
zero-bit_and b = bit_and-bitwise 0 b

pub zero-bit_or : (b : ℕ) → bit_or 0 b ≡ b
zero-bit_or b = bit_or-bitwise 0 b

-- An operation given by its digits, where `z` is its value on 0, as one step on the lowest digit.
module _ (z : ℕ → ℕ) (f : ℕ → ℕ → ℕ) where
  digits_zero : (rounds b : ℕ) → digits z f rounds 0 b ≡ z b
  digits_zero zero b = refl
  digits_zero (suc rounds) b = refl

  -- Two counts of rounds that are both large enough give the same.
  digits_same :
      (value : ℕ) {left right : ℕ} (other : ℕ)
      → value ≤ left
      → value ≤ right
      → digits z f left value other ≡ digits z f right value other
  digits_same zero {left = left} {right = right} other h k =
      digits_zero left other ∙ sym (digits_zero right other)
  digits_same (suc value) {left = zero} {right = right} other h k = absurd (omega arith)
  digits_same (suc value) {left = suc left} {right = zero} other h k = absurd (omega arith)
  digits_same (suc value) {left = suc left} {right = suc right} other h k =
      let halves = digits_same (suc value / 2) {left = left} {right = right} (other / 2) in
      omega (arith, halves (omega arith) (omega arith))

  digits-step :
      (op : ℕ → ℕ → ℕ)
      → ((a b : ℕ) → op a b ≡ digits z f a a b)
      → ((b : ℕ) → z b ≡ z (b / 2) * 2 + f 0 (b % 2))
      → (a b : ℕ) → op a b ≡ op (a / 2) (b / 2) * 2 + f (a % 2) (b % 2)
  digits-step op is low zero b = omega (arith, is 0 b, is 0 (b / 2), low b)
  digits-step op is low (suc a) b =
      let enough =
        digits_same (suc a / 2) {left = a} {right = suc a / 2} (b / 2) (omega arith)
          (omega arith) in
      omega (arith, enough, is (suc a) b, is (suc a / 2) (b / 2))

pub bit_and_step : (a b : ℕ) → bit_and a b ≡ bit_and (a / 2) (b / 2) * 2 + min (a % 2) (b % 2)
bit_and_step = digits-step (λ b. 0) min bit_and bit_and-bitwise (λ b. omega arith)

pub bit_or_step : (a b : ℕ) → bit_or a b ≡ bit_or (a / 2) (b / 2) * 2 + max (a % 2) (b % 2)
bit_or_step = digits-step (λ b. b) max bit_or bit_or-bitwise (λ b. omega arith)

div_twice : (a p : ℕ) → a / (2 * p) ≡ a / 2 / p
div_twice a p = sym (div-div-eq-div-mul a 2 p)

mod_twice : (a p : ℕ) → a % (2 * p) ≡ 2 * (a / 2 % p) + a % 2
mod_twice a p =
    omega
      (arith, div-add-mod a (2 * p), ap (λ (t : ℕ). p * t) (div_twice a p), div-add-mod (a / 2) p)

pub two_pow_suc : (k : ℕ) → 2 ^ suc k ≡ 2 * 2 ^ k
two_pow_suc k = omega (arith, pow-suc 2 k)

pub div-pow-suc : (a k : ℕ) → a / 2 ^ suc k ≡ a / 2 / 2 ^ k
div-pow-suc a k = rw (two_pow_suc k) (div_twice a (2 ^ k))

pub mod-pow-suc : (a k : ℕ) → a % 2 ^ suc k ≡ 2 * (a / 2 % 2 ^ k) + a % 2
mod-pow-suc a k = rw (two_pow_suc k) (mod_twice a (2 ^ k))

-- An operation that works digit by digit works on the high and the low digits apart.
module _ (op d : ℕ → ℕ → ℕ) (zeros : op 0 0 ≡ 0)
    (step : (a b : ℕ) → op a b ≡ op (a / 2) (b / 2) * 2 + d (a % 2) (b % 2)) where
  op_split : (k a b : ℕ) → op a b ≡ op (a / 2 ^ k) (b / 2 ^ k) * 2 ^ k + op (a % 2 ^ k) (b % 2 ^ k)
  op_split zero a b = ground (arith, zeros, div-one a, div-one b, mod-one a, mod-one b)
  op_split (suc k) a b = ground (
    arith,
    step a b,
    step (a % 2 ^ suc k) (b % 2 ^ suc k),
    op_split k (a / 2) (b / 2),
    div-pow-suc a k,
    div-pow-suc b k,
    mod-pow-suc a k,
    mod-pow-suc b k,
    ap (λ (t : ℕ). op (a / 2 ^ suc k) (b / 2 ^ suc k) * t) (two_pow_suc k),
  )

pub bit_and_split :
    (k a b : ℕ)
    → bit_and a b ≡ bit_and (a / 2 ^ k) (b / 2 ^ k) * 2 ^ k + bit_and (a % 2 ^ k) (b % 2 ^ k)
bit_and_split = op_split bit_and min refl bit_and_step

pub bit_or_split :
    (k a b : ℕ)
    → bit_or a b ≡ bit_or (a / 2 ^ k) (b / 2 ^ k) * 2 ^ k + bit_or (a % 2 ^ k) (b % 2 ^ k)
bit_or_split = op_split bit_or max refl bit_or_step

pub bit_and-zero : (a : ℕ) → bit_and a 0 ≡ 0
bit_and-zero a = below a a (omega arith)
  where
    below : (n a : ℕ) → a ≤ n → bit_and a 0 ≡ 0
    below n zero h = refl
    below zero (suc a) h = absurd (omega arith)
    below (suc n) (suc a) h =
        omega (arith, bit_and_step (suc a) 0, below n (suc a / 2) (omega arith))

pub bit_or-zero : (a : ℕ) → bit_or a 0 ≡ a
bit_or-zero a = below a a (omega arith)
  where
    below : (n a : ℕ) → a ≤ n → bit_or a 0 ≡ a
    below n zero h = refl
    below zero (suc a) h = absurd (omega arith)
    below (suc n) (suc a) h =
        omega (arith, bit_or_step (suc a) 0, below n (suc a / 2) (omega arith))

pub bit_and_comm : (a b : ℕ) → bit_and a b ≡ bit_and b a
bit_and_comm a b = below a a b (omega arith)
  where
    below : (n a b : ℕ) → a ≤ n → bit_and a b ≡ bit_and b a
    below n zero b h = omega (arith, zero-bit_and b, bit_and-zero b)
    below zero (suc a) b h = absurd (omega arith)
    below (suc n) (suc a) b h = omega (
      arith,
      bit_and_step (suc a) b,
      bit_and_step b (suc a),
      below n (suc a / 2) (b / 2) (omega arith),
    )

-- A mask of the `k` low bits is the remainder by `2 ^ k`.
pub bit_and_mask : (k a : ℕ) → bit_and a (2 ^ k - 1) ≡ a % 2 ^ k
bit_and_mask zero a = rw (mod-one a) (bit_and-zero a)
bit_and_mask (suc k) a = ground (
  arith,
  two_pow_suc k,
  one-le-pow k 2,
  bit_and_step a (2 ^ suc k - 1),
  bit_and_mask k (a / 2),
  mod-pow-suc a k,
)

pub bit_and-le_left : (a b : ℕ) → bit_and a b ≤ a
bit_and-le_left a b = below a a b (omega arith)
  where
    below : (n a b : ℕ) → a ≤ n → bit_and a b ≤ a
    below n zero b h = omega (arith, zero-bit_and b)
    below zero (suc a) b h = absurd (omega arith)
    below (suc n) (suc a) b h =
        omega (arith, bit_and_step (suc a) b, below n (suc a / 2) (b / 2) (omega arith))

pub bit_or-le_add : (a b : ℕ) → bit_or a b ≤ a + b
bit_or-le_add a b = below a a b (omega arith)
  where
    below : (n a b : ℕ) → a ≤ n → bit_or a b ≤ a + b
    below n zero b h = omega (arith, zero-bit_or b)
    below zero (suc a) b h = absurd (omega arith)
    below (suc n) (suc a) b h =
        omega (arith, bit_or_step (suc a) b, below n (suc a / 2) (b / 2) (omega arith))

pub le-bit_or_right : (a b : ℕ) → b ≤ bit_or a b
le-bit_or_right a b = below a a b (omega arith)
  where
    below : (n a b : ℕ) → a ≤ n → b ≤ bit_or a b
    below n zero b h = omega (arith, zero-bit_or b)
    below zero (suc a) b h = absurd (omega arith)
    below (suc n) (suc a) b h =
        omega (arith, bit_or_step (suc a) b, below n (suc a / 2) (b / 2) (omega arith))

-- `|` of words of `k` bits is one.
pub bit_or-lt : (k a b : ℕ) → a < 2 ^ k → b < 2 ^ k → bit_or a b < 2 ^ k
bit_or-lt zero a b p q = omega (arith, bit_or-le_add a b)
bit_or-lt (suc k) a b p q = omega (
  arith,
  two_pow_suc k,
  bit_or_step a b,
  bit_or-lt k (a / 2) (b / 2) (omega (arith, two_pow_suc k)) (omega (arith, two_pow_suc k)),
)
