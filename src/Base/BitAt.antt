-- ===== src/Base/BitAt.antt =====
-- Single bits of words, and what `&`, `|` and `~` do to them.
use Prim.Native.Nat.{ℕ, zero, suc, ◌-◌, ◌*◌, ◌/◌, ◌%◌, ◌^◌, ◌<◌, ◌≤◌, min, max, bit_and, bit_or}
use mathlib.Core.Path.{◌≡◌, refl, ap, ◌∙◌}
use native.Mathlib.Nat.{div-one, pow-le-pow_right}
use native.Mathlib.Omega.{arith}
use sth.Base.Bits.{bit_and_step, bit_or_step, bit_and_mask, two_pow_suc, div-pow-suc}
use mathlib.Core.Bool.{Bool, true, false}
use sth.Base.Tests.{◌==◌, if◌then◌else◌}
use sth.Base.Word.{not32}

abbrev pub bit_at : (w k : ℕ) → ℕ
bit_at w k = w / 2 ^ k % 2

pub bit_at-suc : (w k : ℕ) → bit_at w (suc k) ≡ bit_at (w / 2) k
bit_at-suc w k = ap (λ (t : ℕ). t % 2) (div-pow-suc w k)

pub bit_at-zero : (w : ℕ) → bit_at w zero ≡ w % 2
bit_at-zero w = ap (λ (t : ℕ). t % 2) (div-one w)

pub bit_at-and : (k a b : ℕ) → bit_at (bit_and a b) k ≡ min (bit_at a k) (bit_at b k)
bit_at-and zero a b =
    omega (arith, bit_and_step a b, bit_at-zero (bit_and a b), bit_at-zero a, bit_at-zero b)
bit_at-and (suc k) a b =
    let half : bit_and a b / 2 ≡ bit_and (a / 2) (b / 2) = omega (arith, bit_and_step a b) in
    let low = bit_at-suc (bit_and a b) k ∙ ap (λ (t : ℕ). bit_at t k) half in
    rw (low, bit_at-suc a k, bit_at-suc b k) (bit_at-and k (a / 2) (b / 2))

pub bit_at-or : (k a b : ℕ) → bit_at (bit_or a b) k ≡ max (bit_at a k) (bit_at b k)
bit_at-or zero a b =
    omega (arith, bit_or_step a b, bit_at-zero (bit_or a b), bit_at-zero a, bit_at-zero b)
bit_at-or (suc k) a b =
    let half : bit_or a b / 2 ≡ bit_or (a / 2) (b / 2) = omega (arith, bit_or_step a b) in
    let low = bit_at-suc (bit_or a b) k ∙ ap (λ (t : ℕ). bit_at t k) half in
    rw (low, bit_at-suc a k, bit_at-suc b k) (bit_at-or k (a / 2) (b / 2))

pub bit_at-nothing : (j : ℕ) → bit_at 0 j ≡ 0
bit_at-nothing zero = refl
bit_at-nothing (suc j) = bit_at-suc 0 j ∙ bit_at-nothing j

pub bit_at-power : (k j : ℕ) → bit_at (2 ^ k) j ≡ (if j == k then 1 else 0)
bit_at-power zero zero = refl
bit_at-power zero (suc j) = ground (arith, bit_at-suc 1 j, bit_at-nothing j)
bit_at-power (suc k) zero = ground (arith, two_pow_suc k, bit_at-zero (2 ^ suc k))
bit_at-power (suc k) (suc j) =
    let half : 2 ^ suc k / 2 ≡ 2 ^ k = omega (arith, two_pow_suc k) in
    let low = bit_at-suc (2 ^ suc k) j ∙ ap (λ (t : ℕ). bit_at t j) half in
    ground (arith, low, bit_at-power k j)

bit_at-complement : (n k x : ℕ) → k < n → x < 2 ^ n → bit_at (2 ^ n - 1 - x) k ≡ 1 - bit_at x k
bit_at-complement zero k x h w = absurd (omega arith)
bit_at-complement (suc n) zero x h w =
    omega (arith, two_pow_suc n, bit_at-zero (2 ^ suc n - 1 - x), bit_at-zero x)
bit_at-complement (suc n) (suc k) x h w =
    let half : (2 ^ suc n - 1 - x) / 2 ≡ 2 ^ n - 1 - x / 2 = omega (arith, two_pow_suc n) in
    let low = bit_at-suc (2 ^ suc n - 1 - x) k ∙ ap (λ (t : ℕ). bit_at t k) half in
    rw (low, bit_at-suc x k)
      (bit_at-complement n k (x / 2) (omega arith) (omega (arith, two_pow_suc n)))

pub bit_at-not32 : (k x : ℕ) → k < 32 → x < 2 ^ 32 → bit_at (not32 x) k ≡ 1 - bit_at x k
bit_at-not32 k x = bit_at-complement 32 k x

-- `w & (1 << k)` is the bit at its place.
pub bit_and-power : (k w : ℕ) → bit_and w (2 ^ k) ≡ bit_at w k * 2 ^ k
bit_and-power zero w = omega (arith, bit_and_mask 1 w, bit_at-zero w)
bit_and-power (suc k) w =
    let half : 2 ^ suc k / 2 ≡ 2 ^ k = omega (arith, two_pow_suc k) in
    let twice = ap (λ (t : ℕ). bit_at (w / 2) k * t) (two_pow_suc k) in
    rw (bit_and_step w (2 ^ suc k), half, bit_at-suc w k)
      (omega (arith, bit_and-power k (w / 2), two_pow_suc k, twice))

pub power-lt : (k : ℕ) → k < 32 → 2 ^ k < 2 ^ 32
power-lt k h = omega (
  arith,
  two_pow_suc k,
  pow-le-pow_right {n = 2} (omega arith) {i = suc k} {j = 32} h,
  pow-le-pow_right {n = 2} (omega arith) {i = 0} {j = k} (omega arith),
)

pub or-power : (w k j : ℕ) → bit_at (bit_or w (2 ^ k)) j ≡ (if j == k then 1 else bit_at w j)
or-power w k j =
    rw (bit_at-or j w (2 ^ k), bit_at-power k j) (max_bit (bit_at w j) (omega arith) (j == k))
  where
    max_bit : (x : ℕ) → x ≤ 1 → (t : Bool) → max x (if t then 1 else 0) ≡ (if t then 1 else x)
    max_bit x h true = omega arith
    max_bit x h false = omega arith

pub and-power :
    (w k j : ℕ)
    → k < 32
    → j < 32
    → bit_at (bit_and w (not32 (2 ^ k))) j ≡ (if j == k then 0 else bit_at w j)
and-power w k j h h' =
    rw (bit_at-and j w (not32 (2 ^ k)), bit_at-not32 j (2 ^ k) h' (power-lt k h), bit_at-power k j)
      (min_bit (bit_at w j) (omega arith) (j == k))
  where
    min_bit : (x : ℕ) → x ≤ 1 → (t : Bool) → min x (1 - (if t then 1 else 0)) ≡ (if t then 0 else x)
    min_bit x h true = omega arith
    min_bit x h false = omega arith
