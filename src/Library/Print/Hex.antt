-- ===== src/Library/Print/Hex.antt =====
-- Reading back the hexadecimal digits that are printed.
use sth.Base.{
  ℕ, suc, ◌+◌, ◌-◌, ◌*◌, ◌/◌, ◌%◌, ◌^◌, ◌<◌, ◌≡◌, refl, arith, false, ◌&&◌, leb, List, [], ◌∷◌,
  ◌==◌, ltb, if◌then◌else◌, ap, ◌∙◌, ◌<<<◌, ◌>>>◌,
}
use sth.Library.Print.{hex_digit, hex_loop, printf_hex}

-- The value of a digit: `0` to `9`, and the capitals from `A` on.
abbrev pub hex_value : ℕ → ℕ
hex_value c = if ltb c 58 then c - 48 else c - 55

-- The value of hexadecimal digits, after digits of the value `acc`.
abbrev pub hexadecimal : (acc : ℕ) → List ℕ → ℕ
hexadecimal acc [] = acc
hexadecimal acc (c ∷ s) = hexadecimal (acc * 16 + hex_value c) s

hex_value-digit : (h : ℕ) → h < 16 → hex_value (hex_digit h) ≡ h
hex_value-digit h w = ground arith

-- A shift by one digit takes the first digit away.
shift : (x : ℕ) → x < 2 ^ 32 → (x <<< 4) + (x >>> 28) * 2 ^ 32 ≡ 16 * x
shift x w = omega arith

-- The first digit stands in front of what the others are read as.
hex_loop-step :
    (size i n acc : ℕ)
    → n < 2 ^ 32
    → (size == 2 && leb 2 (suc i)) ≡ false
    → hexadecimal acc (hex_loop size (suc i) n)
      ≡ hexadecimal (acc * 16 + n / 2 ^ 28) (hex_loop size i (n <<< 4))
unfolding hex_loop
hex_loop-step size i n acc w h =
    let digit = hex_value-digit (n >>> 28) (omega arith) in
    rw h (ap (λ v. hexadecimal (acc * 16 + v) (hex_loop size i (n <<< 4))) digit)

hex_loop-last :
    (size n acc : ℕ) → n < 2 ^ 32 → hexadecimal acc (hex_loop size 0 n) ≡ acc * 16 + n / 2 ^ 28
unfolding hex_loop
hex_loop-last size n acc w = ap (λ v. acc * 16 + v) (hex_value-digit (n >>> 28) (omega arith))

shift-bound : (n : ℕ) → (n <<< 4) < 2 ^ 32
shift-bound n = omega arith

module _ (n : ℕ) (w : n < 2 ^ 32) where
  shifted1 : (n <<< 4) ≡ n % 2 ^ 28 * 2 ^ 4
  shifted1 = omega arith

  shifted2 : (n <<< 4 <<< 4) ≡ n % 2 ^ 24 * 2 ^ 8
  shifted2 = rw shifted1 (omega arith)

  shifted3 : (n <<< 4 <<< 4 <<< 4) ≡ n % 2 ^ 20 * 2 ^ 12
  shifted3 = rw shifted2 (omega arith)

  shifted4 : (n <<< 4 <<< 4 <<< 4 <<< 4) ≡ n % 2 ^ 16 * 2 ^ 16
  shifted4 = rw shifted3 (omega arith)

  shifted5 : (n <<< 4 <<< 4 <<< 4 <<< 4 <<< 4) ≡ n % 2 ^ 12 * 2 ^ 20
  shifted5 = rw shifted4 (omega arith)

  shifted6 : (n <<< 4 <<< 4 <<< 4 <<< 4 <<< 4 <<< 4) ≡ n % 2 ^ 8 * 2 ^ 24
  shifted6 = rw shifted5 (omega arith)

  shifted7 : (n <<< 4 <<< 4 <<< 4 <<< 4 <<< 4 <<< 4 <<< 4) ≡ n % 2 ^ 4 * 2 ^ 28
  shifted7 = rw shifted6 (omega arith)

  all_digits :
      ((((((((0 * 16 + n / 2 ^ 28) * 16 + (n <<< 4) / 2 ^ 28) * 16 + (n <<< 4 <<< 4) / 2 ^ 28) * 16
                        + (n <<< 4 <<< 4 <<< 4) / 2 ^ 28)
                      * 16
                    + (n <<< 4 <<< 4 <<< 4 <<< 4) / 2 ^ 28)
                  * 16
                + (n <<< 4 <<< 4 <<< 4 <<< 4 <<< 4) / 2 ^ 28)
              * 16
            + (n <<< 4 <<< 4 <<< 4 <<< 4 <<< 4 <<< 4) / 2 ^ 28)
          * 16
        + (n <<< 4 <<< 4 <<< 4 <<< 4 <<< 4 <<< 4 <<< 4) / 2 ^ 28)
      ≡ n
  all_digits = omega (arith, shifted1, shifted2, shifted3, shifted4, shifted5, shifted6, shifted7)

  last_digits :
      ((0 * 16 + (n <<< 4 <<< 4 <<< 4 <<< 4 <<< 4 <<< 4) / 2 ^ 28) * 16
        + (n <<< 4 <<< 4 <<< 4 <<< 4 <<< 4 <<< 4 <<< 4) / 2 ^ 28)
      ≡ n % 256
  last_digits = omega (arith, shifted6, shifted7)

-- The eight digits of a word that `printf_hex` prints, or the two that it prints for a byte, are
-- read as the word or as its last byte.
pub printf_hex-hexadecimal :
    (n : ℕ)
    → n < 2 ^ 32
    → (hexadecimal 0 (printf_hex n 8) ≡ n) × (hexadecimal 0 (printf_hex n 2) ≡ n % 256)
unfolding printf_hex hex_loop
printf_hex-hexadecimal n w =
    let n1 = n <<< 4 in
    let n2 = n1 <<< 4 in
    let n3 = n2 <<< 4 in
    let n4 = n3 <<< 4 in
    let n5 = n4 <<< 4 in
    let n6 = n5 <<< 4 in
    let n7 = n6 <<< 4 in
    let a1 = 0 * 16 + n / 2 ^ 28 in
    let a2 = a1 * 16 + n1 / 2 ^ 28 in
    let a3 = a2 * 16 + n2 / 2 ^ 28 in
    let a4 = a3 * 16 + n3 / 2 ^ 28 in
    let a5 = a4 * 16 + n4 / 2 ^ 28 in
    let a6 = a5 * 16 + n5 / 2 ^ 28 in
    let a7 = a6 * 16 + n6 / 2 ^ 28 in
    (
      hex_loop-step 8 6 n 0 w refl
          ∙ hex_loop-step 8 5 n1 a1 (shift-bound n) refl
          ∙ hex_loop-step 8 4 n2 a2 (shift-bound n1) refl
          ∙ hex_loop-step 8 3 n3 a3 (shift-bound n2) refl
          ∙ hex_loop-step 8 2 n4 a4 (shift-bound n3) refl
          ∙ hex_loop-step 8 1 n5 a5 (shift-bound n4) refl
          ∙ hex_loop-step 8 0 n6 a6 (shift-bound n5) refl
          ∙ hex_loop-last 8 n7 a7 (shift-bound n6)
          ∙ all_digits n w,
      hex_loop-step 2 0 n6 0 (shift-bound n5) refl
          ∙ hex_loop-last 2 n7 (0 * 16 + n6 / 2 ^ 28) (shift-bound n6)
          ∙ last_digits n w,
    )
