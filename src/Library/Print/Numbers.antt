-- ===== src/Library/Print/Numbers.antt =====
-- Reading back the numbers that are printed.
use sth.Base.{
  ℕ, zero, suc, ◌+◌, ◌-◌, ◌*◌, ◌/◌, ◌%◌, ◌^◌, ◌≤◌, ◌<◌, ◌≡◌, ◌≢◌, refl, arith, some, List, [], ◌∷◌,
  ◌==◌, ltb, if◌then◌else◌, ne→==, ◌∙◌, length, Bool-cases, inl, inr, ap, sub32,
}
use native.Mathlib.Nat.{pow-succ'}
use sth.Library.Print.{digits_loop, printf_int}

-- The value of decimal digits, after digits of the value `acc`.
abbrev pub decimal : (acc : ℕ) → List ℕ → ℕ
decimal acc [] = acc
decimal acc (c ∷ s) = decimal (acc * 10 + (c - 48)) s

-- A signed number as a word: a minus sign, 45, negates it.
abbrev pub signed : List ℕ → ℕ
signed [] = 0
signed (c ∷ s) = if c == 45 then sub32 0 (decimal 0 s) else decimal 0 (c ∷ s)

abbrev pub IsDigit : ℕ → Type 0
IsDigit c = (48 ≤ c) × (c ≤ 57)

abbrev pub AllDigits : List ℕ → Type 0
AllDigits [] = Unit {0}
AllDigits (c ∷ s) = IsDigit c × AllDigits s

-- The loop ends within the rounds, and puts the digits of `i` in front of the buffer.
digits_loop-digits :
    (fuel i : ℕ) (buffer : List ℕ)
    → i < 10 * 10 ^ fuel
    → AllDigits buffer
    → (s : List ℕ) × (digits_loop (suc fuel) i buffer ≡ some s)
      × (decimal 0 s ≡ decimal i buffer)
      × AllDigits s
      × (length s ≤ suc fuel + length buffer)
unfolding digits_loop
digits_loop-digits zero i buffer h d =
    let small : i / 10 ≡ 0 = omega arith in
    let digit : 0 * 10 + (48 + i % 10 - 48) ≡ i = omega arith in
    (
      (48 + i % 10) ∷ buffer,
      rw small refl,
      ap (λ n. decimal n buffer) digit,
      ((omega arith, omega arith), d),
      omega arith,
    )
digits_loop-digits (suc fuel) i buffer h d = elim (Bool-cases (i / 10 == 0)) [
  | inl done ↦
      let digit : 0 * 10 + (48 + i % 10 - 48) ≡ i = ground arith in
      (
        (48 + i % 10) ∷ buffer,
        rw done refl,
        ap (λ n. decimal n buffer) digit,
        ((omega arith, omega arith), d),
        omega arith,
      )
  | inr more ↦
      let (s, run, value, digits, short) =
        digits_loop-digits fuel (i / 10) ((48 + i % 10) ∷ buffer) (omega (arith, power))
          ((omega arith, omega arith), d) in
      let digit : i / 10 * 10 + (48 + i % 10 - 48) ≡ i = omega arith in
      (s, rw more run, value ∙ ap (λ n. decimal n buffer) digit, digits, omega (arith, short))
]
  where
    power : 10 ^ suc fuel ≡ 10 * 10 ^ fuel
    power = pow-succ' 10 fuel

-- Digits without a sign are read as they are.
AllDigits-signed : (s : List ℕ) → AllDigits s → signed s ≡ decimal 0 s
AllDigits-signed [] d = refl
AllDigits-signed (c ∷ s) (here, d) = rw (ne→== c 45 (omega arith)) refl

-- The characters after a minus sign, if there is one.
abbrev pub unsigned : List ℕ → List ℕ
unsigned [] = []
unsigned (c ∷ s) = if c == 45 then s else c ∷ s

AllDigits-unsigned : (s : List ℕ) → AllDigits s → unsigned s ≡ s
AllDigits-unsigned [] d = refl
AllDigits-unsigned (c ∷ s) (here, d) = rw (ne→== c 45 (omega arith)) refl

-- For every word but the least `int`, printf_int ends and prints a minus sign or none and then at
-- most ten decimal digits, and reading them gives the word back.
pub printf_int-signed :
    (i : ℕ)
    → i < 2 ^ 32
    → i ≢ 2 ^ 31
    → (s : List ℕ) × (printf_int i ≡ some s)
      × AllDigits (unsigned s)
      × (length (unsigned s) ≤ 10)
      × (signed s ≡ i)
unfolding printf_int
printf_int-signed i w ne = elim (Bool-cases (ltb i (2 ^ 31))) [
  | inl positive ↦
      let (s, run, value, digits, short) = digits_loop-digits 9 i [] (ground arith) tt in
      let plain = AllDigits-unsigned s digits in
      (
        s,
        rw (ne→== i (2 ^ 31) ne, positive) run,
        rw plain digits,
        rw plain (omega (arith, short)),
        AllDigits-signed s digits ∙ value,
      )
  | inr negative ↦
      let (s, run, value, digits, short) = digits_loop-digits 9 (sub32 0 i) [] (ground arith) tt in
      (
        45 ∷ s,
        rw (ne→== i (2 ^ 31) ne, negative, run) refl,
        digits,
        omega (arith, short),
        ap (sub32 0) value ∙ omega arith,
      )
]
