-- ===== src/Hardware/Console.antt =====
-- printf_string on the serial line: library/uc/src/print.c with the printf_putchar of
-- core/hypervisor/uart_print.c. A `char` is a byte.
use sth.Base.{
  ℕ, zero, suc, ◌+◌, ◌%◌, ◌<◌, ◌≡◌, ◌≢◌, refl, arith, Bool, true, false, ◌==◌, if◌then◌else◌,
  Option, none, some, List, [], ◌∷◌, ◌++◌, sym, ◌∙◌, ap, Bool-cases, inl, inr,
}
use mathlib.Core.Option.{none-ne-some, some-injective}
use sth.Library.Bytes.{Bytes}
use sth.Library.Print.{printf_string}
use sth.Hardware.{Bus, Io, ◌>>◌, pure, stuck}
use sth.Hardware.Uart.{stdio_write_char}
use sth.Hardware.Uart.Laws.{IsLine, stdio_write_char-sends}

module _ {D : Type 0} (bus : Bus D) where
  unfoldable pub printf_putchar : (polls uart c : ℕ) → Io D (Unit {0})
  unfolding stdio_write_char
  printf_putchar polls uart c = stdio_write_char bus polls uart (c % 256)

  -- `while(*str) printf_putchar(*str++)`
  unfoldable pub put_string : (polls fuel uart str : ℕ) → Bytes → Io D (Unit {0})
  unfolding printf_putchar
  put_string polls zero uart str mem = stuck
  put_string polls (suc fuel) uart str mem =
      if mem str == 0
      then pure tt
      else (do printf_putchar polls uart (mem str); put_string polls fuel uart (str + 1) mem)

-- A carriage return follows each line feed.
abbrev pub on_line : List ℕ → List ℕ
on_line [] = []
on_line (c ∷ cs) = if c == 10 then c ∷ 13 ∷ on_line cs else c ∷ on_line cs

append_nothing : (xs : List ℕ) → xs ++ [] ≡ xs
append_nothing [] = refl
append_nothing (x ∷ xs) = ap (λ zs. x ∷ zs) (append_nothing xs)

append_line :
    (xs : List ℕ) (c : ℕ) (cs : List ℕ)
    → (xs ++ (if c == 10 then c ∷ 13 ∷ [] else c ∷ [])) ++ on_line cs ≡ xs ++ on_line (c ∷ cs)
append_line [] c cs = by_test (c == 10)
  where
    by_test :
        (t : Bool)
        → (if t then c ∷ 13 ∷ [] else c ∷ []) ++ on_line cs
          ≡ (if t then c ∷ 13 ∷ on_line cs else c ∷ on_line cs)
    by_test true = refl
    by_test false = refl
append_line (x ∷ xs) c cs = ap (λ zs. x ∷ zs) (append_line xs c cs)

printf_string-none : (str : ℕ) (mem : Bytes) → none ≡ printf_string zero str mem
unfolding printf_string
printf_string-none str mem = refl

printf_string-end :
    (fuel str : ℕ) (mem : Bytes)
    → (mem str == 0) ≡ true
    → printf_string (suc fuel) str mem ≡ some []
unfolding printf_string
printf_string-end fuel str mem end = rw end refl

-- A string that prints one more character prints that of its first byte.
printf_string-more :
    (fuel str : ℕ) (mem : Bytes) (out : List ℕ)
    → (mem str == 0) ≡ false
    → printf_string (suc fuel) str mem ≡ some out
    → (rest : List ℕ) × (printf_string fuel (str + 1) mem ≡ some rest) × (out ≡ mem str ∷ rest)
unfolding printf_string
printf_string-more fuel str mem out more e = by_result (printf_string fuel (str + 1) mem) refl
  where
    by_result :
        (o : Option (List ℕ))
        → printf_string fuel (str + 1) mem ≡ o
        → (rest : List ℕ) × (printf_string fuel (str + 1) mem ≡ some rest) × (out ≡ mem str ∷ rest)
    by_result none r =
        let nothing : printf_string (suc fuel) str mem ≡ none = rw (more, r) refl in
        absurd (none-ne-some out (sym nothing ∙ e))
    by_result (some rest) r =
        let something : printf_string (suc fuel) str mem ≡ some (mem str ∷ rest) =
          rw (more, r) refl in
        (rest, r, some-injective out (mem str ∷ rest) (sym e ∙ something))

-- On a line as its manual says, whose buffer empties within the rounds of the loop, and with every
-- byte of memory below 256, printing a string that printf_string prints as out with the same rounds
-- returns, and out has been sent with a carriage return behind each line feed.
pub put_string-prints :
    (D : Type 0) (bus : Bus D) (uart bound : ℕ) (sent : D → List ℕ) (divisor ready : D → Bool)
    (busy : D → ℕ) (polls fuel str : ℕ) (mem : Bytes) (out : List ℕ) (d : D)
    → IsLine bus uart bound sent divisor ready busy
    → uart ≢ 0
    → bound < polls
    → ((a : ℕ) → mem a < 256)
    → printf_string fuel str mem ≡ some out
    → (d' : D) × (put_string bus polls fuel uart str mem d ≡ some (tt, d'))
      × (sent d' ≡ sent d ++ on_line out)
unfolding put_string printf_putchar
put_string-prints D bus uart bound sent divisor ready busy polls zero str mem out d hw given room
      bytes e =
    absurd (none-ne-some out (printf_string-none str mem ∙ e))
put_string-prints D bus uart bound sent divisor ready busy polls (suc fuel) str mem out d hw given
      room bytes e =
    elim (Bool-cases (mem str == 0)) [
      | inl end ↦
          let empty : out ≡ [] =
            some-injective out [] (sym e ∙ printf_string-end fuel str mem end) in
          (
            d,
            rw end refl,
            sym (append_nothing (sent d)) ∙ ap (λ cs. sent d ++ on_line cs) (sym empty),
          )
      | inr more ↦
          let (rest, later, whole) = printf_string-more fuel str mem out more e in
          let byte : mem str % 256 ≡ mem str = omega (arith, bytes str) in
          let (d1, run, first) =
            stdio_write_char-sends D bus uart bound sent divisor ready busy polls (mem str) d hw
              given room in
          let (d', run', others) =
            put_string-prints D bus uart bound sent divisor ready busy polls fuel (str + 1) mem rest
              d1 hw given room bytes later in
          (
            d',
            rw (more, byte, run) run',
            others
                ∙ ap (λ zs. zs ++ on_line rest) first
                ∙ append_line (sent d) (mem str) rest
                ∙ ap (λ cs. sent d ++ on_line cs) (sym whole),
          )
    ]
