-- ===== src/Library/Print.antt =====
-- Formatted output (library/uc/src/print.c). `printf_putchar` belongs to the board: the model gives
-- the characters that it is called with, in their order. Strings stand in memory, and loops over
-- them take fuel. The arguments of `printf` are words.
pub mod Numbers
pub mod Hex
use sth.Base.{
  ℕ, zero, suc, ◌+◌, ◌-◌, ◌/◌, ◌%◌, ◌^◌, bit_and, Bool, not, ◌&&◌, ◌||◌, Option, none, some, List,
  [], ◌∷◌, ◌++◌, ltb, leb, ◌==◌, if◌then◌else◌, sub32, ◌<<<◌, ◌>>>◌,
}
use sth.Library.Bytes.{Bytes}

unfoldable pub printf_string : (fuel str : ℕ) → Bytes → Option (List ℕ)
printf_string zero str mem = none
printf_string (suc fuel) str mem =
    let rest = printf_string fuel (str + 1) mem in
    if mem str == 0 then some [] else elim rest [ none ↦ none | some out ↦ some (mem str ∷ out) ]

-- `do { ... } while(i)`: the buffer, its last character first. It gives nothing if the fuel is used up.
unfoldable pub digits_loop : (fuel i : ℕ) (buffer : List ℕ) → Option (List ℕ)
digits_loop zero i buffer = none
digits_loop (suc fuel) i buffer =
    let filled = (48 + i % 10) ∷ buffer in
    let rest = digits_loop fuel (i / 10) filled in if i / 10 == 0 then some filled else rest

-- The buffer is printed from its last character on. A word has at most ten digits. The negation of
-- the least `int` has no value.
unfoldable pub printf_int : ℕ → Option (List ℕ)
unfolding digits_loop
printf_int i =
    if i == 2 ^ 31
    then none
    else if ltb i (2 ^ 31)
    then digits_loop 10 i []
    else elim (digits_loop 10 (sub32 0 i) []) [ none ↦ none | some digits ↦ some (45 ∷ digits) ]

abbrev pub hex_digit : ℕ → ℕ
hex_digit h = if ltb h 10 then h + 48 else h + 55

-- `do { ... } while(i--)`, with `i` as the argument.
unfoldable pub hex_loop : (size i n : ℕ) → List ℕ
hex_loop size zero n = hex_digit (n >>> 28) ∷ []
hex_loop size (suc i) n =
    let rest = hex_loop size i (n <<< 4) in
    if size == 2 && leb 2 (suc i) then rest else hex_digit (n >>> 28) ∷ rest

unfoldable pub printf_hex : (n size : ℕ) → List ℕ
unfolding hex_loop
printf_hex n size = hex_loop size 7 n

-- `for(i = 32; i != 0; i--)`
unfoldable pub bin_loop : (i n : ℕ) → List ℕ
bin_loop zero n = []
bin_loop (suc i) n =
    let rest = (if bit_and n 0x8000_0000 == 0 then 48 else 49) ∷ bin_loop i (n <<< 1) in
    if not (suc i == 32) && bit_and (suc i) 3 == 0 then 95 ∷ rest else rest

unfoldable pub printf_bin : ℕ → List ℕ
unfolding bin_loop
printf_bin n = bin_loop 32 n

-- What a conversion prints before the rest of the format, if its argument is there.
abbrev then_print : Option (List ℕ) → Option (List ℕ) → Option (List ℕ)
then_print none rest = none
then_print (some a) none = none
then_print (some a) (some b) = some (a ++ b)

-- The conversions that take an argument: `c`, `s`, `i` or `d`, `x`, `2`, `b`.
takes_argument : ℕ → Bool
takes_argument c = c == 99 || c == 115 || c == 105 || c == 100 || c == 120 || c == 50 || c == 98

convert : (fuel c arg : ℕ) → Bytes → Option (List ℕ)
convert fuel c arg mem =
    if c == 99
    then some (arg ∷ [])
    else if c == 115
    then printf_string fuel arg mem
    else if c == 105 || c == 100
    then printf_int arg
    else if c == 120
    then some (printf_hex arg 8)
    else if c == 50
    then some (printf_hex arg 2)
    else some (printf_bin arg)

-- `va_arg` past the last argument has no value.
unfoldable pub printf : (fuel fmt : ℕ) (args : List ℕ) → Bytes → Option (List ℕ)
unfolding takes_argument convert
printf zero fmt args mem = none
printf (suc fuel) fmt args mem =
    let c = mem (fmt + 1) in
    let plain = then_print (some (mem fmt ∷ [])) (printf fuel (fmt + 1) args mem) in
    let percent = then_print (some (37 ∷ [])) (printf fuel (fmt + 2) args mem) in
    let unknown = then_print (some (37 ∷ c ∷ [])) (printf fuel (fmt + 2) args mem) in
    let converted : Option (List ℕ) = elim args [
      | [] ↦ none
      | arg ∷ others ↦ then_print (convert fuel c arg mem) (printf fuel (fmt + 2) others mem)
    ] in
    if mem fmt == 0
    then some []
    else if not (mem fmt == 37)
    then plain
    else if c == 0
    then some (0 ∷ [])
    else if takes_argument c
    then converted
    else if c == 37
    then percent
    else unknown
