-- ===== src/Library/Words.antt =====
-- Memory as words, for the structures of library/util and library/mem, and the commands on it. The
-- address of a word is a multiple of 4, as the structures are allocated. A command gives nothing if
-- the fuel of a loop is used up or C leaves an access undefined.
use sth.Base.{ℕ, Option, none, some, update}

abbrev pub Words : Type 0
Words = ℕ → ℕ

abbrev pub Cmd : Type 0 → Type 0
Cmd A = Words → Option (A × Words)

module _ {A B : Type 0} where
  abbrev pub continue : Option (A × Words) → (A → Cmd B) → Option (B × Words)
  continue none k = none
  continue (some (a, mem)) k = k a mem

  infixl 5 ◌>>=◌ ◌>>◌
  abbrev pub ◌>>=◌ : Cmd A → (A → Cmd B) → Cmd B
  m >>= k = λ mem. continue (m mem) k

  abbrev pub ◌>>◌ : Cmd A → Cmd B → Cmd B
  m >> k = m >>= λ _. k

abbrev pub pure : {A : Type 0} → A → Cmd A
pure a mem = some (a, mem)

abbrev pub out_of_fuel : {A : Type 0} → Cmd A
out_of_fuel mem = none

-- C leaves the access undefined.
abbrev pub undefined : {A : Type 0} → Cmd A
undefined mem = none

abbrev pub get : ℕ → Cmd ℕ
get a mem = some (mem a, mem)

abbrev pub put : (a w : ℕ) → Cmd (Unit {0})
put a w mem = some (tt, update mem a w)

-- `malloc` and `free`, which the program is linked with: `malloc` gives 0 when there is no memory.
pub record Allocator : Type 0 where
  pub malloc : ℕ → Words → ℕ × Words
  pub free : ℕ → Words → Words

abbrev pub run_malloc : Allocator → ℕ → Cmd ℕ
run_malloc a size mem = some (a.malloc size mem)

abbrev pub run_free : Allocator → ℕ → Cmd (Unit {0})
run_free a p mem = some (tt, a.free p mem)
