-- ===== src/Library/Bytes.antt =====
-- Memory and strings (library/uc/src/string.c). Memory is a function from addresses to bytes, and
-- `char` has no sign, as on ARM. An address is a number without a bound, so the functions below stand
-- for the runs whose pointers do not pass the end of the address space; beyond it they say nothing of
-- the code. A loop over a string takes fuel, and gives nothing if the fuel is used up. An `int` is a
-- word: where the difference of two bytes is negative, the word is 2 ^ 32 more.
pub mod Copy
pub mod Terminated
pub mod Compare
use sth.Base.{
  ℕ, zero, suc, ◌+◌, ◌%◌, Bool, not, ◌&&◌, Option, none, some, ltb, ◌==◌, if◌then◌else◌, update,
  sub32,
}

abbrev pub Bytes : Type 0
Bytes = ℕ → ℕ

-- `while (len--)`: `len` is the number of rounds.
unfoldable pub memcpy : (dst src len : ℕ) → Bytes → Bytes
memcpy dst src zero mem = mem
memcpy dst src (suc len) mem = memcpy (dst + 1) (src + 1) len (update mem dst (mem src))

unfoldable pub memset : (ptr value num : ℕ) → Bytes → Bytes
memset ptr value zero mem = mem
memset ptr value (suc num) mem = memset (ptr + 1) value num (update mem ptr (value % 256))

-- The difference of the first bytes that differ, as an `int`.
unfoldable pub memcmp : (ptr1 ptr2 n : ℕ) → Bytes → ℕ
memcmp ptr1 ptr2 zero mem = 0
memcmp ptr1 ptr2 (suc n) mem =
    let rest = memcmp (ptr1 + 1) (ptr2 + 1) n mem in
    let c = sub32 (mem ptr1) (mem ptr2) in if c == 0 then rest else c

unfoldable pub strlen : (fuel str ret : ℕ) → Bytes → Option ℕ
strlen zero str ret mem = none
strlen (suc fuel) str ret mem =
    let rest = strlen fuel (str + 1) (ret + 1) mem in if mem str == 0 then some ret else rest

unfoldable pub strcpy : (fuel dst src : ℕ) → Bytes → Option Bytes
strcpy zero dst src mem = none
strcpy (suc fuel) dst src mem =
    let written = update mem dst (mem src) in
    let rest = strcpy fuel (dst + 1) (src + 1) written in
    if written src == 0 then some written else rest

-- `while(--n) *dst++ = '\0'`; `n` is a word that counts down, from 1 at the least in a run that stays
-- below the end of the address space: from 0, where C overflows, it would take 2 ^ 32 - 1 rounds.
unfoldable pub pad : (fuel dst n : ℕ) → Bytes → Option Bytes
pad zero dst n mem = none
pad (suc fuel) dst n mem =
    let rest = pad fuel (dst + 1) (sub32 n 1) (update mem dst 0) in
    if sub32 n 1 == 0 then some mem else rest

-- The first loop, which ends on the end of the source or when `n` has counted down to 0.
unfoldable pub strncpy : (fuel dst src n : ℕ) → Bytes → Option Bytes
strncpy zero dst src n mem = none
strncpy (suc fuel) dst src n mem =
    let written = update mem dst (mem src) in
    let padded = pad fuel (dst + 1) n written in
    let overrun = pad fuel (dst + 1) 0 written in
    let rest = strncpy fuel (dst + 1) (src + 1) (sub32 n 1) written in
    if written src == 0 then padded else if sub32 n 1 == 0 then overrun else rest

unfoldable pub strcmp : (fuel s1 s2 : ℕ) → Bytes → Option ℕ
strcmp zero s1 s2 mem = none
strcmp (suc fuel) s1 s2 mem =
    let rest = strcmp fuel (s1 + 1) (s2 + 1) mem in
    if not (mem s2 == 0) && mem s1 == mem s2 then rest else some (sub32 (mem s1) (mem s2))

-- `n` is a count of rounds; the result is -1, 0 or 1.
unfoldable pub strncmp : (s1 s2 n : ℕ) → Bytes → ℕ
strncmp s1 s2 zero mem = 0
strncmp s1 s2 (suc n) mem =
    let rest = strncmp (s1 + 1) (s2 + 1) n mem in
    if not (mem s1 == mem s2)
    then (if ltb (mem s1) (mem s2) then 0xffff_ffff else 1)
    else if mem s1 == 0
    then 0
    else rest
