-- ===== src/Library/Bytes/Terminated.antt =====
-- `strcpy` and `strncpy` in terms of `memcpy` and `memset`.
use sth.Base.{
  ℕ, zero, suc, ◌+◌, ◌-◌, ◌^◌, ◌≤◌, ◌<◌, ◌≡◌, ◌⊎◌, refl, arith, some, update, sub32, ne→==, eq→==,
  ◌∙◌, ap, sym,
}
use sth.Library.Bytes.{Bytes, memcpy, memset, strcpy, pad, strncpy}
use sth.Library.Bytes.Copy.{IsText, IsString, IsForward}

module _ (dst src : ℕ) (mem : Bytes) where
  -- Memory after the first byte is copied.
  abbrev written : Bytes
  written = update mem dst (mem src)

  written-src : written src ≡ mem src
  written-src = ground arith

  IsText-written : (e : ℕ) → (dst ≤ src) ⊎ (e ≤ dst) → IsText mem src e → IsText written (src + 1) e
  IsText-written e apart t a lo hi =
      let kept : written a ≡ mem a = ground arith in
      let ne = t a (omega arith) hi in λ z. ne (sym kept ∙ z)

  IsString-written :
      (e : ℕ)
      → (dst ≤ src) ⊎ (e < dst)
      → src < e
      → IsString mem src e
      → IsString written (src + 1) e
  IsString-written e apart more is = record {
    ordered = omega arith;
    text = IsText-written e (ground arith) is.text;
    end = ground (arith, is.end);
  }

-- With a round for each byte, `strcpy` of a string of `n` bytes does what `memcpy` of them and of
-- the zero behind them does.
pub strcpy-memcpy :
    (fuel dst src n : ℕ) (mem : Bytes)
    → IsString mem src (src + n)
    → IsForward dst src (suc n)
    → n < fuel
    → strcpy fuel dst src mem ≡ some (memcpy dst src (suc n) mem)
unfolding strcpy memcpy
strcpy-memcpy zero dst src n mem is f h = absurd (omega arith)
strcpy-memcpy (suc fuel) dst src zero mem is f h =
    let at : mem src ≡ 0 = ap mem (omega arith) ∙ is.end in
    rw (written-src dst src mem, eq→== (mem src) 0 at) refl
strcpy-memcpy (suc fuel) dst src (suc n) mem is f h =
    let next = IsString-written dst src mem (src + suc n) (ground arith) (omega arith) is in
    let same : src + suc n ≡ src + 1 + n = omega arith in
    rw (written-src dst src mem, ne→== (mem src) 0 (is.text src (omega arith) (omega arith)))
      (strcpy-memcpy fuel (dst + 1) (src + 1) n (written dst src mem) (rw same at next)
        (ground arith) (omega arith))

pad-memset :
    (fuel dst k : ℕ) (mem : Bytes)
    → k < fuel
    → suc k < 2 ^ 32
    → pad fuel dst (suc k) mem ≡ some (memset dst 0 k mem)
unfolding pad memset
pad-memset zero dst k mem h w = absurd (omega arith)
pad-memset (suc fuel) dst zero mem h w = refl
pad-memset (suc fuel) dst (suc k) mem h w =
    let less : sub32 (suc (suc k)) 1 ≡ suc k = omega arith in
    rw (less, ne→== (suc k) 0 (omega arith))
      (pad-memset fuel (dst + 1) k (update mem dst 0) (omega arith) (omega arith))

-- For a string of `l` bytes, fewer than `n`, that the copy does not run into, and with a round for
-- each of the `n` bytes, fewer than 2 ^ 32, `strncpy` copies the string with its end and fills the
-- rest of the `n` bytes with zeros.
pub strncpy-pads :
    (fuel dst src l n : ℕ) (mem : Bytes)
    → IsString mem src (src + l)
    → IsForward dst src (suc l)
    → l < n
    → n < 2 ^ 32
    → n < fuel
    → strncpy fuel dst src n mem
      ≡ some (memset (dst + suc l) 0 (n - suc l) (memcpy dst src (suc l) mem))
unfolding strncpy memcpy
strncpy-pads zero dst src l n mem is f less w h = absurd (omega arith)
strncpy-pads (suc fuel) dst src zero zero mem is f less w h = absurd (omega arith)
strncpy-pads (suc fuel) dst src zero (suc k) mem is f less w h =
    let at : mem src ≡ 0 = ap mem (omega arith) ∙ is.end in
    let count : suc k - 1 ≡ k = omega arith in
    rw (written-src dst src mem, eq→== (mem src) 0 at, count)
      (pad-memset fuel (dst + 1) k (written dst src mem) (omega arith) w)
strncpy-pads (suc fuel) dst src (suc l) n mem is f less w h =
    let next = IsString-written dst src mem (src + suc l) (ground arith) (omega arith) is in
    let same : src + suc l ≡ src + 1 + l = omega arith in
    let count : sub32 n 1 ≡ n - 1 = omega arith in
    let place : dst + suc (suc l) ≡ dst + 1 + suc l = omega arith in
    let room : n - suc (suc l) ≡ n - 1 - suc l = omega arith in
    rw
      (
        written-src dst src mem,
        ne→== (mem src) 0 (is.text src (omega arith) (omega arith)),
        count,
        ne→== (n - 1) 0 (omega arith),
        place,
        room,
      )
      (strncpy-pads fuel (dst + 1) (src + 1) l (n - 1) (written dst src mem) (rw same at next)
        (ground arith) (omega arith) (omega arith) (omega arith))
