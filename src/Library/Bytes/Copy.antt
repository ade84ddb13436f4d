-- ===== src/Library/Bytes/Copy.antt =====
-- What the copying routines leave in memory.
use sth.Base.{
  ℕ, zero, suc, ◌+◌, ◌-◌, ◌≤◌, ◌<◌, ◌≡◌, ◌≢◌, ◌⊎◌, inl, inr, refl, arith, some, ◌==◌, update, ne→==,
  eq→==, ==→eq, Bool-cases, ◌∙◌, ap,
}
use sth.Library.Bytes.{Bytes, memcpy, strlen}

-- The bytes from `s` up to `e` do not end a string.
abbrev pub IsText : Bytes → (s e : ℕ) → Type 0
IsText mem s e = (a : ℕ) → s ≤ a → a < e → mem a ≢ 0

-- A string from `s` on whose last byte, a zero, is at `e`.
pub record IsString (mem : Bytes) (s e : ℕ) : Type 0 where
  pub ordered : s ≤ e
  pub text : IsText mem s e
  pub end : mem e ≡ 0

-- A copy from the front on reads no byte that it has written.
abbrev pub IsForward : (dst src len : ℕ) → Type 0
IsForward dst src len = (dst ≤ src) ⊎ (src + len ≤ dst)

memcpy-outside :
    (dst src len a : ℕ) (mem : Bytes)
    → (a < dst) ⊎ (dst + len ≤ a)
    → memcpy dst src len mem a ≡ mem a
unfolding memcpy
memcpy-outside dst src zero a mem out = refl
memcpy-outside dst src (suc len) a mem out =
    ground (arith, memcpy-outside (dst + 1) (src + 1) len a (update mem dst (mem src)))

memcpy-inside :
    (dst src len i a b : ℕ) (mem : Bytes)
    → IsForward dst src len
    → i < len
    → a ≡ dst + i
    → b ≡ src + i
    → memcpy dst src len mem a ≡ mem b
unfolding memcpy
memcpy-inside dst src zero i a b mem f h at from = absurd (omega arith)
memcpy-inside dst src (suc len) zero a b mem f h at from =
    let here : a ≡ dst = omega (arith, at) in
    let there : b ≡ src = omega (arith, from) in
    rw
      (
        memcpy-outside (dst + 1) (src + 1) len a (update mem dst (mem src)) (inl (omega arith)),
        there,
        here,
      )
      (ground arith)
memcpy-inside dst src (suc len) (suc i) a b mem f h at from =
    let kept : update mem dst (mem src) b ≡ mem b = ground arith in
    memcpy-inside (dst + 1) (src + 1) len i a b (update mem dst (mem src)) (ground arith)
      (omega arith) (omega arith) (omega arith)
    ∙ kept

-- A copy that does not run into its source gives each byte of the destination what the source held,
-- and leaves every other byte as it was.
pub memcpy-copies :
    (dst src len i a : ℕ) (mem : Bytes)
    → IsForward dst src len
    → i < len
    → (a < dst) ⊎ (dst + len ≤ a)
    → (memcpy dst src len mem (dst + i) ≡ mem (src + i)) × (memcpy dst src len mem a ≡ mem a)
memcpy-copies dst src len i a mem f h out = (
  memcpy-inside dst src len i (dst + i) (src + i) mem f h refl refl,
  memcpy-outside dst src len a mem out,
)

IsString-next : (mem : Bytes) (s e : ℕ) → IsString mem s e → s ≢ e → IsString mem (s + 1) e
IsString-next mem s e is ne = record {
  ordered = omega (arith, is.ordered);
  text = λ a lo hi. is.text a (omega arith) hi;
  end = is.end;
}

strlen-from :
    (fuel s e ret : ℕ) (mem : Bytes)
    → IsString mem s e
    → e < s + fuel
    → strlen fuel s ret mem ≡ some (ret + (e - s))
unfolding strlen
strlen-from zero s e ret mem is h = absurd (omega (arith, is.ordered))
strlen-from (suc fuel) s e ret mem is h = elim (Bool-cases (s == e)) [
  | inl done ↦
      let at : mem s ≡ 0 = ap mem (==→eq s e done) ∙ is.end in
      rw (eq→== (mem s) 0 at) (ground arith)
  | inr more ↦
      let ne : s ≢ e = ground arith in
      let rest =
        strlen-from fuel (s + 1) e (ret + 1) mem (IsString-next mem s e is ne) (omega arith) in
      let count : ret + 1 + (e - (s + 1)) ≡ ret + (e - s) = omega (arith, is.ordered) in
      rw (ne→== (mem s) 0 (is.text s (omega arith) (omega (arith, is.ordered))))
        (rest ∙ ap some count)
]

-- With a round for each byte, `strlen` gives the number of bytes before the first zero.
pub strlen-counts :
    (fuel s e : ℕ) (mem : Bytes)
    → IsString mem s e
    → e < s + fuel
    → strlen fuel s 0 mem ≡ some (e - s)
strlen-counts fuel s e mem is h = strlen-from fuel s e 0 mem is h ∙ ap some (omega arith)
