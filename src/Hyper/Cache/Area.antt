-- ===== src/Hyper/Cache/Area.antt =====
-- The loop over the cache lines of an area: which lines it treats, and when it ends.
use sth.Base.{
  ℕ, zero, suc, ◌+◌, ◌-◌, ◌*◌, ◌/◌, ◌%◌, ◌^◌, ◌≤◌, ◌<◌, ◌≡◌, ◌⊎◌, inl, inr, refl, arith, bit_and,
  List, [], ◌∷◌, true, ltb, u32, ◌<<<◌, ap, bit_and_mask, Bool-cases, sym, ◌∙◌,
}
use native.Mathlib.Nat.{
  div-eq_of_lt-le, div-add-mod', add-mod_right, mod-lt, mul-le-mul_right, div-lt_iff_lt-mul,
}
use sth.Hyper.{
  Platform, Hyp, CopOp, ok, out_of_fuel, dcache_invalidate_mva, dcache_clean_invalidate_mva,
}
use sth.Hyper.Cache.{AreaOp, flush, clean, area_op, area_loop, cache_line, mem_cache_dcache_area}

abbrev pub line_op : AreaOp → ℕ → CopOp
line_op flush = dcache_clean_invalidate_mva
line_op clean = dcache_invalidate_mva

abbrev with_ops : (List CopOp → List CopOp) → Hyp → Hyp
with_ops f s = record s { cpu = record (s.cpu) { ops = f s.cpu.ops } }

area_op-ok :
    (op : AreaOp) (a : ℕ) (s : Hyp) → area_op op a s ≡ ok tt (with_ops (λ o. line_op op a ∷ o) s)
area_op-ok flush a s = refl
area_op-ok clean a s = refl

-- The operations of `k + 1` rounds from `next` on.
lines : AreaOp → (cache_size k next : ℕ) → List CopOp → List CopOp
lines op c zero next o = line_op op next ∷ o
lines op c (suc k) next o = lines op c k (next + c) (line_op op next ∷ o)

-- One of the operations is on an address of the line `q`.
abbrev pub Treats : AreaOp → (cache_size q : ℕ) → List CopOp → Type 0
Treats op c q [] = ⊥
Treats op c q (o ∷ os) = ((m : ℕ) × (o ≡ line_op op m) × (m / c ≡ q)) ⊎ Treats op c q os

same_line : (c next b : ℕ) → next % c ≡ 0 → next ≤ b → b < next + c → next / c ≡ b / c
same_line c next b a lo hi =
    sym
      (div-eq_of_lt-le c (omega (arith, div-add-mod' next c)) (omega (arith, div-add-mod' next c)))

module _ (op : AreaOp) (c : ℕ) (pos : 0 < c) where
  area_loop-lines :
      (k fuel next end : ℕ) (s : Hyp)
      → k < fuel
      → (k ≡ 0) ⊎ (next + k * c < end)
      → end ≤ next + (k + 1) * c
      → next + (k + 1) * c < 2 ^ 32
      → area_loop op c end fuel next s ≡ ok tt (with_ops (lines op c k next) s)
  unfolding area_loop lines
  area_loop-lines k zero next end s h i j w = absurd (omega arith)
  area_loop-lines zero (suc fuel) next end s h i j w = rw (area_op-ok op next s) (ground arith)
  area_loop-lines (suc k) (suc fuel) next end s h i j w =
      let below : next + suc k * c < end = omega arith in
      let wrap : u32 (next + c) ≡ next + c = omega arith in
      let more : ltb (next + c) end ≡ true = ground arith in
      rw (area_op-ok op next s, wrap, more)
        (area_loop-lines k fuel (next + c) end (with_ops (λ o. line_op op next ∷ o) s) (omega arith)
          (inr (omega arith)) (omega arith) (omega arith))

  lines-keep :
      (k next q : ℕ) (o : List CopOp) → Treats op c q o → Treats op c q (lines op c k next o)
  unfolding lines
  lines-keep zero next q o h = inr h
  lines-keep (suc k) next q o h = lines-keep k (next + c) q (line_op op next ∷ o) (inr h)

  -- From an aligned address, every byte up to the end of the last round's line is treated.
  lines-Treats :
      (k next b : ℕ) (o : List CopOp)
      → next % c ≡ 0
      → next ≤ b
      → b < next + (k + 1) * c
      → Treats op c (b / c) (lines op c k next o)
  unfolding lines
  lines-Treats zero next b o a lo hi = inl (next, refl, same_line c next b a lo (omega arith))
  lines-Treats (suc k) next b o a lo hi = elim (Bool-cases (ltb b (next + c))) [
    | inl near ↦
        lines-keep k (next + c) (b / c) (line_op op next ∷ o)
          (inl (next, refl, same_line c next b a lo (ground arith)))
    | inr far ↦
        lines-Treats k (next + c) b (line_op op next ∷ o) (add-mod_right next c ∙ a) (ground arith)
          (omega arith)
  ]

-- The rounds for `size` bytes.
rounds :
    (c size : ℕ)
    → 0 < c
    → 0 < size
    → (((size - 1) / c) * c < size) × (size ≤ ((size - 1) / c + 1) * c)
rounds c size pos some = omega (arith, div-add-mod' (size - 1) c, mod-lt (size - 1) pos)

module _ (op : AreaOp) (c va size fuel : ℕ) (s : Hyp) (pos : 0 < c) (some : 0 < size)
    (fits : va + size + c ≤ 2 ^ 32) where
  area_loop-ok :
      (size - 1) / c < fuel
      → area_loop op c (u32 (va + size)) fuel va s
        ≡ ok tt (with_ops (lines op c ((size - 1) / c) va) s)
  area_loop-ok enough =
      let wrap : u32 (va + size) ≡ va + size = omega arith in
      rw wrap (
        area_loop-lines op c pos ((size - 1) / c) fuel va (va + size) s enough
          (inr (omega (arith, rounds c size pos some))) (omega (arith, rounds c size pos some))
          (omega (arith, rounds c size pos some)))

-- The line size is a power of two between 16 and 2048.
cache_line-dvd : (p : Platform) (s : Hyp) → (2 ^ 32 % cache_line p s ≡ 0) × (0 < cache_line p s)
cache_line-dvd p s =
    by_code (bit_and (p.ccsidr s.cpu.csselr) 7)
      (omega (arith, bit_and_mask 3 (p.ccsidr s.cpu.csselr)))
  where
    by_code : (n : ℕ) → n < 8 → (2 ^ 32 % (16 <<< n) ≡ 0) × (0 < 16 <<< n)
    by_code zero h = (refl, omega arith)
    by_code (suc zero) h = (refl, omega arith)
    by_code (suc (suc zero)) h = (refl, omega arith)
    by_code (suc (suc (suc zero))) h = (refl, omega arith)
    by_code (suc (suc (suc (suc zero)))) h = (refl, omega arith)
    by_code (suc (suc (suc (suc (suc zero))))) h = (refl, omega arith)
    by_code (suc (suc (suc (suc (suc (suc zero)))))) h = (refl, omega arith)
    by_code (suc (suc (suc (suc (suc (suc (suc zero))))))) h = (refl, omega arith)
    by_code (suc (suc (suc (suc (suc (suc (suc (suc n)))))))) h = absurd (omega arith)

module _ (p : Platform) (op : AreaOp) (va size fuel : ℕ) (s : Hyp) where
  -- From a line-aligned address, an area that ends a line before the end of the address space is
  -- treated whole: with a round for each line the loop ends, memory and modes are as they were, and
  -- the line of every byte of the area has been treated.
  pub dcache_area-Treats :
      (b : ℕ)
      → va % cache_line p s ≡ 0
      → va ≤ b
      → b < va + size
      → va + size + cache_line p s ≤ 2 ^ 32
      → (size - 1) / cache_line p s < fuel
      → (t : Hyp) × (mem_cache_dcache_area p fuel va size op s ≡ ok tt t)
        × (t.mem ≡ s.mem)
        × (t.vm ≡ s.vm)
        × Treats op (cache_line p s) (b / cache_line p s) t.cpu.ops
  unfolding mem_cache_dcache_area
  dcache_area-Treats b a lo hi w enough =
      let pos_line = (cache_line-dvd p s).1 in
      let pos : 0 < size = omega arith in
      (
        with_ops (lines op (cache_line p s) ((size - 1) / cache_line p s) va) s,
        area_loop-ok op (cache_line p s) va size fuel s pos_line pos w enough,
        refl,
        refl,
        lines-Treats op (cache_line p s) pos_line ((size - 1) / cache_line p s) va b s.cpu.ops a lo
            (omega (arith, rounds (cache_line p s) size pos_line pos)),
      )

mul_room : (c q r : ℕ) → r + 1 < q → r * c + c + c ≤ q * c
mul_room c q r h = let step : (r + 2) * c ≤ q * c = mul-le-mul_right c (omega arith) in omega arith

-- Past the last line of the address space the address wraps to 0 and stays below the end.
area_loop-wraps :
    (op : AreaOp) (c q end fuel next : ℕ) (s : Hyp)
    → 0 < c
    → q * c ≡ 2 ^ 32
    → 2 ^ 32 < end + c
    → (r : ℕ) → r < q
    → next ≡ r * c
    → area_loop op c end fuel next s ≡ out_of_fuel
unfolding area_loop
area_loop-wraps op c q end zero next s pos whole late r b e = refl
area_loop-wraps op c q end (suc fuel) next s pos whole late r b e =
    elim (Bool-cases (ltb (r + 1) q)) [
      | inl inside ↦
          let room : r * c + c + c ≤ q * c = mul_room c q r (ground arith) in
          let wrap : u32 (next + c) ≡ next + c = omega arith in
          let more : ltb (next + c) end ≡ true = ground arith in
          rw (area_op-ok op next s, wrap, more)
            (area_loop-wraps op c q end fuel (next + c) (with_ops (λ o. line_op op next ∷ o) s) pos
              whole late (r + 1) (ground arith) (omega arith))
      | inr top ↦
          let at : r + 1 ≡ q = ground arith in
          let all : next + c ≡ 2 ^ 32 = omega (arith, ap (λ (t : ℕ). t * c) at) in
          let wrap : u32 (next + c) ≡ 0 = omega arith in
          let more : ltb 0 end ≡ true = ground arith in
          rw (area_op-ok op next s, wrap, more)
            (area_loop-wraps op c q end fuel 0 (with_ops (λ o. line_op op next ∷ o) s) pos whole
              late 0 (omega arith) (omega arith))
    ]

module _ (p : Platform) (op : AreaOp) (va size : ℕ) (s : Hyp) where
  -- A line-aligned area that ends in the last line of the address space is treated for ever: no
  -- number of rounds is enough.
  pub dcache_area-diverges :
      va % cache_line p s ≡ 0
      → va < 2 ^ 32
      → 2 ^ 32 < u32 (va + size) + cache_line p s
      → (fuel : ℕ) → mem_cache_dcache_area p fuel va size op s ≡ out_of_fuel
  unfolding mem_cache_dcache_area
  dcache_area-diverges a b late fuel =
      let c = cache_line p s in
      area_loop-wraps op c (2 ^ 32 / c) (u32 (va + size)) fuel va s (cache_line-dvd p s).1
        (omega (arith, div-add-mod' (2 ^ 32) c, cache_line-dvd p s)) late (va / c)
        ((div-lt_iff_lt-mul (cache_line-dvd p s).1).1
          (omega (arith, div-add-mod' (2 ^ 32) c, cache_line-dvd p s)))
        (omega (arith, div-add-mod' va c))
