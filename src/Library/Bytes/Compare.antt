-- ===== src/Library/Bytes/Compare.antt =====
-- Which byte decides a comparison.
use sth.Base.{ℕ, zero, suc, ◌+◌, ◌≤◌, ◌<◌, ◌≡◌, ◌≢◌, ◌⊎◌, refl, arith, some, sub32, ne→==, eq→==}
use sth.Library.Bytes.{Bytes, memcmp, strcmp}

-- The bytes before `p + k` and `q + k` are the same.
abbrev pub Agree : Bytes → (p q k : ℕ) → Type 0
Agree mem p q k = (i a b : ℕ) → i < k → a ≡ p + i → b ≡ q + i → mem a ≡ mem b

Agree-tail : (mem : Bytes) (p q k : ℕ) → Agree mem p q (suc k) → Agree mem (p + 1) (q + 1) k
Agree-tail mem p q k h i a b lt at at' = h (suc i) a b (omega arith) (omega arith) (omega arith)

sub32-zero : (a b : ℕ) → a < 256 → b < 256 → sub32 a b ≡ 0 → a ≡ b
sub32-zero a b w w' e = omega arith

-- `memcmp` is decided by the first two bytes, `a` and `b`, that differ: it gives their difference,
-- which is not 0.
pub memcmp-decides :
    (p q k n a b : ℕ) (mem : Bytes)
    → Agree mem p q k
    → k < n
    → a ≡ p + k
    → b ≡ q + k
    → mem a ≢ mem b
    → mem a < 256
    → mem b < 256
    → (memcmp p q n mem ≡ sub32 (mem a) (mem b)) × (sub32 (mem a) (mem b) ≢ 0)
unfolding memcmp
memcmp-decides p q k zero a b mem same h at at' ne w w' = absurd (omega arith)
memcmp-decides p q zero (suc n) a b mem same h at at' ne w w' =
    let differ : sub32 (mem a) (mem b) ≢ 0 = λ e. ne (sub32-zero (mem a) (mem b) w w' e) in
    let here : p ≡ a = omega arith in
    let here' : q ≡ b = omega arith in (rw (here, here', ne→== _ 0 differ) refl, differ)
memcmp-decides p q (suc k) (suc n) a b mem same h at at' ne w w' =
    let (rest, differ) =
      memcmp-decides (p + 1) (q + 1) k n a b mem (Agree-tail mem p q k same) (omega arith)
        (omega arith) (omega arith) ne w w' in
    let first : mem p ≡ mem q = same 0 p q (omega arith) (omega arith) (omega arith) in
    let none_yet : sub32 (mem p) (mem q) ≡ 0 = omega (arith, first) in (rw none_yet rest, differ)

-- With a round for each byte, `strcmp` is decided by the first place where the bytes differ or the
-- second string ends, and gives the difference of the bytes there.
pub strcmp-decides :
    (fuel p q k a b : ℕ) (mem : Bytes)
    → Agree mem p q k
    → ((c : ℕ) → q ≤ c → c < q + k → mem c ≢ 0)
    → a ≡ p + k
    → b ≡ q + k
    → (mem b ≡ 0) ⊎ (mem a ≢ mem b)
    → k < fuel
    → strcmp fuel p q mem ≡ some (sub32 (mem a) (mem b))
unfolding strcmp
strcmp-decides zero p q k a b mem same text at at' last h = absurd (omega arith)
strcmp-decides (suc fuel) p q zero a b mem same text at at' last h =
    let here : p ≡ a = omega arith in
    let here' : q ≡ b = omega arith in rw (here, here') (ground (arith, last))
strcmp-decides (suc fuel) p q (suc k) a b mem same text at at' last h =
    let first : mem p ≡ mem q = same 0 p q (omega arith) (omega arith) (omega arith) in
    let more = text q (omega arith) (omega arith) in
    let rest =
      strcmp-decides fuel (p + 1) (q + 1) k a b mem (Agree-tail mem p q k same)
        (λ c lo hi. text c (omega arith) (omega arith)) (omega arith) (omega arith) last
        (omega arith) in
    rw (ne→== (mem q) 0 more, eq→== (mem p) (mem q) first) rest
