-- ===== src/Library/LinkedList/Chain.antt =====
-- The links between the items of a list, and which writes leave them as they are.
use sth.Base.{ℕ, ◌+◌, ◌≡◌, ◌≢◌, refl, arith, List, [], ◌∷◌, ◌++◌, update, ne→==, sym, ◌∙◌}
use sth.Library.Words.{Words}

-- From `p` on the items `xs` follow each other, and `q` follows the last one.
abbrev pub Chain : Words → (p : ℕ) (xs : List ℕ) (q : ℕ) → Type 0
Chain mem p [] q = (mem p ≡ q) × (mem (q + 4) ≡ p)
Chain mem p (x ∷ xs) q = (mem p ≡ x) × (mem (x + 4) ≡ p) × Chain mem x xs q

-- `w` is none of the items.
abbrev pub Fresh : (w : ℕ) → List ℕ → Type 0
Fresh w [] = Unit {0}
Fresh w (x ∷ xs) = (w ≢ x) × Fresh w xs

abbrev pub Distinct : List ℕ → Type 0
Distinct [] = Unit {0}
Distinct (x ∷ xs) = Fresh x xs × Distinct xs

abbrev pub Every : (ℕ → Type 0) → List ℕ → Type 0
Every P [] = Unit {0}
Every P (x ∷ xs) = P x × Every P xs

abbrev pub first : List ℕ → ℕ → ℕ
first [] q = q
first (x ∷ xs) q = x

abbrev pub last : ℕ → List ℕ → ℕ
last p [] = p
last p (x ∷ xs) = last x xs

pub update_ne : (mem : Words) (a v b : ℕ) → b ≢ a → update mem a v b ≡ mem b
update_ne mem a v b ne = rw (ne→== b a ne) refl

pub Fresh-left : (w : ℕ) (ys zs : List ℕ) → Fresh w (ys ++ zs) → Fresh w ys
Fresh-left w [] zs f = tt
Fresh-left w (y ∷ ys) zs (ne, f) = (ne, Fresh-left w ys zs f)

pub Fresh-right : (w : ℕ) (ys zs : List ℕ) → Fresh w (ys ++ zs) → Fresh w zs
Fresh-right w [] zs f = f
Fresh-right w (y ∷ ys) zs (ne, f) = Fresh-right w ys zs f

pub Fresh-delete : (w x : ℕ) (ys zs : List ℕ) → Fresh w (ys ++ x ∷ zs) → Fresh w (ys ++ zs)
Fresh-delete w x [] zs (ne, f) = f
Fresh-delete w x (y ∷ ys) zs (ne, f) = (ne, Fresh-delete w x ys zs f)

pub Distinct-delete : (x : ℕ) (ys zs : List ℕ) → Distinct (ys ++ x ∷ zs) → Distinct (ys ++ zs)
Distinct-delete x [] zs (f, d) = d
Distinct-delete x (y ∷ ys) zs (f, d) = (Fresh-delete y x ys zs f, Distinct-delete x ys zs d)

pub Every-delete :
    (P : ℕ → Type 0) (x : ℕ) (ys zs : List ℕ) → Every P (ys ++ x ∷ zs) → Every P (ys ++ zs)
Every-delete P x [] zs (p, e) = e
Every-delete P x (y ∷ ys) zs (p, e) = (p, Every-delete P x ys zs e)

pub Every-left : (P : ℕ → Type 0) (ys zs : List ℕ) → Every P (ys ++ zs) → Every P ys
Every-left P [] zs e = tt
Every-left P (y ∷ ys) zs (p, e) = (p, Every-left P ys zs e)

pub Every-right : (P : ℕ → Type 0) (ys zs : List ℕ) → Every P (ys ++ zs) → Every P zs
Every-right P [] zs e = e
Every-right P (y ∷ ys) zs (p, e) = Every-right P ys zs e

pub Distinct-right : (ys zs : List ℕ) → Distinct (ys ++ zs) → Distinct zs
Distinct-right [] zs d = d
Distinct-right (y ∷ ys) zs (f, d) = Distinct-right ys zs d

-- The items before `x` are not `x`.
pub Fresh-middle : (x : ℕ) (ys zs : List ℕ) → Distinct (ys ++ x ∷ zs) → Fresh x (ys ++ zs)
Fresh-middle x [] zs (f, d) = f
Fresh-middle x (y ∷ ys) zs (f, d) =
    let (ne, _) = Fresh-right y ys (x ∷ zs) f in (λ s. ne (sym s), Fresh-middle x ys zs d)

pub first-ne : (w q : ℕ) (zs : List ℕ) → Fresh w zs → w ≢ q → w ≢ first zs q
first-ne w q [] f ne = ne
first-ne w q (z ∷ zs) (ne', f) ne = ne'

pub last-ne : (w p : ℕ) (ys : List ℕ) → w ≢ p → Fresh w ys → w ≢ last p ys
last-ne w p [] ne f = ne
last-ne w p (y ∷ ys) ne (ne', f) = last-ne w y ys ne' f

pub first-Every : (P : ℕ → Type 0) (q : ℕ) (zs : List ℕ) → Every P zs → P q → P (first zs q)
first-Every P q [] e here = here
first-Every P q (z ∷ zs) (p, e) here = p

pub last-Every : (P : ℕ → Type 0) (p : ℕ) (ys : List ℕ) → P p → Every P ys → P (last p ys)
last-Every P p [] here e = here
last-Every P p (y ∷ ys) here (there, e) = last-Every P y ys there e

-- What `item->next` and `item->prev` of an item in the middle are.
pub Chain-next :
    (mem : Words) (p x q : ℕ) (ys zs : List ℕ) → Chain mem p (ys ++ x ∷ zs) q → mem x ≡ first zs q
Chain-next mem p x q [] [] (to, from, (rest, back)) = rest
Chain-next mem p x q [] (z ∷ zs) (to, from, (rest, back, others)) = rest
Chain-next mem p x q (y ∷ ys) zs (to, from, rest) = Chain-next mem y x q ys zs rest

pub Chain-prev :
    (mem : Words) (p x q : ℕ) (ys zs : List ℕ)
    → Chain mem p (ys ++ x ∷ zs) q
    → mem (x + 4) ≡ last p ys
Chain-prev mem p x q [] zs (to, from, rest) = from
Chain-prev mem p x q (y ∷ ys) zs (to, from, rest) = Chain-prev mem y x q ys zs rest

pub Chain-first : (mem : Words) (p q : ℕ) (xs : List ℕ) → Chain mem p xs q → mem p ≡ first xs q
Chain-first mem p q [] (to, from) = to
Chain-first mem p q (x ∷ xs) (to, from, rest) = to

-- No item begins in the middle of another one.
abbrev pub IsApart : (ℕ → Type 0) → Type 0
IsApart IsItem = (a b : ℕ) → IsItem a → IsItem b → a ≢ b + 4

module _ (IsItem : ℕ → Type 0) (apart : IsApart IsItem) where
  -- Writing `next` of another item.
  pub Chain-put_next :
      (mem : Words) (w v p q : ℕ) (xs : List ℕ)
      → IsItem w
      → IsItem q
      → Every IsItem xs
      → w ≢ p
      → Fresh w xs
      → Chain mem p xs q
      → Chain (update mem w v) p xs q
  Chain-put_next mem w v p q [] iw iq e ne f (to, from) = (
    update_ne mem w v p (λ s. ne (sym s)) ∙ to,
    update_ne mem w v (q + 4) (λ s. apart w q iw iq (sym s)) ∙ from,
  )
  Chain-put_next mem w v p q (x ∷ xs) iw iq (ix, e) ne (ne', f) (to, from, rest) = (
    update_ne mem w v p (λ s. ne (sym s)) ∙ to,
    update_ne mem w v (x + 4) (λ s. apart w x iw ix (sym s)) ∙ from,
    Chain-put_next mem w v x q xs iw iq e ne' f rest,
  )

  -- Writing `prev` of another item.
  pub Chain-put_prev :
      (mem : Words) (w v p q : ℕ) (xs : List ℕ)
      → IsItem w
      → IsItem p
      → Every IsItem xs
      → w ≢ q
      → Fresh w xs
      → Chain mem p xs q
      → Chain (update mem (w + 4) v) p xs q
  Chain-put_prev mem w v p q [] iw ip e ne f (to, from) = (
    update_ne mem (w + 4) v p (apart p w ip iw) ∙ to,
    update_ne mem (w + 4) v (q + 4) (λ s. ne (omega (arith, s))) ∙ from,
  )
  Chain-put_prev mem w v p q (x ∷ xs) iw ip (ix, e) ne (ne', f) (to, from, rest) = (
    update_ne mem (w + 4) v p (apart p w ip iw) ∙ to,
    update_ne mem (w + 4) v (x + 4) (λ s. ne' (omega (arith, s))) ∙ from,
    Chain-put_prev mem w v x q xs iw ix e ne f rest,
  )
