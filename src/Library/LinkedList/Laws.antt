-- ===== src/Library/LinkedList/Laws.antt =====
-- The list operations on the items that a list links: what a client sees is a sequence.
use sth.Base.{
  ℕ, ◌+◌, ◌≡◌, ◌≢◌, refl, arith, some, List, [], ◌∷◌, ◌++◌, update, ne→==, eq→==, sym, ◌∙◌,
}
use sth.Library.Words.{Words}
use sth.Library.LinkedList.{list_init, list_add_between, list_remove, list_pop}
use sth.Library.LinkedList.Chain.{
  Chain, Fresh, Distinct, Every, first, last, update_ne, Fresh-left, Fresh-right, Fresh-delete,
  Fresh-middle, Distinct-delete, Every-delete, Every-left, Every-right, first-ne, last-ne,
  first-Every, last-Every, Chain-next, Chain-prev, IsApart, Chain-put_next, Chain-put_prev,
}

-- The list of head `root` links the items `xs`, in this order, and no item twice.
pub record IsRing (IsItem : ℕ → Type 0) (mem : Words) (root : ℕ) (xs : List ℕ) : Type 0 where
  pub items : Every IsItem (root ∷ xs)
  pub distinct : Distinct (root ∷ xs)
  pub chain : Chain mem root xs root

update_eq : (mem : Words) (a v : ℕ) → update mem a v a ≡ v
update_eq mem a v = ground arith

-- All items but the first one.
abbrev pub others : List ℕ → List ℕ
others [] = []
others (x ∷ xs) = xs

-- The links of `p` and `n` to each other.
abbrev joined : Words → (p n : ℕ) → Words
joined mem p n = update (update mem (n + 4) p) p n

module _ (IsItem : ℕ → Type 0) (apart : IsApart IsItem) where
  Chain-relink :
      (mem : Words) (p x q : ℕ) (ys zs : List ℕ)
      → IsItem q
      → Every IsItem (p ∷ ys ++ x ∷ zs)
      → Distinct (p ∷ ys ++ x ∷ zs)
      → Fresh q (ys ++ x ∷ zs)
      → Chain mem p (ys ++ x ∷ zs) q
      → Chain (joined mem (last p ys) (first zs q)) p (ys ++ zs) q
  Chain-relink mem p x q [] [] iq (ip, e) (f, d) fq c = (
    update_eq (update mem (q + 4) p) p q,
    update_ne (update mem (q + 4) p) p q (q + 4) (λ s. apart p q ip iq (sym s))
        ∙ update_eq mem (q + 4) p,
  )
  Chain-relink mem p x q [] (z ∷ zs) iq (ip, (ix, (iz, e))) ((px, (pz, fp)), ((xz, fx), (fz, d)))
        (qx, (qz, fq)) (to, from, (next, prev, rest)) =
      (
        update_eq (update mem (z + 4) p) p z,
        update_ne (update mem (z + 4) p) p z (z + 4) (λ s. apart p z ip iz (sym s))
            ∙ update_eq mem (z + 4) p,
        Chain-put_next IsItem apart (update mem (z + 4) p) p z z q zs ip iq e pz fp
            (Chain-put_prev IsItem apart mem z p z q zs iz iz e (λ s. qz (sym s)) fz rest),
      )
  Chain-relink mem p x q (y ∷ ys) zs iq (ip, (iy, e)) ((py, fp), (fy, d)) (qy, fq)
        (to, from, rest) =
      let n = first zs q in
      let l = last y ys in
      let (ix, ez) = Every-right IsItem ys (x ∷ zs) e in
      let i_n = first-Every IsItem q zs ez iq in
      let il = last-Every IsItem y ys iy (Every-left IsItem ys (x ∷ zs) e) in
      let (yx, fyz) = Fresh-right y ys (x ∷ zs) fy in
      let yn = first-ne y q zs fyz (λ s. qy (sym s)) in
      let pl = last-ne p y ys py (Fresh-left p ys (x ∷ zs) fp) in
      (
        update_ne (update mem (n + 4) l) l n p pl
            ∙ update_ne mem (n + 4) l p (apart p n ip i_n)
            ∙ to,
        update_ne (update mem (n + 4) l) l n (y + 4) (λ s. apart l y il iy (sym s))
            ∙ update_ne mem (n + 4) l (y + 4) (λ s. yn (omega (arith, s)))
            ∙ from,
        Chain-relink mem y x q ys zs iq (iy, e) (fy, d) fq rest,
      )

  -- When no item begins in the middle of another one, removing an item of a list, wherever it
  -- stands, leaves the list of the other items in their order, and makes the item a list of its
  -- own.
  pub list_remove-deletes :
      (mem : Words) (root x : ℕ) (ys zs : List ℕ)
      → IsRing IsItem mem root (ys ++ x ∷ zs)
      → (mem' : Words) × (list_remove x mem ≡ some (tt, mem'))
        × IsRing IsItem mem' root (ys ++ zs)
        × IsRing IsItem mem' x []
  unfolding list_remove
  list_remove-deletes mem root x ys zs ring =
      let (ir, e) = ring.items in
      let (fr, d) = ring.distinct in
      let next = Chain-next mem root x root ys zs ring.chain in
      let prev = Chain-prev mem root x root ys zs ring.chain in
      let linked = Chain-relink mem root x root ys zs ir ring.items ring.distinct fr ring.chain in
      let (ix, ez) = Every-right IsItem ys (x ∷ zs) e in
      let kept = Every-delete IsItem x ys zs e in
      let (rx, _) = Fresh-right root ys (x ∷ zs) fr in
      let xr : x ≢ root = λ s. rx (sym s) in
      let fx = Fresh-middle x ys zs d in
      let m = joined mem (last root ys) (first zs root) in
      let m' = update (update m (x + 4) x) x x in
      (
        m',
        rw (next, prev) refl,
        record {
          items = (ir, kept);
          distinct = (Fresh-delete root x ys zs fr, Distinct-delete x ys zs d);
          chain =
              Chain-put_next IsItem apart (update m (x + 4) x) x x root root (ys ++ zs) ix ir kept
                xr fx
                (Chain-put_prev IsItem apart m x x root root (ys ++ zs) ix ir kept xr fx linked);
        },
        record {
          items = (ix, tt);
          distinct = (tt, tt);
          chain = (
            update_eq (update m (x + 4) x) x x,
            update_ne (update m (x + 4) x) x x (x + 4) (omega arith) ∙ update_eq m (x + 4) x,
          );
        },
      )

  -- Taking an item off a list gives the first one, or 0 if the list is empty, and leaves the list
  -- of the others.
  pub list_pop-takes_first :
      (mem : Words) (root : ℕ) (xs : List ℕ)
      → IsRing IsItem mem root xs
      → (mem' : Words) × (list_pop root mem ≡ some (first xs 0, mem'))
        × IsRing IsItem mem' root (others xs)
  unfolding list_pop
  list_pop-takes_first mem root [] ring = (mem, rw (ring.chain.0, eq→== root root refl) refl, ring)
  list_pop-takes_first mem root (x ∷ xs) ring =
      let (mem', run, left, _) = list_remove-deletes mem root x [] xs ring in
      let ((rx, fr), d) = ring.distinct in
      (mem', rw (ring.chain.0, ne→== x root (λ s. rx (sym s)), run) refl, left)

  -- After `list_init` the list is empty.
  pub list_init-IsRing :
      (mem : Words) (root : ℕ)
      → IsItem root
      → (mem' : Words) × (list_init root mem ≡ some (tt, mem')) × IsRing IsItem mem' root []
  unfolding list_init
  list_init-IsRing mem root ir = (
    update (update mem (root + 4) root) root root,
    refl,
    record {
      items = (ir, tt);
      distinct = (tt, tt);
      chain = (
        update_eq (update mem (root + 4) root) root root,
        update_ne (update mem (root + 4) root) root root (root + 4) (omega arith)
            ∙ update_eq mem (root + 4) root,
      );
    },
  )

  pub between :
      (mem : Words) (root item : ℕ) (xs : List ℕ)
      → IsRing IsItem mem root xs
      → IsItem item
      → Fresh item (root ∷ xs)
      → (mem' : Words) × (list_add_between root (first xs root) item mem ≡ some (tt, mem'))
        × Chain mem' root (item ∷ xs) root
  unfolding list_add_between
  between mem root item [] ring ii (ne, f) =
      let ir = ring.items.0 in
      let m1 = update mem (root + 4) item in
      let m2 = update m1 item root in
      let m3 = update m2 (item + 4) root in
      (
        update m3 root item,
        refl,
        (
          update_eq m3 root item,
          update_ne m3 root item (item + 4) (λ s. apart root item ir ii (sym s))
              ∙ update_eq m2 (item + 4) root,
          (
            update_ne m3 root item item ne
                ∙ update_ne m2 (item + 4) root item (omega arith)
                ∙ update_eq m1 item root,
            update_ne m3 root item (root + 4) (omega arith)
                ∙ update_ne m2 (item + 4) root (root + 4) (λ s. ne (omega (arith, s)))
                ∙ update_ne m1 item root (root + 4) (λ s. apart item root ii ir (sym s))
                ∙ update_eq mem (root + 4) item,
          ),
        ),
      )
  between mem root item (x ∷ xs) ring ii (ne, (nx, f)) =
      let (ir, (ix, e)) = ring.items in
      let ((rx, fr), (fx, d)) = ring.distinct in
      let (to, from, rest) = ring.chain in
      let m1 = update mem (x + 4) item in
      let m2 = update m1 item x in
      let m3 = update m2 (item + 4) root in
      (
        update m3 root item,
        refl,
        (
          update_eq m3 root item,
          update_ne m3 root item (item + 4) (λ s. apart root item ir ii (sym s))
              ∙ update_eq m2 (item + 4) root,
          (
            update_ne m3 root item item ne
                ∙ update_ne m2 (item + 4) root item (omega arith)
                ∙ update_eq m1 item x,
            update_ne m3 root item (x + 4) (λ s. apart root x ir ix (sym s))
                ∙ update_ne m2 (item + 4) root (x + 4) (λ s. nx (omega (arith, s)))
                ∙ update_ne m1 item x (x + 4) (λ s. apart item x ii ix (sym s))
                ∙ update_eq mem (x + 4) item,
            Chain-put_next IsItem apart m3 root item x root xs ir ir e rx fr (
                Chain-put_prev IsItem apart m2 item root x root xs ii ix e ne f (
                  Chain-put_next IsItem apart m1 item x x root xs ii ir e nx f (
                    Chain-put_prev IsItem apart mem x item x root xs ix ix e (λ s. rx (sym s)) fx
                      rest))),
          ),
        ),
      )
