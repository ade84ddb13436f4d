-- ===== src/Hyper/PageTable/Validity.antt =====
-- The page table builder keeps the modes valid.
use sth.Base.{ℕ, zero, suc, Option, none, some, refl, true, false, bit_and, ◌>>>◌}
use sth.Hyper.{RpcHandler, Platform, ok, fault, pure, ◌>>◌, get_virt}
use sth.Hyper.PageTable.{
  MemType, CoarseAttr, coarse_attr, set_l2_index_p, clear_words, pt_get_empty_l2, fill_table,
  new_table, coarse_table, coarse_with, pt_create_coarse,
}
use sth.Hyper.Stable.{Stable, stable, bind-Stable, same-IsValid}

module _ (h : RpcHandler) where
  pub clear_words-Stable : (a n : ℕ) → Stable h (clear_words a n)
  unfolding clear_words
  clear_words-Stable a zero = search stable
  clear_words-Stable a (suc n) =
      let rest : (b : ℕ) → Stable h (clear_words b n) = λ b. clear_words-Stable b n in
      search (stable, rest)

  set_l2_index_p-Stable : (n : ℕ) → Stable h (set_l2_index_p n)
  set_l2_index_p-Stable n = record {
    keeps = λ s v.
        same-IsValid h s _
          (record {
            config = refl;
            mode_config = λ m. refl;
            rpc_to = λ m. refl;
            rpc_for = λ m. refl;
          })
          refl refl refl refl v;
  }

  index-Stable : Stable h (λ s. ok s.l2_index_p s)
  index-Stable = record { keeps = λ s v. v }

  pt_get_empty_l2-Stable : (p : Platform) → Stable h (pt_get_empty_l2 p)
  unfolding pt_get_empty_l2
  pt_get_empty_l2-Stable p =
      search (stable, index-Stable, set_l2_index_p-Stable, clear_words-Stable) depth 12

  fill_table-Stable :
      (ap flags table count index pa : ℕ) → Stable h (fill_table ap flags table count index pa)
  unfolding fill_table
  fill_table-Stable ap flags table zero index pa = search stable
  fill_table-Stable ap flags table (suc count) index pa =
      let rest : (i a : ℕ) → Stable h (fill_table ap flags table count i a) =
        λ i a. fill_table-Stable ap flags table count i a in
      search (stable, rest)

  coarse_table-Stable :
      (p : Platform) (entry : ℕ) (attr : CoarseAttr) → Stable h (coarse_table p entry attr)
  unfolding coarse_table new_table
  coarse_table-Stable p entry attr = search (stable, pt_get_empty_l2-Stable) depth 12

  coarse_with-Stable :
      (p : Platform) (attr : CoarseAttr) (pt va pa size : ℕ)
      → Stable h (coarse_with p attr pt va pa size)
  unfolding coarse_with
  coarse_with-Stable p attr pt va pa size = bind-Stable h _ _ (coarse_table-Stable p _ attr) filled
    where
      filled :
          (t : Option ℕ)
          → Stable h (elim t [
            | none ↦ pure false
            | some table ↦
                fill_table attr.ap attr.flags
                  (get_virt p table)
                  (size >>> 12)
                  (bit_and va 0xf_f000 >>> 12)
                  pa
                >> pure true
          ])
      filled none = search stable
      filled (some table) = search (stable, fill_table-Stable)

  pub pt_create_coarse-Stable :
      (p : Platform) (pt va pa size : ℕ) (mem_type : MemType)
      → Stable h (pt_create_coarse p pt va pa size mem_type)
  unfolding pt_create_coarse
  pt_create_coarse-Stable p pt va pa size mem_type = by_attr (coarse_attr mem_type)
    where
      by_attr :
          (o : Option CoarseAttr)
          → Stable h (elim o [ none ↦ λ s. fault | some attr ↦ coarse_with p attr pt va pa size ])
      by_attr none = record { keeps = λ s v. tt }
      by_attr (some attr) = coarse_with-Stable p attr pt va pa size
