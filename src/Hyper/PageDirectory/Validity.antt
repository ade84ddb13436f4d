-- ===== src/Hyper/PageDirectory/Validity.antt =====
-- The hypercalls on page directories keep the modes valid.
use sth.Base.{ℕ, zero, suc}
use sth.Hyper.{RpcHandler, Platform, GuestInfo}
use sth.Hyper.PageTable.Validity.{clear_words-Stable, pt_create_coarse-Stable}
use sth.Hyper.Cache.Validity.{mem_cache_dcache_area-Stable}
use sth.Hyper.PageDirectory.{
  make_rw, make_ro, copy_words, directory_table, split_section, protect, install, remove,
  hypercall_free_pgd, hypercall_new_pgd, hypercall_set_pmd,
}
use sth.Hyper.Stable.{Stable, stable}

module _ (h : RpcHandler) where
  make_rw-Stable : (g : GuestInfo) (pt i left : ℕ) → Stable h (make_rw g pt i left)
  unfolding make_rw
  make_rw-Stable g pt i zero = search stable
  make_rw-Stable g pt i (suc left) =
      let rest : (j : ℕ) → Stable h (make_rw g pt j left) = λ j. make_rw-Stable g pt j left in
      search (stable, rest) depth 20

  make_ro-Stable : (g : GuestInfo) (pt i left : ℕ) → Stable h (make_ro g pt i left)
  unfolding make_ro
  make_ro-Stable g pt i zero = search stable
  make_ro-Stable g pt i (suc left) =
      let rest : (j : ℕ) → Stable h (make_ro g pt j left) = λ j. make_ro-Stable g pt j left in
      search (stable, rest) depth 20

  copy_words-Stable : (dst src n : ℕ) → Stable h (copy_words dst src n)
  unfolding copy_words
  copy_words-Stable dst src zero = search stable
  copy_words-Stable dst src (suc n) =
      let rest : (a b : ℕ) → Stable h (copy_words a b n) = λ a b. copy_words-Stable a b n in
      search (stable, rest) depth 12

  pub hypercall_free_pgd-Stable :
      (p : Platform) (fuel pgd : ℕ) → Stable h (hypercall_free_pgd p fuel pgd)
  unfolding hypercall_free_pgd
  hypercall_free_pgd-Stable p fuel pgd =
      search (stable, make_rw-Stable, mem_cache_dcache_area-Stable) depth 20

  directory_table-Stable :
      (p : Platform) (g : GuestInfo) (pgd : ℕ) → Stable h (directory_table p g pgd)
  unfolding directory_table
  directory_table-Stable p g pgd = search (stable, pt_create_coarse-Stable) depth 20

  pub hypercall_new_pgd-Stable :
      (p : Platform) (fuel pgd : ℕ) → Stable h (hypercall_new_pgd p fuel pgd)
  unfolding hypercall_new_pgd
  hypercall_new_pgd-Stable p fuel pgd =
      search
        (
          stable, directory_table-Stable, make_ro-Stable, clear_words-Stable, copy_words-Stable,
          mem_cache_dcache_area-Stable,
        )
        depth 20

  split_section-Stable :
      (p : Platform) (g : GuestInfo) (pmd pte index : ℕ)
      → Stable h (split_section p g pmd pte index)
  unfolding split_section
  split_section-Stable p g pmd pte index = search (stable, pt_create_coarse-Stable) depth 20

  protect-Stable : (p : Platform) (ap val index : ℕ) → Stable h (protect p ap val index)
  unfolding protect
  protect-Stable p ap val index = search stable depth 20

  install-Stable :
      (p : Platform) (g : GuestInfo) (l1 val index : ℕ) → Stable h (install p g l1 val index)
  unfolding install
  install-Stable p g l1 val index = search (stable, protect-Stable) depth 20

  remove-Stable : (p : Platform) (g : GuestInfo) (l1 index : ℕ) → Stable h (remove p g l1 index)
  unfolding remove
  remove-Stable p g l1 index = search (stable, protect-Stable) depth 20

  pub hypercall_set_pmd-Stable :
      (p : Platform) (pmd val : ℕ) → Stable h (hypercall_set_pmd p pmd val)
  unfolding hypercall_set_pmd
  hypercall_set_pmd-Stable p pmd val =
      search (stable, split_section-Stable, install-Stable, remove-Stable) depth 20
