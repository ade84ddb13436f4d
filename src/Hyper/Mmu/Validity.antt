-- ===== src/Hyper/Mmu/Validity.antt =====
-- The page table hypercalls keep the modes valid.
use sth.Base.{ℕ, refl}
use sth.Hyper.{RpcHandler, Platform, modify_cpu}
use sth.Hyper.Mmu.{hypercall_create_section, hypercall_switch_mm, hypercall_set_pte}
use sth.Hyper.Stable.{Stable, stable, modify_cpu-Stable}

module _ (h : RpcHandler) where
  pub hypercall_set_pte-Stable :
      (va linux_pte phys_pte : ℕ) → Stable h (hypercall_set_pte va linux_pte phys_pte)
  unfolding hypercall_set_pte
  hypercall_set_pte-Stable va linux_pte phys_pte = search stable depth 20

  pub hypercall_create_section-Stable :
      (p : Platform) (va pa page_attr : ℕ) → Stable h (hypercall_create_section p va pa page_attr)
  unfolding hypercall_create_section
  hypercall_create_section-Stable p va pa page_attr = search stable depth 20

  set_id-Stable : (n : ℕ) → Stable h (modify_cpu (λ c. record c { context_id = n }))
  set_id-Stable n = modify_cpu-Stable h _ (λ c. (refl, refl))

  set_table-Stable : (n : ℕ) → Stable h (modify_cpu (λ c. record c { translation_table0 = n }))
  set_table-Stable n = modify_cpu-Stable h _ (λ c. (refl, refl))

  pub hypercall_switch_mm-Stable :
      (p : Platform) (table_base context_id : ℕ)
      → Stable h (hypercall_switch_mm p table_base context_id)
  unfolding hypercall_switch_mm
  hypercall_switch_mm-Stable p table_base context_id =
      search (stable, set_id-Stable, set_table-Stable) depth 20
