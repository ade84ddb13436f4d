-- ===== src/Hyper/Mmu/Entry.antt =====
-- What `hypercall_set_pte` lets a guest write, and which page directory `hypercall_switch_mm`
-- takes.
use sth.Base.{
  ℕ, ◌+◌, ◌-◌, ◌*◌, ◌/◌, ◌%◌, ◌^◌, ◌≤◌, ◌<◌, ◌≡◌, ◌⊎◌, inl, inr, arith, Bool, false, ◌∷◌, not, ◌&&◌,
  ◌||◌, ltb, ◌==◌, if◌then◌else◌, sub32, update, Bool-cases, bit_and_clear_low_twelve,
}
use sth.Hyper.{
  hal_virt_start, GuestInfo, Hyp, ok, halted, dcache_invalidate_mva, outside_address_space,
  foreign_physical_address,
}
use sth.Hyper.PageTable.{l2_small_addr}
use sth.Hyper.Mmu.{owns, hypercall_set_pte}
use sth.Hyper.Mmu.Section.{InGuest}

-- The test on the two addresses of an entry.
abbrev outside : GuestInfo → ℕ → Bool
outside g va = ltb (sub32 va 0x800) g.page_offset || ltb (hal_virt_start - 4) va

abbrev foreign : GuestInfo → ℕ → Bool
foreign g pte = not (pte == 0) && not (owns g (l2_small_addr pte))

-- The entry that the processor reads, and the one that Linux reads 0x800 above it.
abbrev pub entered_pte : (va linux_pte phys_pte : ℕ) → Hyp → Hyp
entered_pte va linux_pte phys_pte s = record s {
  mem = update (update s.mem (sub32 va 0x800) phys_pte) va linux_pte;
  cpu = record (s.cpu) { ops = dcache_invalidate_mva (sub32 va 0x800) ∷ s.cpu.ops };
}

module _ (va linux_pte phys_pte : ℕ) (s : Hyp) (aligned : va % 4 ≡ 0) where
  set_pte_lem : hypercall_set_pte va linux_pte phys_pte s ≡ (
      if outside s.vm.guest_info va
      then halted outside_address_space 1
      else if foreign s.vm.guest_info phys_pte
      then halted foreign_physical_address 1
      else ok tt (entered_pte va linux_pte phys_pte s))
  unfolding hypercall_set_pte
  set_pte_lem = elim (Bool-cases (outside s.vm.guest_info va)) [
    | inl e ↦ rw e
    | inr e ↦ rw e (elim (Bool-cases (foreign s.vm.guest_info phys_pte)) [
      | inl f ↦ rw f
      | inr f ↦ rw f (ground arith)
    ])
  ]

  not-foreign :
      phys_pte < 2 ^ 32
      → foreign s.vm.guest_info phys_pte ≡ false
      → (phys_pte ≡ 0) ⊎ InGuest s.vm.guest_info (phys_pte / 4096 * 4096)
  not-foreign w e = ground (arith, bit_and_clear_low_twelve phys_pte w)

  foreign-false :
      phys_pte < 2 ^ 32
      → (phys_pte ≡ 0) ⊎ InGuest s.vm.guest_info (phys_pte / 4096 * 4096)
      → foreign s.vm.guest_info phys_pte ≡ false
  foreign-false w e = ground (arith, bit_and_clear_low_twelve phys_pte w)

  -- For an entry above the first 0x800 bytes, a request that returns has written the two words and
  -- no other; both lie in the guest kernel's addresses; the new mapping is empty or of a page of the
  -- guest's own memory.
  pub set_pte-InGuest :
      {t : Hyp}
      → va < 2 ^ 32
      → 0x800 ≤ va
      → phys_pte < 2 ^ 32
      → hypercall_set_pte va linux_pte phys_pte s ≡ ok tt t
      → (t ≡ entered_pte va linux_pte phys_pte s)
        × (s.vm.guest_info.page_offset + 0x800 ≤ va)
        × (va + 4 ≤ hal_virt_start)
        × ((phys_pte ≡ 0) ⊎ InGuest s.vm.guest_info (phys_pte / 4096 * 4096))
  set_pte-InGuest w above w' e = ground (arith, set_pte_lem, not-foreign w')

  -- For an entry in the first 0x800 bytes the address of the other word wraps: a request that
  -- names an empty mapping or the guest's own memory is carried out, and writes above the
  -- hypervisor's base address.
  pub set_pte-wraps :
      va < 0x800
      → phys_pte < 2 ^ 32
      → s.vm.guest_info.page_offset ≤ 0xffff_f800
      → (phys_pte ≡ 0) ⊎ InGuest s.vm.guest_info (phys_pte / 4096 * 4096)
      → (t : Hyp) × (hypercall_set_pte va linux_pte phys_pte s ≡ ok tt t)
        × (hal_virt_start ≤ 0xffff_f800 + va)
        × (t.mem (0xffff_f800 + va) ≡ phys_pte)
  set_pte-wraps low w' offset own = (
    entered_pte va linux_pte phys_pte s,
    ground (arith, set_pte_lem, foreign-false w' own),
    omega arith,
    ground arith,
  )
