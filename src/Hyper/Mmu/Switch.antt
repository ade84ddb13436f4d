-- ===== src/Hyper/Mmu/Switch.antt =====
-- Which page directory `hypercall_switch_mm` takes.
use sth.Base.{
  ℕ, ◌+◌, ◌-◌, ◌*◌, ◌%◌, ◌^◌, ◌<◌, ◌≡◌, inl, inr, arith, bit_and, Bool, not, ◌||◌, ltb, ◌==◌,
  if◌then◌else◌, u32, ◌<<<◌, ◌>>>◌, Bool-cases,
}
use sth.Hyper.{
  hal_virt_start, Platform, Hyp, ok, halted, fault, flpt_va, get_virt, table_base_not_kernel,
  table_base_writable,
}
use sth.Hyper.PageTable.{l1_pt_addr}
use sth.Hyper.Mmu.{linux_va, table_entry, hypercall_switch_mm}

module _ (p : Platform) (table_base context_id : ℕ) (s : Hyp) where
  -- The section of the directory in Linux's addresses, and its entry in the master table.
  abbrev pub section_of : ℕ
  section_of = linux_va s.vm.guest_info.phys_offset table_base

  abbrev pub l1_word : ℕ
  l1_word = u32 (flpt_va p + 4 * section_of)

  -- The word that maps the first page of the directory.
  abbrev pub l2_word : ℕ
  l2_word = table_entry (get_virt p (l1_pt_addr (s.mem l1_word))) table_base

  abbrev pub switched_mm : Hyp
  switched_mm = record s {
    cpu = record (s.cpu) { translation_table0 = table_base; context_id = context_id };
  }

  abbrev not_kernel : Bool
  not_kernel =
      ltb (section_of <<< 20) s.vm.guest_info.page_offset
      || ltb (hal_virt_start - 0x4000) (section_of <<< 20)

  switch_mm_lem :
      p.hyper_pt_start % 4 ≡ 0
      → p.hal_phys_start % 4 ≡ 0
      → hypercall_switch_mm p table_base context_id s ≡ (
          if not_kernel
          then halted table_base_not_kernel 1
          else if not (l2_word % 4 == 0)
          then fault
          else if not (bit_and (s.mem l2_word) 0x10 == 0)
          then halted table_base_writable 1
          else ok tt switched_mm)
  unfolding hypercall_switch_mm
  switch_mm_lem a b = elim (Bool-cases not_kernel) [ inl e ↦ rw e | inr e ↦ rw e (ground arith) ]

module _ (p : Platform) (table_base context_id : ℕ) (s : Hyp) (flpt : p.hyper_pt_start % 4 ≡ 0)
    (phys : p.hal_phys_start % 4 ≡ 0) where
  -- The check does not see the top four bits of the address: where a directory is taken, the
  -- address 256 MB above it, modulo the word size, is taken too.
  pub switch_mm-aliases :
      {t : Hyp}
      → table_base < 2 ^ 32
      → s.vm.guest_info.phys_offset < 2 ^ 32
      → hypercall_switch_mm p table_base context_id s ≡ ok tt t
      → (let far = u32 (table_base + 2 ^ 28) in
          hypercall_switch_mm p far context_id s ≡ ok tt (switched_mm p far context_id s))
  switch_mm-aliases w w' e =
      let far = u32 (table_base + 2 ^ 28) in
      let same : linux_va s.vm.guest_info.phys_offset far ≡ section_of p table_base context_id s =
        omega arith in
      let index : far <<< 12 >>> 24 ≡ table_base <<< 12 >>> 24 = omega arith in
      ground (
        arith,
        switch_mm_lem p table_base context_id s flpt phys,
        switch_mm_lem p far context_id s flpt phys,
        same,
        index,
      )
