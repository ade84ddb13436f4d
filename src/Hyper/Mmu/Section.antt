-- ===== src/Hyper/Mmu/Section.antt =====
-- What `hypercall_create_section` lets a guest map.
use sth.Base.{
  ℕ, ◌+◌, ◌*◌, ◌/◌, ◌%◌, ◌^◌, ◌≤◌, ◌<◌, ◌≡◌, ◌≢◌, arith, bit_and, bit_or, true, not, ◌∷◌, ◌&&◌, ltb,
  leb, ◌==◌, if◌then◌else◌, u32, not32, ap, update, bit_and_split, bit_or_split, bit_and_mask,
  bit_and-zero, bit_or-zero, zero-bit_or, bit_or-lt, le-bit_or_right, bit_and-le_left, inl, inr,
  Bool, false, ne→==, Bool-cases,
}
use sth.Hyper.{
  hal_virt_start, GuestInfo, Platform, Hyp, ok, halted, sensitive_virtual_address,
  foreign_physical_address, dcache_invalidate_mva,
}
use sth.Hyper.Mmu.{owns, kernel_attr, pmd_of, hypercall_create_section}

-- The addresses that the hypervisor and the trusted guest keep.
abbrev pub IsReserved : ℕ → Type 0
IsReserved va = (hal_virt_start ≤ va) × (va < hal_virt_start + 0x100_0000)

-- `pa` lies in the guest's memory, as far as the words of the check do not wrap.
abbrev pub InGuest : GuestInfo → ℕ → Type 0
InGuest g pa = (g.phys_offset ≤ pa) × (pa < u32 (g.phys_offset + g.guest_size))

-- The two checks as Booleans.
abbrev reserved : ℕ → Bool
reserved va = leb hal_virt_start va && ltb va (hal_virt_start + 0x100_0000)

reserved→IsReserved : (va : ℕ) → reserved va ≡ true → IsReserved va
reserved→IsReserved va e = ground arith

not-owns→InGuest : (g : GuestInfo) (pa : ℕ) → owns g pa ≡ false → ¬ InGuest g pa
not-owns→InGuest g pa e r = ground arith

-- The attributes without their domain.
abbrev plain : ℕ → ℕ
plain a = bit_and a (not32 0x1e0)

plain-high : (a : ℕ) → a < 2 ^ 32 → plain a / 2 ^ 20 ≡ a / 2 ^ 20
plain-high a w = omega (
  arith,
  bit_and_split 20 a (not32 0x1e0),
  bit_and_mask 12 (a / 2 ^ 20),
  bit_and-le_left (a % 2 ^ 20) 0xffe1f,
)

plain-domain : (a : ℕ) → plain a / 32 % 16 ≡ 0
plain-domain a = omega (
  arith,
  bit_and_split 5 a (not32 0x1e0),
  bit_and_mask 5 (a % 2 ^ 5),
  bit_and_split 4 (a / 2 ^ 5) 0x7ff_fff0,
  bit_and-zero (a / 2 ^ 5 % 2 ^ 4),
)

kernel_attr-high : (a : ℕ) → a < 2 ^ 32 → kernel_attr a / 2 ^ 20 ≡ a / 2 ^ 20
kernel_attr-high a w = omega (
  arith,
  plain-high a w,
  bit_or_split 20 (plain a) 0x20,
  bit_or-zero (plain a / 2 ^ 20),
  bit_or-lt 20 (plain a % 2 ^ 20) 0x20 (omega arith) (omega arith),
)

kernel_attr-domain : (a : ℕ) → kernel_attr a / 32 % 16 ≡ 1
kernel_attr-domain a = ground (
  arith,
  plain-domain a,
  bit_or_split 5 (plain a) 0x20,
  bit_or-zero (plain a % 2 ^ 5),
  bit_or_split 4 (plain a / 2 ^ 5) 1,
  bit_or-zero (plain a / 2 ^ 5 / 2 ^ 4),
  zero-bit_or 1,
)

-- The section descriptor that the call writes.
abbrev pub descriptor : (pa page_attr : ℕ) → ℕ
descriptor pa page_attr = bit_or pa (kernel_attr page_attr)

-- The base that the descriptor maps to is that of `pa`, with the high bits of the attributes.
pub descriptor-base :
    (pa page_attr : ℕ)
    → pa < 2 ^ 32
    → page_attr < 2 ^ 32
    → descriptor pa page_attr / 2 ^ 20 ≡ bit_or (pa / 2 ^ 20) (page_attr / 2 ^ 20)
descriptor-base pa a w w' = omega (
  arith,
  ap (bit_or (pa / 2 ^ 20)) (kernel_attr-high a w'),
  bit_or_split 20 pa (kernel_attr a),
  bit_or-lt 20 (pa % 2 ^ 20) (kernel_attr a % 2 ^ 20) (omega arith) (omega arith),
)

-- For an aligned `pa` the descriptor has the domain of the kernel.
pub descriptor-domain : (pa page_attr : ℕ) → pa % 2 ^ 20 ≡ 0 → descriptor pa page_attr / 32 % 16 ≡ 1
descriptor-domain pa a aligned = ground (
  arith,
  kernel_attr-domain a,
  bit_or_split 20 pa (kernel_attr a),
  zero-bit_or (kernel_attr a % 2 ^ 20),
)

module _ (p : Platform) where
  abbrev pub mapped : (va pa page_attr : ℕ) → Hyp → Hyp
  mapped va pa page_attr s = record s {
    mem = update s.mem (pmd_of p va) (descriptor pa page_attr);
    cpu = record (s.cpu) { ops = dcache_invalidate_mva (pmd_of p va) ∷ s.cpu.ops };
  }

  -- `hypercall_create_section` by its guards, in their order.
  pub hypercall_create_section_lem :
      (va pa page_attr : ℕ) (s : Hyp)
      → pmd_of p va % 4 ≡ 0
      → hypercall_create_section p va pa page_attr s ≡ (
          if reserved va
          then halted sensitive_virtual_address 1
          else if not (owns s.vm.guest_info pa)
          then halted foreign_physical_address 1
          else if va == 0xc000_0000
          then ok tt s
          else ok tt (mapped va pa page_attr s))
  unfolding hypercall_create_section
  hypercall_create_section_lem va pa a s aligned = elim (Bool-cases (reserved va)) [
    | inl e ↦ rw e
    | inr e ↦ rw e (ground arith)
  ]

  module _ (va pa page_attr : ℕ) (s : Hyp) (aligned : p.hyper_pt_start % 4 ≡ 0) where
    lem : hypercall_create_section p va pa page_attr s ≡ (
        if reserved va
        then halted sensitive_virtual_address 1
        else if not (owns s.vm.guest_info pa)
        then halted foreign_physical_address 1
        else if va == 0xc000_0000
        then ok tt s
        else ok tt (mapped va pa page_attr s))
    lem = hypercall_create_section_lem va pa page_attr s (omega arith)

    -- The attributes are not checked: if their high bits name an address past the guest's memory,
    -- a request that meets every check maps memory there.
    pub create_section-escapes :
        pa < 2 ^ 32
        → page_attr < 2 ^ 32
        → va ≢ 0xc000_0000
        → ¬ IsReserved va
        → InGuest s.vm.guest_info pa
        → u32 (s.vm.guest_info.phys_offset + s.vm.guest_info.guest_size)
          ≤ page_attr / 2 ^ 20 * 2 ^ 20
        → (hypercall_create_section p va pa page_attr s ≡ ok tt (mapped va pa page_attr s))
          × (¬ InGuest s.vm.guest_info (descriptor pa page_attr / 2 ^ 20 * 2 ^ 20))
    create_section-escapes w w' ne free own past = (
      elim (Bool-cases (reserved va)) [
        | inl r ↦ absurd (free (reserved→IsReserved va r))
        | inr r ↦ elim (Bool-cases (owns s.vm.guest_info pa)) [
          | inl o ↦ rw (lem, r, o, ne→== _ _ ne)
          | inr o ↦ absurd (not-owns→InGuest s.vm.guest_info pa o own)
        ]
      ],
      λ i. omega (
        arith,
        descriptor-base pa page_attr w w',
        le-bit_or_right (pa / 2 ^ 20) (page_attr / 2 ^ 20),
      ),
    )
