-- ===== src/Hyper/Registers/Clear.antt =====
-- Which entries `clear_linux_mappings` reaches.
use sth.Base.{
  ℕ, zero, suc, ◌+◌, ◌*◌, ◌%◌, ◌^◌, ◌≤◌, ◌<◌, ◌≡◌, true, false, refl, ◌∙◌, arith, u32, sub32, ltb,
  update, Bool-cases, inl, inr, ◌>>>◌, ◌∷◌,
}
use sth.Hyper.{hal_virt_start, Platform, Hyp, ok, flpt_va, dcache_invalidate_mva}
use sth.Hyper.Registers.{clear_pair, clear_loop, clear_linux_mappings}

module _ (p : Platform) (flpt : p.hyper_pt_start % 4 ≡ 0)
    (room : p.hyper_pt_start + 0x4000 ≤ 2 ^ 32) (i : ℕ) (high : 0x782 ≤ i) (inside : i < 4096) where
  -- The word of the entry `i`.
  abbrev entry : Hyp → ℕ
  entry s = s.mem (flpt_va p + 4 * i)

  cleared : (address : ℕ) → Hyp → Hyp
  cleared address s =
      let first = u32 (flpt_va p + 4 * (address >>> 21)) in
      let second = u32 (flpt_va p + 4 * ((address >>> 21) + 1)) in
      record s {
        mem = update (update s.mem first 0) second 0;
        cpu = record (s.cpu) { ops = dcache_invalidate_mva (flpt_va p) ∷ s.cpu.ops };
      }

  cleared-kept :
      (address : ℕ) (s : Hyp)
      → address < 0xf000_0000
      → (entry (cleared address s) ≡ entry s) × ((cleared address s).vm ≡ s.vm)
  unfolding cleared
  cleared-kept address s b = (ground arith, refl)

  clear_loop-more :
      (bound fuel address : ℕ) (s : Hyp)
      → address < 0xf000_0000
      → ltb address bound ≡ true
      → clear_loop p bound (suc fuel) address s
        ≡ clear_loop p bound fuel (address + 0x20_0000) (cleared address s)
  unfolding clear_loop cleared
  clear_loop-more bound fuel address s b more =
      let wrap : u32 (address + 0x20_0000) ≡ address + 0x20_0000 = omega arith in
      let pair : clear_pair p address s ≡ ok tt (cleared address s) = ground arith in
      rw (more, pair, wrap) refl

  clear_loop-done :
      (bound fuel address : ℕ) (s : Hyp)
      → ltb address bound ≡ false
      → clear_loop p bound (suc fuel) address s ≡ ok address s
  unfolding clear_loop
  clear_loop-done bound fuel address s done = rw done refl

  clear_loop-ok :
      (bound rounds address : ℕ) (s : Hyp)
      → bound ≤ 0xf000_0000
      → address < 0xf020_0000
      → bound ≤ address + rounds * 0x20_0000
      → (r : ℕ) × (t : Hyp) × (clear_loop p bound (suc rounds) address s ≡ ok r t)
        × (r < 0xf020_0000)
        × (entry t ≡ entry s)
        × (t.vm ≡ s.vm)
  clear_loop-ok bound zero address s b a enough =
      (address, s, clear_loop-done bound 0 address s (ground arith), a, refl, refl)
  clear_loop-ok bound (suc rounds) address s b a enough = elim (Bool-cases (ltb address bound)) [
    | inl more ↦
        let (same, vm) = cleared-kept address s (ground arith) in
        let (r, t, e, below, kept, vm') =
          clear_loop-ok bound rounds (address + 0x20_0000) (cleared address s) b (ground arith)
            (omega arith) in
        (
          r,
          t,
          clear_loop-more bound (suc rounds) address s (ground arith) more ∙ e,
          below,
          kept ∙ same,
          vm' ∙ vm,
        )
    | inr done ↦ (address, s, clear_loop-done bound (suc rounds) address s done, a, refl, refl)
  ]

module _ (p : Platform) (i rounds : ℕ) (s : Hyp) where
  -- For a guest whose addresses lie below the hypervisor's, from a page offset of 16 MB or more on,
  -- and a page table that does not pass the end of the address space, `clear_linux_mappings` returns
  -- with a round for each 2 MB, and every entry of the table from 0x782 on is as it was: no mapping
  -- at or above 0x78200000 is cleared, not even between the guest's memory and VMALLOC_END. The
  -- virtual machine is as it was too.
  pub clear_linux_mappings-keeps_upper :
      p.hyper_pt_start % 4 ≡ 0
      → p.hyper_pt_start + 0x4000 ≤ 2 ^ 32
      → 0x782 ≤ i
      → i < 4096
      → 1920 ≤ rounds
      → 0x100_0000 ≤ s.vm.guest_info.page_offset
      → s.vm.guest_info.page_offset ≤ hal_virt_start
      → s.vm.guest_info.vmalloc_end ≤ hal_virt_start
      → s.vm.guest_info.page_offset + s.vm.guest_info.guest_size ≤ hal_virt_start
      → (t : Hyp) × (clear_linux_mappings p (suc rounds) s ≡ ok tt t)
        × (t.mem (flpt_va p + 4 * i) ≡ s.mem (flpt_va p + 4 * i))
        × (t.vm ≡ s.vm)
  unfolding clear_linux_mappings
  clear_linux_mappings-keeps_upper flpt room high inside enough low offset end size =
      let g = s.vm.guest_info in
      let modules : sub32 g.page_offset 0x100_0000 ≤ 0xf000_0000 = omega arith in
      let from : u32 (g.page_offset + g.guest_size) < 0xf020_0000 = omega arith in
      let (r, t, e, below, kept, vm) =
        clear_loop-ok p flpt room i high inside _ rounds 0 s modules (omega arith) (omega arith) in
      let (r', t', e', below', kept', vm') =
        clear_loop-ok p flpt room i high inside _ rounds r t offset below (omega arith) in
      let (r'', t'', e'', below'', kept'', vm'') =
        clear_loop-ok p flpt room i high inside _ rounds _ t' end from (omega arith) in
      let allowed : ltb hal_virt_start g.vmalloc_end ≡ false = ground arith in
      (t'', rw (e, e', allowed, e'') refl, kept'' ∙ kept' ∙ kept, vm'' ∙ vm' ∙ vm)
