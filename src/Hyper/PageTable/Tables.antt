-- ===== src/Hyper/PageTable/Tables.antt =====
-- The supply of second-level tables.
use sth.Base.{
  ℕ, zero, suc, ◌+◌, ◌*◌, ◌%◌, ◌^◌, ◌≤◌, ◌<◌, ◌≡◌, ◌⊎◌, inl, true, false, refl, arith, u32, ltb,
  ◌==◌, update,
}
use sth.Hyper.{Platform, Hyp, ok, slpt_va, get_phys}
use sth.Hyper.PageTable.{clear_words, pt_get_empty_l2}

wiped : (a n : ℕ) → Hyp → Hyp
wiped a zero s = s
wiped a (suc n) s = wiped (a + 4) n (record s { mem = update s.mem a 0 })

clear_words-wiped :
    (a n : ℕ) (s : Hyp) → a % 4 ≡ 0 → a + 4 * n < 2 ^ 32 → clear_words a n s ≡ ok tt (wiped a n s)
unfolding clear_words wiped
clear_words-wiped a zero s even room = refl
clear_words-wiped a (suc n) s even room =
    let next : u32 (a + 4) ≡ a + 4 = omega arith in
    let test : (a % 4 == 0) ≡ true = ground arith in
    rw (next, test)
      (clear_words-wiped (a + 4) n (record s { mem = update s.mem a 0 }) (omega arith)
        (omega arith))

wiped-outside : (a n b : ℕ) (s : Hyp) → (b < a) ⊎ (a + 4 * n ≤ b) → (wiped a n s).mem b ≡ s.mem b
unfolding wiped
wiped-outside a zero b s out = refl
wiped-outside a (suc n) b s out =
    ground (arith, wiped-outside (a + 4) n b (record s { mem = update s.mem a 0 }))

wiped-inside : (a n i b : ℕ) (s : Hyp) → i < n → b ≡ a + 4 * i → (wiped a n s).mem b ≡ 0
unfolding wiped
wiped-inside a zero i b s h at = absurd (omega arith)
wiped-inside a (suc n) zero b s h at =
    let first : b ≡ a = omega (arith, at) in
    let kept =
      wiped-outside (a + 4) n b (record s { mem = update s.mem a 0 }) (inl (omega arith)) in
    rw (kept, first) (ground arith)
wiped-inside a (suc n) (suc i) b s h at =
    wiped-inside (a + 4) n i b (record s { mem = update s.mem a 0 }) (omega arith)
      (omega (arith, at))

wiped-rest :
    (a n : ℕ) (s : Hyp) → ((wiped a n s).vm ≡ s.vm) × ((wiped a n s).l2_index_p ≡ s.l2_index_p)
unfolding wiped
wiped-rest a zero s = (refl, refl)
wiped-rest a (suc n) s = wiped-rest (a + 4) n (record s { mem = update s.mem a 0 })

module _ (p : Platform) (i b : ℕ) (s : Hyp) where
  -- The virtual address of the next table.
  abbrev pub next_table : ℕ
  next_table = p.hyper_pt_start + 0x4000 + s.l2_index_p * 0x400

  -- Up to the index 32, a table is handed out: its physical address is returned, its 256 words are
  -- zero, every word outside it and the virtual machine are as they were, and the next table begins
  -- where it ends.
  pub pt_get_empty_l2-fresh :
      p.hyper_pt_start % 4 ≡ 0
      → p.hyper_pt_start + 0x10000 ≤ 2 ^ 32
      → s.l2_index_p ≤ 32
      → i < 256
      → (b < next_table) ⊎ (next_table + 0x400 ≤ b)
      → (t : Hyp) × (pt_get_empty_l2 p s
          ≡ ok (u32 (get_phys p (slpt_va p) + s.l2_index_p * 0x400)) t)
        × (t.mem (next_table + 4 * i) ≡ 0)
        × (t.mem b ≡ s.mem b)
        × (t.l2_index_p ≡ s.l2_index_p + 1)
        × (t.vm ≡ s.vm)
  unfolding pt_get_empty_l2
  pt_get_empty_l2-fresh even room few inside out =
      let w = wiped next_table 256 s in
      let below : ltb 0x8000 (u32 (s.l2_index_p * 0x400)) ≡ false = ground arith in
      let offset : u32 (s.l2_index_p * 0x400) ≡ s.l2_index_p * 0x400 = omega arith in
      let base : u32 (slpt_va p + s.l2_index_p * 0x400) ≡ next_table = omega arith in
      let one : u32 (s.l2_index_p + 1) ≡ s.l2_index_p + 1 = omega arith in
      let run = clear_words-wiped next_table 256 s (omega arith) (omega arith) in
      (
        record w { l2_index_p = s.l2_index_p + 1 },
        rw (below, offset, base, run, one) refl,
        wiped-inside next_table 256 i (next_table + 4 * i) s inside refl,
        wiped-outside next_table 256 b s out,
        refl,
        (wiped-rest next_table 256 s).0,
      )
