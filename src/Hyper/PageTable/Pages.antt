-- ===== src/Hyper/PageTable/Pages.antt =====
-- What `pt_create_coarse` writes into a second-level table.
use sth.Base.{
  ◌/◌, ◌∙◌, bit_or, bit_or_split, bit_or-zero, zero-bit_or, ℕ, zero, suc, ◌+◌, ◌*◌, ◌%◌, ◌^◌, ◌≤◌,
  ◌<◌, ◌≡◌, ◌⊎◌, inl, true, refl, arith, u32, ◌==◌, update,
}
use sth.Hyper.{Hyp, ok}
use sth.Hyper.PageTable.{small_page, fill_table}

-- A number goes into the free low bits of a word.
join_twelve : (high low : ℕ) → low < 2 ^ 12 → high % 2 ^ 12 ≡ 0 → bit_or high low ≡ high + low
join_twelve high low h free =
    let no_high : low / 2 ^ 12 ≡ 0 = omega arith in
    let all_low : low % 2 ^ 12 ≡ low = omega arith in
    bit_or_split 12 high low
    ∙ rw (no_high, all_low, free, bit_or-zero (high / 2 ^ 12), zero-bit_or low) (omega arith)

join_four : (high low : ℕ) → low < 2 ^ 4 → high % 2 ^ 4 ≡ 0 → bit_or high low ≡ high + low
join_four high low h free =
    let no_high : low / 2 ^ 4 ≡ 0 = omega arith in
    let all_low : low % 2 ^ 4 ≡ low = omega arith in
    bit_or_split 4 high low
    ∙ rw (no_high, all_low, free, bit_or-zero (high / 2 ^ 4), zero-bit_or low) (omega arith)

join_one : (high low : ℕ) → low < 2 → high % 2 ≡ 0 → bit_or high low ≡ high + low
join_one high low h free =
    let no_high : low / 2 ^ 1 ≡ 0 = omega arith in
    let all_low : low % 2 ^ 1 ≡ low = omega arith in
    let free' : high % 2 ^ 1 ≡ 0 = omega arith in
    bit_or_split 1 high low
    ∙ rw (no_high, all_low, free', bit_or-zero (high / 2 ^ 1), zero-bit_or low) (omega arith)

or_two : (w : ℕ) → w / 2 % 2 ≡ 0 → bit_or w 2 ≡ w + 2
or_two w free =
    bit_or_split 1 w 2 ∙ omega (arith, join_one (w / 2) 1 (omega arith) free, bit_or-zero (w % 2))

-- The fields of the descriptor of a small page: the address of the page from bit 12 on, the
-- permission from bit 4 on, the flags in bits 0, 2 and 3, and the type 2.
small_page-fields :
    (ap_bits flags pa : ℕ)
    → pa % 0x1000 ≡ 0
    → ap_bits < 0x100
    → flags < 16
    → flags / 2 % 2 ≡ 0
    → small_page ap_bits flags pa ≡ pa + ap_bits * 16 + flags + 2
small_page-fields ap_bits flags pa page a f whole =
    let shifted : u32 (ap_bits * 2 ^ 4) ≡ ap_bits * 16 = omega arith in
    let one = join_twelve pa (ap_bits * 16) (omega arith) page in
    let two = join_four (pa + ap_bits * 16) flags f (omega arith) in
    let three = or_two (pa + ap_bits * 16 + flags) (omega arith) in rw (shifted, one, two) three

module _ (ap_bits flags table2 : ℕ) (aligned : table2 % 4 ≡ 0) where
  written : (slpt_index pa : ℕ) → Hyp → Hyp
  written slpt_index pa s = record s {
    mem = update s.mem (table2 + 4 * slpt_index) (small_page ap_bits flags pa);
  }

  filled : (count slpt_index pa : ℕ) → Hyp → Hyp
  filled zero slpt_index pa s = s
  filled (suc count) slpt_index pa s =
      filled count (slpt_index + 1) (pa + 0x1000) (written slpt_index pa s)

  fill_table-filled :
      (count slpt_index pa : ℕ) (s : Hyp)
      → table2 + 4 * (slpt_index + count) ≤ 2 ^ 32
      → pa + count * 0x1000 < 2 ^ 32
      → fill_table ap_bits flags table2 count slpt_index pa s ≡ ok tt (filled count slpt_index pa s)
  unfolding fill_table filled written
  fill_table-filled zero slpt_index pa s room w = refl
  fill_table-filled (suc count) slpt_index pa s room w =
      let at : u32 (table2 + 4 * slpt_index) ≡ table2 + 4 * slpt_index = omega arith in
      let next : u32 (pa + 0x1000) ≡ pa + 0x1000 = omega arith in
      let even : ((table2 + 4 * slpt_index) % 4 == 0) ≡ true = ground arith in
      rw (at, next, even)
        (fill_table-filled count (slpt_index + 1) (pa + 0x1000) (written slpt_index pa s)
          (omega arith) (omega arith))

  filled-outside :
      (count slpt_index pa b : ℕ) (s : Hyp)
      → (b < table2 + 4 * slpt_index) ⊎ (table2 + 4 * (slpt_index + count) ≤ b)
      → (filled count slpt_index pa s).mem b ≡ s.mem b
  unfolding filled written
  filled-outside zero slpt_index pa b s out = refl
  filled-outside (suc count) slpt_index pa b s out =
      ground
        (arith, filled-outside count (slpt_index + 1) (pa + 0x1000) b (written slpt_index pa s))

  filled-vm : (count slpt_index pa : ℕ) (s : Hyp) → (filled count slpt_index pa s).vm ≡ s.vm
  unfolding filled written
  filled-vm zero slpt_index pa s = refl
  filled-vm (suc count) slpt_index pa s =
      filled-vm count (slpt_index + 1) (pa + 0x1000) (written slpt_index pa s)

  -- `a` is the address of the `n`-th entry, and `page` that of the `n`-th page.
  filled-inside :
      (count slpt_index pa n a page : ℕ) (s : Hyp)
      → n < count
      → a ≡ table2 + 4 * (slpt_index + n)
      → page ≡ pa + n * 0x1000
      → (filled count slpt_index pa s).mem a ≡ small_page ap_bits flags page
  unfolding filled written
  filled-inside zero slpt_index pa n a page s h at is = absurd (omega arith)
  filled-inside (suc count) slpt_index pa zero a page s h at is =
      let first : a ≡ table2 + 4 * slpt_index = omega (arith, at) in
      let same : page ≡ pa = omega (arith, is) in
      let kept =
        filled-outside count (slpt_index + 1) (pa + 0x1000) a (written slpt_index pa s)
          (inl (omega arith)) in
      rw (kept, first, same) (ground arith)
  filled-inside (suc count) slpt_index pa (suc n) a page s h at is =
      filled-inside count (slpt_index + 1) (pa + 0x1000) n a page (written slpt_index pa s)
        (omega arith) (omega (arith, at)) (omega (arith, is))

module _ (ap_bits flags table2 count slpt_index pa n b : ℕ) (s : Hyp) where
  -- In an aligned table, for whole pages, a permission of 8 bits and flags in bits 0, 2 and 3,
  -- `count` small pages from `pa` on are entered from `slpt_index` on: the loop ends, the entry of each page
  -- is its address, the permission from bit 4 on, the flags and the type 2, every word outside these
  -- entries is as it was, and so is the virtual machine. The entries and the pages lie below 2 ^ 32.
  pub fill_table-maps :
      table2 % 4 ≡ 0
      → pa % 0x1000 ≡ 0
      → ap_bits < 0x100
      → flags < 16
      → flags / 2 % 2 ≡ 0
      → table2 + 4 * (slpt_index + count) ≤ 2 ^ 32
      → pa + count * 0x1000 < 2 ^ 32
      → n < count
      → (b < table2 + 4 * slpt_index) ⊎ (table2 + 4 * (slpt_index + count) ≤ b)
      → (t : Hyp) × (fill_table ap_bits flags table2 count slpt_index pa s ≡ ok tt t)
        × (t.mem (table2 + 4 * (slpt_index + n)) ≡ pa + n * 0x1000 + ap_bits * 16 + flags + 2)
        × (t.mem b ≡ s.mem b)
        × (t.vm ≡ s.vm)
  fill_table-maps aligned page a f whole room w h out = (
    filled ap_bits flags table2 aligned count slpt_index pa s,
    fill_table-filled ap_bits flags table2 aligned count slpt_index pa s room w,
    filled-inside ap_bits flags table2 aligned count slpt_index pa n _ _ s h refl refl
        ∙ small_page-fields ap_bits flags (pa + n * 0x1000) (omega arith) a f whole,
    filled-outside ap_bits flags table2 aligned count slpt_index pa b s out,
    filled-vm ap_bits flags table2 aligned count slpt_index pa s,
  )
