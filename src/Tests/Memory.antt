-- ===== src/Tests/Memory.antt =====
-- The theorems on page tables and caches, at concrete requests.
use sth.Base.{ℕ, ◌+◌, ◌*◌, ◌/◌, ◌^◌, ◌≤◌, ◌≡◌, ◌⊎◌, inr, refl, arith}
use sth.Hyper.{hal_virt_start, Hyp, ok, out_of_fuel}
use sth.Hyper.Mmu.{hypercall_create_section, hypercall_set_pte, hypercall_switch_mm}
use sth.Hyper.Mmu.Section.{InGuest, mapped, descriptor, create_section-escapes}
use sth.Hyper.Mmu.Entry.{entered_pte, set_pte-InGuest, set_pte-wraps}
use sth.Hyper.Mmu.Switch.{switched_mm, switch_mm-aliases}
use sth.Hyper.PageTable.{fill_table, pt_get_empty_l2}
use sth.Hyper.PageTable.Tables.{pt_get_empty_l2-fresh}
use sth.Hyper.PageTable.Pages.{fill_table-maps}
use sth.Hyper.Cache.{clean, flush, cache_line, mem_cache_dcache_area}
use sth.Hyper.Cache.Area.{Treats, dcache_area-Treats, dcache_area-diverges}
use sth.Tests.Machine.{board, linux_info, kernel}

abbrev kernel_page : ℕ
kernel_page = 0xc010_0000

abbrev entry_word : ℕ
entry_word = 0x8123_403e

create_section-escapes_example :
    (hypercall_create_section board 0xc010_0000 0x8100_0000 0xff00_0c0e kernel
      ≡ ok tt (mapped board 0xc010_0000 0x8100_0000 0xff00_0c0e kernel))
    × (¬ InGuest linux_info (descriptor 0x8100_0000 0xff00_0c0e / 2 ^ 20 * 2 ^ 20))
create_section-escapes_example =
    create_section-escapes board 0xc010_0000 0x8100_0000 0xff00_0c0e kernel refl (omega arith)
      (omega arith) (omega arith) (λ r. omega arith) (omega arith, omega arith) (omega arith)

set_pte-InGuest_example :
    (entered_pte 0xc100_0804 0x8123_4fff 0x8123_403e kernel
      ≡ entered_pte 0xc100_0804 0x8123_4fff 0x8123_403e kernel)
    × (linux_info.page_offset + 0x800 ≤ 0xc100_0804)
    × (0xc100_0804 + 4 ≤ hal_virt_start)
    × ((entry_word ≡ 0) ⊎ InGuest linux_info (0x8123_403e / 4096 * 4096))
set_pte-InGuest_example =
    set_pte-InGuest 0xc100_0804 0x8123_4fff 0x8123_403e kernel refl
      {t = entered_pte 0xc100_0804 0x8123_4fff 0x8123_403e kernel} (omega arith) (omega arith)
      (omega arith) (unfold hypercall_set_pte in refl)

set_pte-wraps_example :
    (t : Hyp) × (hypercall_set_pte 0x10 0 0x8123_403e kernel ≡ ok tt t)
    × (hal_virt_start ≤ 0xffff_f800 + 0x10)
    × (t.mem (0xffff_f800 + 0x10) ≡ 0x8123_403e)
set_pte-wraps_example =
    set_pte-wraps 0x10 0 0x8123_403e kernel refl (omega arith) (omega arith) (omega arith)
      (inr (omega arith, omega arith))

switch_mm-aliases_example :
    hypercall_switch_mm board 0x9100_4000 5 kernel ≡ ok tt (switched_mm board 0x9100_4000 5 kernel)
switch_mm-aliases_example =
    switch_mm-aliases board 0x8100_4000 5 kernel refl refl
      {t = switched_mm board 0x8100_4000 5 kernel} (omega arith) (omega arith)
      (unfold hypercall_switch_mm in refl)

dcache_area-Treats_example :
    (t : Hyp) × (mem_cache_dcache_area board 3 0xc000_0040 100 flush kernel ≡ ok tt t)
    × (t.mem ≡ kernel.mem)
    × (t.vm ≡ kernel.vm)
    × Treats flush (cache_line board kernel) (0xc000_0090 / cache_line board kernel) t.cpu.ops
dcache_area-Treats_example =
    dcache_area-Treats board flush 0xc000_0040 100 3 kernel 0xc000_0090 refl (omega arith)
      (omega arith) (omega arith) (omega arith)

dcache_area-diverges_example :
    mem_cache_dcache_area board 1000 0xffff_ff00 0xe0 clean kernel ≡ out_of_fuel
dcache_area-diverges_example =
    dcache_area-diverges board clean 0xffff_ff00 0xe0 kernel refl (omega arith) (omega arith) 1000

fill_table-maps_example :
    (t : Hyp) × (fill_table 3 0xc 0xf001_4400 256 0 0x8120_0000 kernel ≡ ok tt t)
    × (t.mem 0xf001_4414 ≡ 0x8120_503e)
    × (t.mem 0xf001_4800 ≡ 0)
    × (t.vm ≡ kernel.vm)
fill_table-maps_example =
    fill_table-maps 3 0xc 0xf001_4400 256 0 0x8120_0000 5 0xf001_4800 kernel refl refl (omega arith)
      (omega arith) refl (omega arith) (omega arith) (omega arith) (inr (omega arith))

pt_get_empty_l2-fresh_example :
    (t : Hyp) × (pt_get_empty_l2 board kernel ≡ ok 0x8001_4000 t)
    × (t.mem 0xf001_4010 ≡ 0)
    × (t.mem 0xf001_4400 ≡ kernel.mem 0xf001_4400)
    × (t.l2_index_p ≡ 1)
    × (t.vm ≡ kernel.vm)
pt_get_empty_l2-fresh_example =
    pt_get_empty_l2-fresh board 4 0xf001_4400 kernel refl (omega arith) (omega arith) (omega arith)
      (inr (omega arith))
