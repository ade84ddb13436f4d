-- ===== src/Hyper/Layout.antt =====
-- The memory layout of a board (core/hypervisor/init.c and mem.c): a table of entries up to the one
-- with MLF_LAST. The table and IO_VA_ADDRESS belong to the board and are parameters. The loop over
-- the table takes fuel: a round for each entry.
use sth.Base.{
  ℕ, zero, suc, ◌+◌, ◌-◌, bit_and, Bool, true, false, not, ◌&&◌, Option, none, some, leb, ◌==◌,
  if◌then◌else◌, sub32, ◌<<<◌, ◌>>>◌,
}
use sth.Hyper.{Platform, M, pure, ◌>>◌, out_of_fuel}
use sth.Hyper.PageTable.{
  MemType, mlt_none, mlt_hyper_ram, mlt_hyper_rom, mlt_user_ram, mlt_user_rom, mlt_trusted_ram,
  mlt_io_rw_reg, mlt_io_ro_reg, mlt_io_hyp_reg, pt_create_section, pt_create_coarse,
}

-- The last page of an entry stands in `page_count`.
pub record LayoutEntry : Type 0 where
  pub page_start : ℕ
  pub page_count : ℕ
  pub type_ : MemType
  pub flags : ℕ

abbrev pub is_last : LayoutEntry → Bool
is_last e = not (bit_and e.flags 1 == 0)

abbrev pub is_io : MemType → Bool
is_io mlt_none = false
is_io mlt_hyper_ram = false
is_io mlt_hyper_rom = false
is_io mlt_user_ram = false
is_io mlt_user_rom = false
is_io mlt_trusted_ram = false
is_io mlt_io_rw_reg = true
is_io mlt_io_ro_reg = true
is_io mlt_io_hyp_reg = true

abbrev pub is_none : MemType → Bool
is_none mlt_none = true
is_none mlt_hyper_ram = false
is_none mlt_hyper_rom = false
is_none mlt_user_ram = false
is_none mlt_user_rom = false
is_none mlt_trusted_ram = false
is_none mlt_io_rw_reg = false
is_none mlt_io_ro_reg = false
is_none mlt_io_hyp_reg = false

-- `page >= (tmp->page_start & 0xFFF00) && page <= tmp->page_count`
abbrev pub covers : LayoutEntry → (page : ℕ) → Bool
covers e page = leb (bit_and e.page_start 0xf_ff00) page && leb page e.page_count

-- The entry of an address, if there is one; no value if the fuel is used up.
unfoldable pub padr_lookup_from :
    (layout : ℕ → LayoutEntry) (fuel i page : ℕ) → Option (Option LayoutEntry)
padr_lookup_from layout zero i page = none
padr_lookup_from layout (suc fuel) i page =
    let rest = padr_lookup_from layout fuel (i + 1) page in
    if covers (layout i) page
    then some (some (layout i))
    else if is_last (layout i)
    then some none
    else rest

unfoldable pub mem_padr_lookup :
    (layout : ℕ → LayoutEntry) (fuel padr : ℕ) → Option (Option LayoutEntry)
unfolding padr_lookup_from
mem_padr_lookup layout fuel padr = padr_lookup_from layout fuel 0 (padr >>> 12)

module _ (p : Platform) (io_va_address : ℕ → ℕ) where
  -- `for(; j < ((list->page_count) >> 8); j++ )`
  unfoldable pub map_sections : (rounds j : ℕ) → MemType → M (Unit {0})
  map_sections zero j type_ = pure tt
  map_sections (suc rounds) j type_ =
      pt_create_section p.hyper_pt_start (j <<< 20) (j <<< 20) type_
      >> map_sections rounds (j + 1) type_

  abbrev map_io : LayoutEntry → M (Unit {0})
  map_io e =
      let start = e.page_start <<< 12 in
      pt_create_coarse p p.hyper_pt_start (io_va_address start) start
        (sub32 e.page_count e.page_start <<< 12) e.type_
      >> pure tt

  abbrev map_entry : LayoutEntry → M (Unit {0})
  unfolding map_sections
  map_entry e =
      let first = e.page_start >>> 8 in
      if is_io e.type_
      then map_io e
      else if is_none e.type_
      then pure tt
      else map_sections ((e.page_count >>> 8) - first) first e.type_

  unfoldable pub map_layout : (layout : ℕ → LayoutEntry) (fuel i : ℕ) → M (Unit {0})
  unfolding map_sections
  map_layout layout zero i = λ s. out_of_fuel
  map_layout layout (suc fuel) i =
      let rest = map_layout layout fuel (i + 1) in
      map_entry (layout i) >> (if is_last (layout i) then pure tt else rest)
