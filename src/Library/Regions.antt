-- ===== src/Library/Regions.antt =====
-- Memory regions of whole megabytes (library/mem/src/mreg.c, level 1). The words of a region are
-- `next`, `prev`, `start`, `end`, `flags`, `buddy` and two of user data; those of the regions of a
-- system are `start`, `end`, `page_bits` and the heads of the lists `free_megs` and `free_buddies`.
-- The loops over a list take fuel. An access to a null pointer has no value.
use sth.Base.{
  ℕ, zero, suc, ◌+◌, bit_and, Bool, true, false, not, ◌&&◌, ◌||◌, ltb, leb, ◌==◌, if◌then◌else◌,
  sub32, u32, slt, ◌<<<◌,
}
use sth.Library.Words.{
  Cmd, Allocator, run_malloc, run_free, ◌>>=◌, ◌>>◌, pure, out_of_fuel, undefined, get, put,
}
use sth.Library.LinkedList.{list_init, list_add, list_remove}

abbrev start_of : (mem : ℕ) → Cmd ℕ
start_of mem = get (mem + 8)

abbrev end_of : (mem : ℕ) → Cmd ℕ
end_of mem = get (mem + 12)

abbrev set_end : (mem end : ℕ) → Cmd (Unit {0})
set_end mem end = put (mem + 12) end

-- `&reg->free_megs`
abbrev free_megs : ℕ → ℕ
free_megs reg = reg + 12

-- LIST_FOREACH_TYPED with the search for the best match, as far as `tmp` has come.
abbrev is_better_fit : (size my_size best best_size : ℕ) → Bool
is_better_fit size my_size best best_size = leb size my_size && (best == 0 || ltb my_size best_size)

unfoldable pub best_chunk : (fuel root size tmp best best_size : ℕ) → Cmd (ℕ × ℕ)
best_chunk zero root size tmp best best_size = out_of_fuel
best_chunk (suc fuel) root size tmp best best_size =
    if tmp == root then pure (best, best_size) else (do
      start ← start_of tmp
      end ← end_of tmp
      next ← get tmp
      let my_size = u32 (sub32 end start + 1) in
          let better = is_better_fit size my_size best best_size in
          best_chunk fuel root size next (if better then tmp else best)
            (if better then my_size else best_size))

-- The first region of the list with the value in the word at `offset`, or 0.
unfoldable pub find_value : (fuel root offset value tmp : ℕ) → Cmd ℕ
find_value zero root offset value tmp = out_of_fuel
find_value (suc fuel) root offset value tmp = if tmp == root then pure 0 else (do
  word ← get (tmp + offset)
  next ← get tmp
  if word == value then pure tmp else find_value fuel root offset value next)

-- The first region around the addresses from `adr` to `end`, or 0.
unfoldable pub find_target : (fuel root adr end tmp : ℕ) → Cmd ℕ
find_target zero root adr end tmp = out_of_fuel
find_target (suc fuel) root adr end tmp = if tmp == root then pure 0 else (do
  start ← start_of tmp
  last ← end_of tmp
  next ← get tmp
  if leb start adr && leb end last then pure tmp else find_target fuel root adr end next)

module _ (a : Allocator) (fuel : ℕ) where
  abbrev memregion_free : (mem : ℕ) → Cmd (Unit {0})
  memregion_free mem = run_free a mem

  abbrev fill_region : (ret start end : ℕ) → Cmd ℕ
  fill_region ret start end = do
    put (ret + 8) start
    put (ret + 12) end
    put (ret + 16) 0
    put (ret + 20) 0
    pure ret

  unfoldable pub memregion_alloc : (start end : ℕ) → Cmd ℕ
  memregion_alloc start end = do
    ret ← run_malloc a 32
    if ret == 0 then pure 0 else fill_region ret start end

  abbrev split_at : (reg from second end : ℕ) (keep_first : Bool) → Cmd ℕ
  split_at reg from second end keep_first = do
    set_end from end
    list_add fuel (free_megs reg) (if keep_first then second else from)
    pure (if keep_first then from else second)

  unfoldable pub mreg_level1_split : (reg from size : ℕ) (keep_first : Bool) → Cmd ℕ
  unfolding memregion_alloc
  mreg_level1_split reg from size keep_first = do
    start ← start_of from
    end ← end_of from
    second ← memregion_alloc (u32 (start + size)) end
    if second == 0
        then pure 0
        else split_at reg from second (sub32 (u32 (start + size)) 1) keep_first

  -- The best match is taken out; it is given back even if the rest cannot be split off.
  abbrev take_chunk : (reg size best best_size : ℕ) → Cmd ℕ
  take_chunk reg size best best_size = do
    list_remove best
    if ltb size best_size then mreg_level1_split reg best size true else pure 0
    pure best

  abbrev take_best : (reg size : ℕ) → ℕ × ℕ → Cmd ℕ
  take_best reg size (best, best_size) =
      if best == 0 then pure 0 else take_chunk reg size best best_size

  unfoldable pub mreg_level1_allocate : (reg count : ℕ) → Cmd ℕ
  unfolding mreg_level1_split best_chunk
  mreg_level1_allocate reg count = do
    tmp ← get (free_megs reg)
    chunk ← best_chunk fuel (free_megs reg) (count <<< 20) tmp 0 0
    take_best reg (count <<< 20) chunk

  -- The space behind the addresses that are asked for is split off.
  abbrev split_behind : (reg end target : ℕ) → Cmd ℕ
  split_behind reg end target = do
    start ← start_of target
    last ← end_of target
    if ltb end last
        then mreg_level1_split reg target (u32 (sub32 end start + 1)) true
        else pure target

  abbrev split_around : (reg adr end target : ℕ) → Cmd ℕ
  split_around reg adr end target = do
    list_remove target
    start ← start_of target
    rest ←
        (if ltb start adr
          then mreg_level1_split reg target (sub32 adr start) false
          else pure target)
    if rest == 0 then undefined else split_behind reg end rest

  abbrev take_target : (reg adr end target : ℕ) → Cmd ℕ
  take_target reg adr end target = if target == 0 then pure 0 else split_around reg adr end target

  unfoldable pub mreg_level1_allocate_at : (reg adr count : ℕ) → Cmd ℕ
  unfolding mreg_level1_split find_target
  mreg_level1_allocate_at reg adr count =
      let end = sub32 (u32 (adr + (count <<< 20))) 1 in
      if not (bit_and adr 0xf_ffff == 0) then pure 0 else (do
        tmp ← get (free_megs reg)
        target ← find_target fuel (free_megs reg) adr end tmp
        take_target reg adr end target)

  unfoldable pub mreg_find_starting : (reg start : ℕ) → Cmd ℕ
  unfolding find_value
  mreg_find_starting reg start = do
    tmp ← get (free_megs reg)
    find_value fuel (free_megs reg) 8 start tmp

  unfoldable pub mreg_find_ending : (reg end : ℕ) → Cmd ℕ
  unfolding find_value
  mreg_find_ending reg end = do
    tmp ← get (free_megs reg)
    find_value fuel (free_megs reg) 12 end tmp

  -- `first` grows over `second`, which follows it and is given back.
  abbrev absorb : (first second : ℕ) → Cmd (Unit {0})
  absorb first second = do end ← end_of second; set_end first end; memregion_free second

  -- The region before `mem`, if it is free, takes `mem` in.
  abbrev join_before : (mem tmp : ℕ) → Cmd ℕ
  join_before mem tmp = do list_remove mem; absorb tmp mem; pure tmp

  abbrev join_behind : (mem tmp : ℕ) → Cmd (Unit {0})
  join_behind mem tmp = do list_remove tmp; absorb mem tmp

  unfoldable pub mreg_level1_free : (reg mem : ℕ) → Cmd (Unit {0})
  unfolding mreg_find_starting mreg_find_ending
  mreg_level1_free reg mem = do
    list_add fuel (free_megs reg) mem
    start ← start_of mem
    before ← mreg_find_ending reg (sub32 start 1)
    whole ← (if before == 0 then pure mem else join_before mem before)
    end ← end_of whole
    behind ← mreg_find_starting reg (u32 (end + 1))
    if behind == 0 then pure tt else join_behind whole behind

  abbrev fill_mreg : (ret page_bits : ℕ) → Cmd ℕ
  fill_mreg ret page_bits = do
    put (ret + 8) page_bits
    put ret 0
    put (ret + 4) 0
    list_init (ret + 12)
    list_init (ret + 20)
    pure ret

  unfoldable pub mreg_create : (page_bits : ℕ) → Cmd ℕ
  mreg_create page_bits =
      if slt 20 page_bits
      then pure 0
      else (do ret ← run_malloc a 28; if ret == 0 then pure 0 else fill_mreg ret page_bits)
