-- ===== src/BigValue.antt =====
-- big_value.h, big_value.cpp, on the data file: the value of an entry that is alone in its leaf goes on
-- in a chain of regions of 2, 4, 8, ... pages. `none` is an exception, an `int` shift that overflows, which is
-- undefined, or a loop that has not ended within its fuel. The shifts keep `size_t` far below `2 ^ 64`.
pub mod Regions
pub mod Read
pub mod Skip
pub mod Whole
mod Tests
use diskmap_cpp.Common.{
  ℕ, zero, suc, ◌+◌, ◌-◌, ◌*◌, ◌^◌, min, Bool, true, false, Option, none, some, List, [], ◌∷◌, ◌++◌,
  ◌==◌, ltb, leb, if◌then◌else◌, ◌>>=◌, take, drop, shift_int,
}
use diskmap_cpp.Memory.{Mem, page_size, fetch, copy}
use diskmap_cpp.Page.{address, read_field, write_field}
use diskmap_cpp.SpaceManager.{allocate}
use diskmap_cpp.Leaf.{capacity}

pub data LeafPageType : Type 0 where
  start continuation pure : LeafPageType

pub record BigValue : Type 0 where
  pub start_page : ℕ
  pub value_offset_in_start_page : ℕ

unfoldable pub start_offset : BigValue → LeafPageType → ℕ
start_offset v start = 18 + v.value_offset_in_start_page
start_offset v continuation = 8
start_offset v pure = 0

unfoldable pub next_region_start : ℕ → Mem → ℕ
next_region_start region_start_page m = read_field 8 m region_start_page 0

-- The local variables of `rw_impl`.
pub record Cursor : Type 0 where
  pub depth : ℕ
  pub region_start_page : ℕ
  pub region_offset : ℕ
  pub page_offset : ℕ
  pub value_offset : ℕ
  pub current_page_type : LeafPageType

unfoldable pub start_cursor : BigValue → Cursor
start_cursor v = record {
  depth = 0;
  region_start_page = v.start_page;
  region_offset = 0;
  page_offset = 0;
  value_offset = 0;
  current_page_type = start;
}

unfoldable pub region_skip : BigValue → ℕ → Option ℕ
unfolding start_offset
region_skip v depth = shift_int page_size depth >>= λ size.
    some (size - start_offset v (if depth == 0 then start else continuation))

-- One round of the first loop.
unfoldable pub skip_step : BigValue → ℕ → Mem → Cursor → Option Cursor
unfolding region_skip next_region_start start_offset
skip_step v offset m c = region_skip v c.depth >>= λ whole.
    let distance = offset - c.value_offset in
    let page_skip = page_size - start_offset v c.current_page_type in
    if leb whole distance
    then some (record c {
      value_offset = c.value_offset + whole;
      depth = c.depth + 1;
      region_start_page = next_region_start c.region_start_page m;
      current_page_type = continuation;
    })
    else if leb page_skip distance
    then some (record c {
      value_offset = c.value_offset + page_skip;
      region_offset = c.region_offset + 1;
      current_page_type = pure;
    })
    else some (record c {
      page_offset = c.page_offset + distance;
      value_offset = c.value_offset + distance;
    })

unfoldable pub skip_to : ℕ → BigValue → ℕ → Mem → Cursor → Option Cursor
unfolding skip_step
skip_to zero v offset m c = none
skip_to (suc fuel) v offset m c =
    let rest = skip_step v offset m c >>= λ c'. skip_to fuel v offset m c' in
    if ltb c.value_offset offset then rest else some c

-- How many bytes of this page the round takes.
unfoldable pub length_in_page : BigValue → ℕ → Cursor → ℕ
unfolding start_offset
length_in_page v end_offset c =
    min (end_offset - c.value_offset)
      (page_size - start_offset v c.current_page_type - c.page_offset)

unfoldable pub cursor_address : BigValue → Cursor → ℕ
unfolding start_offset
cursor_address v c =
    address (c.region_start_page + c.region_offset)
      (start_offset v c.current_page_type + c.page_offset)

-- The end of a round of the second loop.
unfoldable pub next_page : BigValue → ℕ → Mem → Cursor → Option Cursor
unfolding length_in_page next_region_start start_offset
next_page v end_offset m c =
    let distance = end_offset - c.value_offset in
    let page_skip = page_size - start_offset v c.current_page_type - c.page_offset in
    let moved : Cursor = record c {
      value_offset = c.value_offset + length_in_page v end_offset c;
    } in
    let paged : Cursor = record moved {
      region_offset = c.region_offset + 1;
      current_page_type = pure;
      page_offset = 0;
    } in
    let following = next_region_start c.region_start_page m in
    if ltb page_skip distance
    then (shift_int 1 c.depth >>= λ pages.
        if c.region_offset + 1 == pages
        then (if following == 0
            then none
            else some (record paged {
              depth = c.depth + 1;
              region_start_page = following;
              current_page_type = continuation;
              region_offset = 0;
            }))
        else some paged)
    else some moved

unfoldable pub read_loop : ℕ → BigValue → ℕ → Mem → Cursor → Option (List ℕ)
unfolding length_in_page cursor_address next_page
read_loop zero v end_offset m c = none
read_loop (suc fuel) v end_offset m c =
    let rest = next_page v end_offset m c >>= λ c'. read_loop fuel v end_offset m c' in
    if ltb c.value_offset end_offset
    then (rest >>= λ bs. some (fetch m (cursor_address v c) (length_in_page v end_offset c) ++ bs))
    else some []

unfoldable pub write_loop : ℕ → BigValue → ℕ → List ℕ → Mem → Cursor → Option Mem
unfolding length_in_page cursor_address next_page
write_loop zero v end_offset buffer m c = none
write_loop (suc fuel) v end_offset buffer m c =
    let n = length_in_page v end_offset c in
    let m' = copy m (cursor_address v c) (take n buffer) in
    let rest =
      next_page v end_offset m' c >>= λ c'. write_loop fuel v end_offset (drop n buffer) m' c' in
    if ltb c.value_offset end_offset then rest else some m

-- `BigValue::read`: each round of a loop moves the position by at least one byte.
unfoldable pub read_value : BigValue → ℕ → ℕ → Mem → Option (List ℕ)
unfolding skip_to read_loop start_cursor
read_value v offset length m = skip_to (suc offset) v offset m (start_cursor v) >>= λ c.
    read_loop (suc length) v (offset + length) m c

-- `required_continuation_regions`: the loop, with the capacity so far.
unfoldable pub regions_loop : ℕ → ℕ → ℕ → ℕ → Option ℕ
regions_loop zero entry_size result available = none
regions_loop (suc fuel) entry_size result available =
    let rest = shift_int 1 (result + 1) >>= λ pages.
    regions_loop fuel entry_size (result + 1) (available + (pages * page_size - 8)) in
    if ltb available entry_size then rest else some result

unfoldable pub required_continuation_regions : ℕ → Option ℕ
unfolding regions_loop
required_continuation_regions entry_size = regions_loop (suc entry_size) entry_size 0 capacity

-- The next region of the chain behind `page`, which is allocated where there is none.
unfoldable pub continue_region : ℕ → ℕ → Mem → Option (ℕ × Mem)
unfolding next_region_start
continue_region page order m =
    let following = next_region_start page m in
    if following == 0
    then (allocate order m >>= λ (new_page, m1). some (new_page, write_field 8 page 0 new_page m1))
    else some (following, m)

-- `create_continuation_regions`, for this many regions behind `page`.
unfoldable pub create_regions : ℕ → ℕ → ℕ → Mem → Option Mem
unfolding continue_region
create_regions zero page order m = some m
create_regions (suc n) page order m =
    continue_region page order m >>= λ (following, m1). create_regions n following (order + 1) m1

unfoldable pub create_continuation_regions : BigValue → ℕ → Mem → Option Mem
unfolding required_continuation_regions create_regions
create_continuation_regions v entry_size m =
    required_continuation_regions entry_size >>= λ n. create_regions n v.start_page 1 m

-- `BigValue::write`
unfoldable pub write_value : BigValue → ℕ → List ℕ → ℕ → Mem → Option Mem
unfolding create_continuation_regions skip_to write_loop start_cursor
write_value v offset buffer length m =
    create_continuation_regions v (v.value_offset_in_start_page + (offset + length)) m >>= λ m1.
    skip_to (suc offset) v offset m1 (start_cursor v) >>= λ c.
    write_loop (suc length) v (offset + length) buffer m1 c
