-- ===== src/SpaceManager.antt =====
-- space_manager.cpp, on the data file. `none` is an exception, or the signed shift `1 << order` of an
-- order from 31 on, which is undefined. The number of entries of a free page list (FPL) page is read as an unsigned number; it is
-- never negative.
pub mod Chain
pub mod Writes
pub mod Allocate
pub mod Free
pub mod Extend
pub mod Setup
mod Tests
use diskmap_cpp.Common.{
  ℕ, zero, suc, ◌+◌, ◌-◌, ◌%◌, ◌^◌, Bool, ◌||◌, not, ◌&&◌, Option, none, some, ◌==◌, ltb, leb,
  if◌then◌else◌, ◌>>=◌, shift_int,
}
use diskmap_cpp.Checksum.{u64_mod}
use diskmap_cpp.LogRecord.{u32_mod}
use diskmap_cpp.Memory.{Mem}
use diskmap_cpp.Page.{
  read_field, write_field, clear, meta_page, next_free_page, last_fpl_page, last_fpl_page_entries,
  previous, next, entries, max_order, fpl_page_capacity,
}

-- Meta page + root page + one FPL page for each order.
abbrev pub reserved_pages : ℕ
reserved_pages = max_order + 3

-- `SpaceManager::init`, which nothing calls.
unfoldable pub init : Mem → Mem
init m =
    let m1 = write_field 8 meta_page next_free_page reserved_pages m in
    let m2 = write_field 8 meta_page (last_fpl_page 0) 1 m1 in
    let m3 = write_field 8 meta_page (last_fpl_page 1) 1 m2 in
    let m4 = write_field 4 meta_page (last_fpl_page_entries 0) 0 m3 in
    write_field 4 meta_page (last_fpl_page_entries 1) 0 m4

-- The loop that clears a region of pages.
unfoldable pub clear_region : ℕ → ℕ → Mem → Mem
clear_region page zero m = m
clear_region page (suc n) m = clear_region (suc page) n (clear page m)

-- No freed region: take new pages from the end of the file.
unfoldable pub allocate_new : ℕ → Mem → Option (ℕ × Mem)
allocate_new order m = shift_int 1 order >>= λ pages.
    let page = read_field 8 m meta_page next_free_page in
    some (page, write_field 8 meta_page next_free_page ((page + pages) % u64_mod) m)

-- One entry fewer: on an FPL page that becomes empty and has a previous page, move there.
unfoldable pub drop_entry : ℕ → ℕ → ℕ → Mem → Mem
drop_entry order fpl count m =
    let before = read_field 8 m fpl previous in
    let moves = (count - 1 == 0) && not (before == 0) in
    let m' = if moves then write_field 8 meta_page (last_fpl_page order) before m else m in
    write_field 4 meta_page (last_fpl_page_entries order)
      (if moves then fpl_page_capacity else count - 1) m'

unfoldable pub allocate_freed : ℕ → ℕ → Mem → Option (ℕ × Mem)
allocate_freed order count m = shift_int 1 order >>= λ pages.
    let fpl = read_field 8 m meta_page (last_fpl_page order) in
    let result = read_field 8 m fpl (entries (count - 1)) in
    some (result, drop_entry order fpl count (clear_region result pages m))

-- `SpaceManager::allocate`
unfoldable pub allocate : ℕ → Mem → Option (ℕ × Mem)
unfolding allocate_new allocate_freed
allocate order m =
    let count = read_field 4 m meta_page (last_fpl_page_entries order) in
    if count == 0 then allocate_new order m else allocate_freed order count m

-- Put the page first on the FPL page `fpl` and make that the last one of its order.
unfoldable pub start_fpl : ℕ → ℕ → ℕ → Mem → Mem
start_fpl order fpl page m =
    let m1 = write_field 8 fpl (entries 0) page m in
    let m2 = write_field 8 meta_page (last_fpl_page order) fpl m1 in
    write_field 4 meta_page (last_fpl_page_entries order) 1 m2

-- The freed page itself becomes the next FPL page of order 0.
unfoldable pub link_page : ℕ → ℕ → Mem → Mem
link_page fpl page m =
    let m1 = clear page m in
    let m2 = write_field 8 page previous fpl m1 in write_field 8 fpl next page m2

-- A new FPL page is allocated and linked.
unfoldable pub link_new : ℕ → ℕ → ℕ → Mem → Option Mem
link_new order fpl page m = allocate 0 m >>= λ (new_fpl, m1).
    let m2 = clear new_fpl m1 in
    let m3 = write_field 8 new_fpl previous (read_field 8 m2 meta_page (last_fpl_page order)) m2 in
    let m4 = write_field 8 fpl next new_fpl m3 in some (start_fpl order new_fpl page m4)

-- The FPL page is full.
unfoldable pub free_full : ℕ → ℕ → Mem → Option Mem
unfolding link_page link_new start_fpl
free_full page order m =
    let fpl = read_field 8 m meta_page (last_fpl_page order) in
    let following = read_field 8 m fpl next in
    if following == 0
    then (if order == 0 then some (link_page fpl page m) else link_new order fpl page m)
    else some (start_fpl order following page m)

unfoldable pub free_room : ℕ → ℕ → ℕ → Mem → Mem
free_room page order count m =
    let fpl = read_field 8 m meta_page (last_fpl_page order) in
    let m1 = write_field 8 fpl (entries count) page m in
    write_field 4 meta_page (last_fpl_page_entries order) ((count + 1) % u32_mod) m1

-- `page < MAX_ORDER + 3` on signed numbers.
is_reserved : ℕ → Bool
is_reserved page = ltb page reserved_pages || leb (2 ^ 63) page

-- `SpaceManager::free`; a reserved page is an exception.
unfoldable pub free : ℕ → ℕ → Mem → Option Mem
unfolding is_reserved free_full free_room
free page order m =
    let count = read_field 4 m meta_page (last_fpl_page_entries order) in
    if is_reserved page
    then none
    else if ltb count fpl_page_capacity
    then some (free_room page order count m)
    else free_full page order m
