-- ===== src/Page.antt =====
-- Fields of pages (page_types.h) in the data file, read through `ro_data()` and written through
-- `PageHandle::write` of wal.h. Pages are packed structs; a field is its offset and its width. A
-- write of a transaction is one `WAL::set`, whose effect on the data file is `copy`.
pub mod Laws
pub mod Logged
mod Tests
use diskmap_cpp.Common.{ℕ, zero, suc, ◌+◌, ◌*◌, List, [], replicate}
use diskmap_cpp.Memory.{Mem, page_size, fetch, copy}
use diskmap_cpp.Bytes.{le_bytes, of_le}

abbrev pub address : ℕ → ℕ → ℕ
address page offset = page * page_size + offset

-- `ro_data()->field`, a field of `n` bytes.
unfoldable pub read_field : ℕ → Mem → ℕ → ℕ → ℕ
read_field n m page offset = of_le (fetch m (address page offset) n)

-- `PageHandle::write` of a field of `n` bytes.
unfoldable pub write_field : ℕ → ℕ → ℕ → ℕ → Mem → Mem
write_field n page offset value m = copy m (address page offset) (le_bytes n value)

-- `PageHandle::clear`: no bytes, and zeros for the whole page.
unfoldable pub clear : ℕ → Mem → Mem
clear page m = copy m (address page 0) (replicate page_size 0)

-- MetaPage: `kv_entry_count`, `next_free_page`, `last_fpl_page[order]`,
-- `last_fpl_page_entries[order]`.
abbrev pub meta_page : ℕ
meta_page = 0

abbrev pub kv_entry_count : ℕ
kv_entry_count = 8

abbrev pub next_free_page : ℕ
next_free_page = 16

abbrev pub last_fpl_page : ℕ → ℕ
last_fpl_page order = 24 + 8 * order

abbrev pub last_fpl_page_entries : ℕ → ℕ
last_fpl_page_entries order = 336 + 4 * order

-- FPLPage: `previous`, `next`, `entries[i]`.
abbrev pub previous : ℕ
previous = 0

abbrev pub next : ℕ
next = 8

abbrev pub entries : ℕ → ℕ
entries i = 16 + 8 * i

abbrev pub max_order : ℕ
max_order = 38

-- `PAGE_SIZE / 8 - 2`
abbrev pub fpl_page_capacity : ℕ
fpl_page_capacity = 510
