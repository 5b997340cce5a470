-- ===== src/Lib.antt =====
-- diskmap: a hash map on disk with transactions, as far as it is modelled here.
--
-- The program keeps a tree of 512-way nodes over leaf pages in one data file. `DiskMap` (diskmap.cpp)
-- walks and edits the tree; `SpaceManager` (space_manager.cpp) gives it regions of pages; both write
-- only through the page handles of a transaction, whose writes are records of the write-ahead log
-- (wal.cpp) and go to the pages of the buffer pool. Every operation of the log runs under `wal_mutex`.
--
-- Common, Memory, Bytes: numbers, options, lists; the data file as a function from addresses to bytes
--   with `fetch` and `copy` for `memcpy`; little-endian fields.
-- Checksum: `Checksum::digest` (checksum.h) and `fnv_hash` (fnv_hash.h), with the wrap-around of 64-bit
--   sums and products and the sign extension of `char`.
-- LogRecord: the records of wal.h, and `record_size`, `checksum`, `get_unpadded_length` of wal.cpp. The
--   union and its tag are one data type.
-- Wal: the state of `WAL` and its functions `begin` (`begin_txn`), `set` (`set_bytes`), `commit`
--   (`commit_txn`), `abort`, `flush`, `flush_up_to`, `checkpoint_internal`. Wal.Load reads a log file
--   (`load_wal_record` and the loop of `recover`), Wal.Recover is the rest of `recover`.
-- Page: the fields of page_types.h as offsets and widths, and `ro_data`, `write` and `clear` of the page
--   handles. Page.Logged says that a write of `Wal` is that write of the data file, which lets the
--   modules above work on the data file alone.
-- SpaceManager: `allocate` and `free` with the linked free page list (FPL) pages, and in
--   SpaceManager.Setup what the `DiskMap` constructor writes to a new file.
-- Leaf: the entries of one leaf page: `find_entry_in_leaf`, `get_entries_in_leaf`, the entries that
--   `create_subtree` lays out, `validate_leaf_integrity`, and in Leaf.Edit how a leaf changes: the append of
--   `write_at_node`, `update_value_trivially` and the removal of `remove`.
-- Bucket: both functions `get_bucket`, and the tag in the top bit of a page number.
--
-- Replacer: `LRUReplacer`, a doubly linked list with null pointers, and in Replacer.Dual
--   `DualPriorityReplacer` over two of them (replacer.h, replacer.cpp). Replacer.Policy has the queues that
--   they stand for, Replacer.Held the set of values that the buffer pool sees.
-- BufferPool: `retain` in its locked part and its deferred input and output, `release`, `modified_by`,
--   `flush_all` (buffer_pool.h, buffer_pool.cpp), on a file of whole pages, with the list of the calls that
--   leave the pool. BufferPool.View has the invariant and what the clients see. The log of Wal works on
--   that view as one flat memory.
-- BigValue: the regions of a value of more than one page, and reading and writing a part of it
--   (big_value.h, big_value.cpp).
-- Tree: `find_parent`, `read`, `read_part`, `read_value_length`, `remove` with `free_leaf`, and
--   `verify_integrity` (diskmap.cpp), on the data file, over Bucket, Leaf, SpaceManager and BigValue.
--
-- Numbers are natural numbers; a field of w bits is cut with `% 2 ^ w` where the code assigns it,
-- and a 64-bit signed page number is its bit pattern. `shift_int` is `<<` on `int`, with no result
-- where it overflows: `allocate` has one for orders below 31, the loop of `BigValue` that skips
-- regions below depth 19. Exceptions and undefined behaviour are `none`, or `false` where there is
-- no other result. Loops are structural, or on fuel: `load_records` has one more than the bytes of
-- the file, and a record has at least 13; `find_loop` and `entries_loop` have one more than the
-- bytes of the data section, and an entry has at least 10.
--
-- Descents in the tree have as much fuel as the tree may have levels, `read_value` and `write_value` one more than
-- the bytes to skip or to move, since every round moves by at least one.
--
-- Not modelled: `create_subtree` beyond the bucket it chooses and the bytes of one leaf, and `write`, `append`
-- and `write_part` above the leaf operations, which are next; threads between the two parts of `retain` and
-- the moves of page handles; `sample`, which draws random numbers; the waits and the thread of the
-- checkpoints; what `fsync` makes durable, since a crash here keeps the log file as it was written; the
-- command line tools, which only read and print.
pub mod BigValue
pub mod Bucket
pub mod BufferPool
pub mod Bytes
pub mod Checksum
pub mod Common
pub mod Leaf
pub mod LogRecord
pub mod Memory
pub mod Page
pub mod Replacer
pub mod SpaceManager
pub mod Tree
pub mod Wal
