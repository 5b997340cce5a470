-- ===== src/BufferPool.antt =====
-- buffer_pool.h, buffer_pool.cpp. The pool caches pages of the data file. A pool index and a file
-- index are natural numbers; `none` for a whole result is undefined behaviour, a thrown exception is a
-- result of its own. The file holds whole pages, since only the pool writes it.
pub mod View
pub mod Room
pub mod Evict
pub mod Retained
pub mod Retain
pub mod Users
pub mod Modify
pub mod Flush
pub mod WriteAhead
pub mod Cache
mod Tests
use diskmap_cpp.Common.{
  ℕ, zero, suc, ◌+◌, ◌-◌, ◌^◌, Bool, true, false, ◌&&◌, Option, none, some, List, [], ◌∷◌, ◌++◌,
  ◌==◌, ltb, max, if◌then◌else◌, replicate, ◌>>=◌,
}
use diskmap_cpp.Memory.{page_size}
use diskmap_cpp.Replacer.{put}
use diskmap_cpp.Replacer.Dual.{Dual, insert_dual, remove_dual, evict_dual, empty_dual}

-- The bytes of one page.
abbrev pub PageData : Type 0
PageData = List ℕ

unfoldable pub zero_page : PageData
zero_page = replicate page_size 0

pub record DataFile : Type 0 where
  pub size : ℕ
  pub page : ℕ → PageData

-- `pread` of a page, none of whose bytes are there at the end of the file.
unfoldable pub pread_page : ℕ → DataFile → Option PageData
pread_page file_index f = if ltb file_index f.size then some (f.page file_index) else none

-- `pwrite` of a page; beyond the end the file grows, and the gap is zeros.
unfoldable pub pwrite_page : ℕ → PageData → DataFile → DataFile
pwrite_page file_index bytes f = record {
  size = max f.size (file_index + 1);
  page = put file_index bytes (λ x. if ltb x f.size then f.page x else zero_page);
}

pub record PageMetadata : Type 0 where
  pub file_index : ℕ
  pub page_lsn : ℕ
  pub refcount : ℕ
  pub dirty : Bool
  pub advise_eviction : Bool

-- `PageMetadata::reset`
unfoldable pub unused_page : PageMetadata
unused_page = record {
  file_index = 2 ^ 64 - 1;
  page_lsn = 0;
  refcount = 0;
  dirty = false;
  advise_eviction = false;
}

-- What the pool calls below it: the log, and the file system.
pub data Call : Type 0 where
  flush_log : ℕ → Call
  write : ℕ → Call
  read : ℕ → Call
  sync : Call

-- `has_wal` says that `wal` is set; `calls` are the calls so far, the last one first.
pub record BufferPool : Type 0 where
  pub pool_size : ℕ
  pub has_wal : Bool
  pub next_pool_index : ℕ
  pub pages : ℕ → PageData
  pub metadata : ℕ → PageMetadata
  pub replacer : Dual
  pub file_to_pool_index : ℕ → Option ℕ
  pub file : DataFile
  pub calls : List Call

-- The constructor; the log is set later.
unfoldable pub create_pool : DataFile → ℕ → BufferPool
create_pool file pool_size = record {
  pool_size = pool_size;
  has_wal = false;
  next_pool_index = 0;
  pages = λ i. zero_page;
  metadata = λ i. unused_page;
  replacer = empty_dual;
  file_to_pool_index = λ x. none;
  file = file;
  calls = [];
}

unfoldable pub set_wal : BufferPool → BufferPool
set_wal s = record s { has_wal = true }

-- What `retain` finds under the mutex: the slot, the dirty page that was there with its LSN, and
-- whether the slot must be read from the file.
pub record Slot : Type 0 where
  pub pool_index : ℕ
  pub evicted : Option (ℕ × ℕ)
  pub needs_read : Bool

-- `replacer.evict()` and the branch that takes its result; -1 is the exception.
unfoldable pub evict_slot : Option ℕ → BufferPool → Option Slot × BufferPool
evict_slot none s = (none, s)
evict_slot (some i) s = (
  some (record {
    pool_index = i;
    evicted =
        (if (s.metadata i).dirty
          then some ((s.metadata i).file_index, (s.metadata i).page_lsn)
          else none);
    needs_read = true;
  }),
  record s {
    file_to_pool_index = put (s.metadata i).file_index none s.file_to_pool_index;
    metadata = put i unused_page s.metadata;
  },
)

unfoldable pub take_slot : BufferPool → Option (Option Slot × BufferPool)
take_slot s =
    if ltb s.next_pool_index s.pool_size
    then some (
      some (record { pool_index = s.next_pool_index; evicted = none; needs_read = true }),
      record s { next_pool_index = s.next_pool_index + 1 },
    )
    else (evict_dual s.replacer >>= λ (r : Option ℕ × Dual).
        some (evict_slot r.0 (record s { replacer = r.1 })))

-- The slot belongs to the page from now on.
unfoldable pub assign_slot : ℕ → Bool → ℕ → BufferPool → BufferPool
assign_slot file_index advise_eviction i s = record s {
  metadata =
      put i (record (s.metadata i) { file_index = file_index; advise_eviction = advise_eviction })
        s.metadata;
  file_to_pool_index = put file_index (some i) s.file_to_pool_index;
}

unfoldable pub pin : Bool → ℕ → BufferPool → BufferPool
pin advise_eviction i s = record s {
  metadata =
      put i
        (record (s.metadata i) {
          refcount = (s.metadata i).refcount + 1;
          advise_eviction = (s.metadata i).advise_eviction && advise_eviction;
        })
        s.metadata;
}

unfoldable pub retain_new : ℕ → Bool → Option Slot → BufferPool → Option Slot × BufferPool
unfolding assign_slot pin
retain_new file_index advise_eviction none s = (none, s)
retain_new file_index advise_eviction (some t) s = (
  some t,
  pin advise_eviction t.pool_index (assign_slot file_index advise_eviction t.pool_index s),
)

unfoldable pub find_slot : ℕ → Bool → Option ℕ → BufferPool → Option (Option Slot × BufferPool)
unfolding take_slot retain_new pin
find_slot file_index advise_eviction none s = take_slot s >>= λ (r : Option Slot × BufferPool).
    some (retain_new file_index advise_eviction r.0 r.1)
find_slot file_index advise_eviction (some i) s = remove_dual i s.replacer >>= λ (r : Bool × Dual).
    some (
      some (record { pool_index = i; evicted = none; needs_read = false }),
      pin advise_eviction i (record s { replacer = r.1 }),
    )

-- The part of `retain` that holds the mutex.
unfoldable pub retain_locked : ℕ → Bool → BufferPool → Option (Option Slot × BufferPool)
unfolding find_slot
retain_locked file_index advise_eviction s =
    find_slot file_index advise_eviction (s.file_to_pool_index file_index) s

unfoldable pub write_back : Option (ℕ × ℕ) → ℕ → BufferPool → BufferPool
unfolding pwrite_page
write_back none i s = s
write_back (some (file_index, page_lsn)) i s = record s {
  file = pwrite_page file_index (s.pages i) s.file;
  calls = write file_index ∷ (if s.has_wal then flush_log page_lsn ∷ s.calls else s.calls);
}

unfoldable pub or_zero : Option PageData → PageData
or_zero none = zero_page
or_zero (some bytes) = bytes

unfoldable pub read_page : ℕ → ℕ → BufferPool → BufferPool
unfolding or_zero pread_page
read_page file_index i s = record s {
  pages = put i (or_zero (pread_page file_index s.file)) s.pages;
  calls = read file_index ∷ s.calls;
}

-- The part of `retain` after the mutex: the deferred write and read.
unfoldable pub retain_io : ℕ → Slot → BufferPool → BufferPool
unfolding write_back read_page
retain_io file_index t s =
    let written = write_back t.evicted t.pool_index s in
    if t.needs_read then read_page file_index t.pool_index written else written

unfoldable pub finish_retain : ℕ → Option Slot → BufferPool → Option ℕ × BufferPool
unfolding retain_io
finish_retain file_index none s = (none, s)
finish_retain file_index (some t) s = (some t.pool_index, retain_io file_index t s)

-- `BufferPool::retain`, where no other call comes between its two parts. No index is
-- `BufferPoolFullException`.
unfoldable pub retain : ℕ → Bool → BufferPool → Option (Option ℕ × BufferPool)
unfolding retain_locked finish_retain
retain file_index advise_eviction s =
    retain_locked file_index advise_eviction s >>= λ (r : Option Slot × BufferPool).
    some (finish_retain file_index r.0 r.1)

-- `BufferPool::release`; `false` is `BufferPoolException`.
unfoldable pub release : ℕ → BufferPool → Option (Bool × BufferPool)
release i s =
    if (s.metadata i).refcount == 0
    then some (false, s)
    else let count = (s.metadata i).refcount - 1 in
      let s1 : BufferPool = record s {
        metadata = put i (record (s.metadata i) { refcount = count }) s.metadata;
      } in
      if count == 0
      then (insert_dual i (s.metadata i).advise_eviction s.replacer >>= λ d.
          some (true, record s1 { replacer = d }))
      else some (true, s1)

-- `PageHandle::modified_by`
unfoldable pub modified_by : ℕ → ℕ → BufferPool → BufferPool
modified_by i lsn s = record s {
  metadata =
      put i (record (s.metadata i) { dirty = true; page_lsn = max lsn (s.metadata i).page_lsn })
        s.metadata;
}

-- A write through `PageHandle::data`, and the call of `modified_by` that follows it.
unfoldable pub modify : ℕ → ℕ → PageData → BufferPool → BufferPool
unfolding modified_by
modify i lsn bytes s = modified_by i lsn (record s { pages = put i bytes s.pages })

unfoldable pub flush_page : ℕ → BufferPool → BufferPool
unfolding pwrite_page
flush_page i s =
    if (s.metadata i).dirty
    then (record s {
      file = pwrite_page (s.metadata i).file_index (s.pages i) s.file;
      calls = write (s.metadata i).file_index ∷ s.calls;
      metadata = put i (record (s.metadata i) { dirty = false }) s.metadata;
    })
    else s

-- The loop of `flush_all`, over the first `n` slots.
unfoldable pub flush_pages : ℕ → BufferPool → BufferPool
unfolding flush_page
flush_pages zero s = s
flush_pages (suc n) s = flush_page n (flush_pages n s)

-- `BufferPool::flush_all`
unfoldable pub flush_all : BufferPool → BufferPool
unfolding flush_pages
flush_all s =
    let flushed = flush_pages s.pool_size s in record flushed { calls = sync ∷ flushed.calls }

-- One use of a page: `get_page`, a read and a write of its bytes, and the end of the handle. It
-- returns the bytes that were there.
unfoldable pub use_slot :
    ℕ → (PageData → PageData) → Option ℕ → BufferPool → Option (PageData × BufferPool)
unfolding modify release
use_slot lsn change none s = none
use_slot lsn change (some i) s =
    release i (modify i lsn (change (s.pages i)) s) >>= λ (r : Bool × BufferPool).
    some (s.pages i, r.1)

unfoldable pub use_page :
    ℕ → Bool → ℕ → (PageData → PageData) → BufferPool → Option (PageData × BufferPool)
unfolding retain use_slot
use_page file_index advise_eviction lsn change s =
    retain file_index advise_eviction s >>= λ (r : Option ℕ × BufferPool).
    use_slot lsn change r.0 r.1
