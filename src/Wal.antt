-- ===== src/Wal.antt =====
-- The write-ahead log (wal.h, wal.cpp): its state, and the functions that write log records. The
-- buffer pool below it is a flat memory: a write goes to address `loc` of the data file, which the
-- code splits into page `loc / 4096` and the offset in it, and which is exact as long as a write
-- stays inside its page. `wal_mutex` makes each operation one step. What the code throws or leaves
-- undefined is `none`.
pub mod Apply
pub mod Undo
pub mod Abort
pub mod Load
pub mod Recover
pub mod Durable
pub mod WriteAhead
mod Tests
use diskmap_cpp.Common.{
  ℕ, zero, suc, ◌+◌, ◌-◌, ◌%◌, ◌<◌, Bool, true, false, ◌&&◌, Option, none, some, List, [], ◌∷◌,
  ◌++◌, ◌==◌, leb, if◌then◌else◌, length, take, drop, replicate, ◌>>=◌,
}
use diskmap_cpp.Memory.{Mem, fetch, copy}
use diskmap_cpp.LogRecord.{
  Payload, WalRecord, begin, commit, abort_begin, abort_end, set, clr, u32_mod, u16_mod,
  record_size, header_bytes, get_unpadded_length, seal,
}

-- `mem` is what the pool shows of the data file, `disk` what the file itself holds, `log` the bytes
-- of the log file.
pub record Wal : Type 0 where
  pub mem : Mem
  pub disk : Mem
  pub log : List ℕ
  pub log_pos : ℕ
  pub next_lsn : ℕ
  pub next_txn_id : ℕ
  pub records : List WalRecord
  pub unflushed_record_index : ℕ
  pub active_transactions : ℕ

-- `next_lsn++` on a `uint32_t`.
pub increment : ℕ → ℕ
increment n = (n + 1) % u32_mod

-- The new value, then zeros up to the length; other records do not modify the database.
pub apply_payload : Payload → List ℕ → Mem → Mem
apply_payload (clr c) contents m =
    copy m c.loc (take c.new_value_len contents ++ replicate (c.length - c.new_value_len) 0)
apply_payload (set s) contents m = copy m s.loc (
    take s.new_value_len (drop s.old_value_len contents)
    ++ replicate (s.length - s.new_value_len) 0)
apply_payload _ contents m = m

pub apply_record : WalRecord → Mem → Mem
unfolding apply_payload
apply_record r m = apply_payload r.header.payload r.contents m

-- `records.push_back(r); apply_record(r)`
pub push_record : WalRecord → Wal → Wal
push_record r w = record w { mem = apply_record r w.mem; records = w.records ++ (r ∷ []) }

-- A record with the next LSN and no payload of its own: BEGIN, COMMIT, ABORT_BEGIN, ABORT_END.
pub log_event : ℕ → Payload → Wal → Wal
unfolding push_record
log_event txn_id payload w =
    push_record (seal w.next_lsn txn_id payload []) (record w { next_lsn = increment w.next_lsn })

-- `WAL::begin`, once no checkpoint is pending. It returns the LSN of the BEGIN record.
pub begin_txn : Wal → ℕ × Wal
unfolding log_event
begin_txn w =
    let started = log_event w.next_txn_id begin w in
    (
      w.next_lsn,
      record started {
        next_txn_id = increment w.next_txn_id;
        active_transactions = w.active_transactions + 1;
      },
    )

-- The record that `WAL::set` makes of the bytes in front of it. `bytes` are the `data_length` bytes
-- at `data`.
pub set_record : ℕ → ℕ → ℕ → ℕ → List ℕ → Mem → WalRecord
set_record lsn txn_id loc write_length bytes m =
    let old_value = fetch m loc write_length in
    let from_length = get_unpadded_length write_length old_value in
    seal lsn txn_id
      (set (record {
        loc = loc;
        length = write_length % u16_mod;
        old_value_len = from_length % u16_mod;
        new_value_len = length bytes % u16_mod;
      }))
      (take from_length old_value ++ bytes)

-- `WAL::set`.
unfoldable pub set_bytes : ℕ → ℕ → ℕ → List ℕ → Wal → Wal
unfolding push_record
set_bytes txn_id loc write_length bytes w =
    push_record (set_record w.next_lsn txn_id loc write_length bytes w.mem)
      (record w { next_lsn = increment w.next_lsn })

compensate : ℕ → WalRecord → Payload → Option WalRecord
compensate lsn r (set s) = some (
    seal lsn r.header.txn_id
      (clr (record {
        undo_lsn = r.header.lsn;
        loc = s.loc;
        length = s.length;
        new_value_len = s.old_value_len;
      }))
      (take s.old_value_len r.contents))
compensate lsn r p = none

-- `WAL::create_compensation_record`; for any record but a SET it throws.
pub create_compensation_record : ℕ → WalRecord → Option WalRecord
unfolding compensate
create_compensation_record lsn r = compensate lsn r r.header.payload

-- The loop that writes CLRs, over the records to undo, the last one first.
pub undo_all : List WalRecord → Wal → Option Wal
undo_all [] w = some w
undo_all (r ∷ rs) w = create_compensation_record w.next_lsn r >>= λ c.
    undo_all rs (push_record c (record w { next_lsn = increment w.next_lsn }))

-- The records behind the first BEGIN with this id, all of them if there is none.
after_begin_of : ℕ → List WalRecord → List WalRecord → List WalRecord
after_begin_of txn_id all [] = all
after_begin_of txn_id all (r ∷ rs) =
    let rest = after_begin_of txn_id all rs in
    if r.header.txn_id == txn_id then (elim (r.header.payload) [ begin ↦ rs | _ ↦ rest ]) else rest

-- `records[to_undo_indices.back()]` of an empty vector is undefined.
pop_undone : ℕ → List WalRecord → Option (List WalRecord)
pop_undone undo_lsn [] = none
pop_undone undo_lsn (top ∷ rest) = some (if undo_lsn == top.header.lsn then rest else top ∷ rest)

collect_payload : WalRecord → Payload → List WalRecord → Option (List WalRecord)
unfolding pop_undone
collect_payload r (set s) undo = some (r ∷ undo)
collect_payload r (clr c) undo = pop_undone c.undo_lsn undo
collect_payload r p undo = some undo

-- The SETs of a transaction that still need a CLR, the last one first.
collect_undo : ℕ → List WalRecord → List WalRecord → Option (List WalRecord)
collect_undo txn_id [] undo = some undo
collect_undo txn_id (r ∷ rs) undo =
    (if r.header.txn_id == txn_id then collect_payload r r.header.payload undo else some undo)
    >>= λ undo'. collect_undo txn_id rs undo'

-- `WAL::abort`.
pub abort : ℕ → Wal → Option Wal
abort txn_id w =
    let w1 = log_event txn_id abort_begin w in
    collect_undo txn_id (after_begin_of txn_id w1.records w1.records) [] >>= λ undo.
    undo_all undo w1 >>= λ w2.
    some
      (record (log_event txn_id abort_end w2) { active_transactions = w2.active_transactions - 1 })

-- `sync_log`: three attempts at `fsync`, whose outcomes are given; `false` is the exception.
pub sync_log : List Bool → Bool
sync_log (a ∷ b ∷ c ∷ _) = if a then true else if b then true else c
sync_log _ = false

-- What a `std::vector<char>` of the given size holds after the bytes are copied to its front.
abbrev pub sized : ℕ → List ℕ → List ℕ
sized n bytes = take n bytes ++ replicate (n - length bytes) 0

pub appended_bytes : List WalRecord → ℕ
appended_bytes [] = 0
appended_bytes (r ∷ rs) = record_size r.header + appended_bytes rs

pub serialize : List WalRecord → List ℕ
serialize [] = []
serialize (r ∷ rs) = header_bytes r.header ++ (r.contents ++ serialize rs)

-- `pwrite`: a gap before the position is filled with zeros.
pub pwrite : List ℕ → ℕ → List ℕ → List ℕ
pwrite file pos bytes = sized pos file ++ (bytes ++ drop (pos + length bytes) file)

-- `WAL::flush`, up to `sync_log`.
pub flush : Wal → Wal
flush w =
    let unflushed = drop w.unflushed_record_index w.records in
    let size = appended_bytes unflushed in
    record w {
      log = pwrite w.log w.log_pos (sized size (serialize unflushed));
      log_pos = w.log_pos + size;
      unflushed_record_index = length w.records;
    }

-- `WAL::commit`. Where `fsync` fails the exception leaves the transaction counted as active.
pub commit_txn : ℕ → List Bool → Wal → Bool × Wal
commit_txn txn_id syncs w =
    let w1 = flush (log_event txn_id commit w) in
    if sync_log syncs
    then (true, record w1 { active_transactions = w1.active_transactions - 1 })
    else (false, w1)

oldest_le : ℕ → List WalRecord → Bool
oldest_le lsn [] = false
oldest_le lsn (r ∷ rs) = leb r.header.lsn lsn

-- `WAL::flush_up_to`; `false` is the exception of `sync_log`.
pub flush_up_to : ℕ → List Bool → Wal → Bool × Wal
unfolding oldest_le
flush_up_to lsn syncs w =
    if oldest_le lsn (drop w.unflushed_record_index w.records)
    then (sync_log syncs, flush w)
    else (true, w)

-- `WAL::checkpoint_internal`, once no transaction is active: `none` is the wait for the others.
pub checkpoint_internal : List Bool → Wal → Option (Bool × Wal)
checkpoint_internal syncs w =
    if w.active_transactions == 0
    then some (sync_log syncs, record w { disk = w.mem; log = []; log_pos = 0 })
    else none
