-- ===== src/Page/Tests.antt =====
-- One field of page 5, written in a transaction.
use diskmap_cpp.Common.{◌≡◌, arith, []}
use diskmap_cpp.Bytes.{le_bytes}
use diskmap_cpp.Wal.{Wal, set_bytes}
use diskmap_cpp.Page.{address, write_field}
use diskmap_cpp.Page.Logged.{set_bytes-write_field}

abbrev started : Wal
started = record {
  mem = λ a. 1;
  disk = λ a. 1;
  log = [];
  log_pos = 0;
  next_lsn = 7;
  next_txn_id = 2;
  records = [];
  unflushed_record_index = 0;
  active_transactions = 1;
}

set_bytes-write_field_example :
    (set_bytes 7 (address 5 16) 8 (le_bytes 8 300) started).mem ≡ write_field 8 5 16 300 started.mem
set_bytes-write_field_example = set_bytes-write_field 7 8 5 16 300 started (omega arith)
