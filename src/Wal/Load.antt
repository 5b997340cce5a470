-- ===== src/Wal/Load.antt =====
-- `WAL::load_wal_record` and the loop of `WAL::recover` that reads the log file. A `pread` past the
-- end of the file leaves zeros in a zeroed buffer.
pub mod Header
pub mod RoundTrip
pub mod Sealed
pub mod Fuel
use diskmap_cpp.Common.{
  ℕ, zero, suc, ◌+◌, ◌-◌, List, [], ◌∷◌, ◌==◌, ltb, if◌then◌else◌, length, take, drop,
}
use diskmap_cpp.Bytes.{of_le}
use diskmap_cpp.LogRecord.{
  Payload, WalHeader, WalRecord, begin, commit, abort_begin, abort_end, checkpoint, set, clr,
  unknown, record_header_size, record_size, checksum,
}
use diskmap_cpp.Wal.{sized}

-- `sizeof(WALHeader)`
abbrev pub max_header_size : ℕ
max_header_size = 29

pread : List ℕ → ℕ → ℕ → List ℕ
pread file pos n = sized n (drop pos file)

-- The unsigned field of `n` bytes at an offset of a packed struct.
field_at : List ℕ → ℕ → ℕ → ℕ
field_at bytes offset n = of_le (take n (drop offset bytes))

read_set : List ℕ → Payload
unfolding field_at
read_set h = set (record {
  loc = field_at h 13 8;
  length = field_at h 21 2;
  old_value_len = field_at h 23 2;
  new_value_len = field_at h 25 2;
})

read_clr : List ℕ → Payload
unfolding field_at
read_clr h = clr (record {
  undo_lsn = field_at h 13 4;
  loc = field_at h 17 8;
  length = field_at h 25 2;
  new_value_len = field_at h 27 2;
})

read_payload : ℕ → List ℕ → Payload
unfolding read_set read_clr
read_payload tag h =
    if tag == 0
    then begin
    else if tag == 1
    then commit
    else if tag == 2
    then abort_begin
    else if tag == 3
    then abort_end
    else if tag == 4
    then checkpoint
    else if tag == 5
    then read_set h
    else if tag == 6
    then read_clr h
    else unknown tag

pub read_header : List ℕ → WalHeader
unfolding read_payload
read_header h = record {
  checksum = field_at h 0 4;
  lsn = field_at h 4 4;
  txn_id = field_at h 8 4;
  payload = read_payload (field_at h 12 1) h;
}

-- The second `pread` of `load_wal_record`, for the variable-length data behind the header.
load_contents : List ℕ → ℕ → WalHeader → WalRecord
unfolding pread
load_contents file offset header =
    let header_size = record_header_size header.payload in
    let data_size = record_size header - header_size in
    record { header = header; contents = pread file (offset + header_size) data_size }

pub load_wal_record : List ℕ → ℕ → WalRecord
unfolding pread
load_wal_record file offset =
    load_contents file offset (read_header (pread file offset max_header_size))

-- The records up to the end of the file or to the first one whose checksum does not match, and the
-- position behind them. Every record has at least 13 bytes, so one more than the length of the file
-- is fuel enough.
unfoldable pub load_records : ℕ → List ℕ → ℕ → List WalRecord × ℕ
load_records zero file log_pos = ([], log_pos)
load_records (suc fuel) file log_pos =
    let r = load_wal_record file log_pos in
    let more = load_records fuel file (log_pos + record_size r.header) in
    if ltb log_pos (length file)
    then (if r.header.checksum == checksum r then (r ∷ more.0, more.1) else ([], log_pos))
    else ([], log_pos)
