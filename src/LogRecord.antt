-- ===== src/LogRecord.antt =====
-- The records of the write-ahead log (wal.h) and the functions on one record of wal.cpp. The union
-- in `WALHeader` and its type tag are one data type; a tag byte that is no `WALRecordType` is
-- `unknown`. `uint32_t` and `uint16_t` fields are cut to their width where the code assigns them.
use diskmap_cpp.Common.{ℕ, zero, suc, ◌+◌, ◌%◌, ◌^◌, List, [], ◌++◌, ◌==◌, if◌then◌else◌, get_or}
use diskmap_cpp.Bytes.{le_bytes}
use diskmap_cpp.Checksum.{checksum_seed, digest}

pub record SetRecord : Type 0 where
  pub loc : ℕ
  pub length : ℕ
  pub old_value_len : ℕ
  pub new_value_len : ℕ

pub record CompensationRecord : Type 0 where
  pub undo_lsn : ℕ
  pub loc : ℕ
  pub length : ℕ
  pub new_value_len : ℕ

pub data Payload : Type 0 where
  begin commit abort_begin abort_end checkpoint : Payload
  set : SetRecord → Payload
  clr : CompensationRecord → Payload
  unknown : ℕ → Payload

pub record WalHeader : Type 0 where
  pub checksum : ℕ
  pub lsn : ℕ
  pub txn_id : ℕ
  pub payload : Payload

pub record WalRecord : Type 0 where
  pub header : WalHeader
  pub contents : List ℕ

abbrev pub u32_mod : ℕ
u32_mod = 2 ^ 32

abbrev pub u16_mod : ℕ
u16_mod = 2 ^ 16

-- The value of `WALRecordType`.
unfoldable pub type_tag : Payload → ℕ
type_tag begin = 0
type_tag commit = 1
type_tag abort_begin = 2
type_tag abort_end = 3
type_tag checkpoint = 4
type_tag (set s) = 5
type_tag (clr c) = 6
type_tag (unknown t) = t

-- `sizeof(WALCommonHeader)`, packed.
abbrev pub common_header_size : ℕ
common_header_size = 13

unfoldable pub record_header_size : Payload → ℕ
record_header_size (clr c) = common_header_size + 16
record_header_size (set s) = common_header_size + 14
record_header_size _ = common_header_size

payload_size : Payload → ℕ
unfolding record_header_size
payload_size (clr c) = record_header_size (clr c) + c.new_value_len
payload_size (set s) = record_header_size (set s) + s.old_value_len + s.new_value_len
payload_size p = record_header_size p

unfoldable pub record_size : WalHeader → ℕ
unfolding payload_size
record_size r = payload_size r.payload

-- The union of the header as it lies in memory.
unfoldable pub payload_bytes : Payload → List ℕ
payload_bytes (set s) =
    le_bytes 8 s.loc
    ++ (le_bytes 2 s.length ++ (le_bytes 2 s.old_value_len ++ le_bytes 2 s.new_value_len))
payload_bytes (clr c) =
    le_bytes 4 c.undo_lsn
    ++ (le_bytes 8 c.loc ++ (le_bytes 2 c.length ++ le_bytes 2 c.new_value_len))
payload_bytes _ = []

-- The header behind its checksum field.
unfoldable pub unsummed_bytes : WalHeader → List ℕ
unfolding type_tag payload_bytes
unsummed_bytes h =
    le_bytes 4 h.lsn
    ++ (le_bytes 4 h.txn_id ++ (le_bytes 1 (type_tag h.payload) ++ payload_bytes h.payload))

-- What `flush` writes of a header.
unfoldable pub header_bytes : WalHeader → List ℕ
unfolding unsummed_bytes
header_bytes h = le_bytes 4 h.checksum ++ unsummed_bytes h

-- `digest` of no bytes leaves the state, so the test on `data.size()` needs no branch.
unfoldable pub checksum : WalRecord → ℕ
unfolding unsummed_bytes
checksum r = digest (digest checksum_seed (unsummed_bytes r.header)) r.contents % u32_mod

-- The length of `value` less the zero bytes at its end.
unfoldable pub get_unpadded_length : ℕ → List ℕ → ℕ
get_unpadded_length zero value = 0
get_unpadded_length (suc i) value =
    let rest = get_unpadded_length i value in if get_or value i 0 == 0 then rest else suc i

-- A record with its checksum filled in.
unfoldable pub seal : ℕ → ℕ → Payload → List ℕ → WalRecord
seal lsn txn_id payload contents =
    let h : WalHeader = record { checksum = 0; lsn = lsn; txn_id = txn_id; payload = payload } in
    record {
      header = record h { checksum = checksum (record { header = h; contents = contents }) };
      contents = contents;
    }
