-- ===== src/Wal/Load/Header.antt =====
-- The header of a log record: what `load_wal_record` reads of the bytes that `flush` wrote.
use diskmap_cpp.Common.{ℕ, ◌+◌, ◌^◌, ◌<◌, ◌≡◌, refl, ap, ◌∙◌, List, ◌++◌, arith, length}
use diskmap_cpp.Bytes.{le_bytes, of_le-le_bytes}
use diskmap_cpp.LogRecord.{
  Payload, WalHeader, WalRecord, begin, commit, abort_begin, abort_end, checkpoint, set, clr,
  unknown, record_header_size, record_size, type_tag, header_bytes,
}
use diskmap_cpp.Wal.{sized}
use diskmap_cpp.Wal.Load.{max_header_size, field_at, read_payload, read_header}

-- The fields fit their widths, and the lengths in the header are those of the data.
abbrev pub FitsPayload : Payload → List ℕ → Type 0
FitsPayload (set s) contents =
    (s.loc < 256 ^ 8)
    × (s.length < 256 ^ 2)
    × (s.old_value_len < 256 ^ 2)
    × (s.new_value_len < 256 ^ 2)
    × (length contents ≡ s.old_value_len + s.new_value_len)
FitsPayload (clr c) contents =
    (c.undo_lsn < 256 ^ 4)
    × (c.loc < 256 ^ 8)
    × (c.length < 256 ^ 2)
    × (c.new_value_len < 256 ^ 2)
    × (length contents ≡ c.new_value_len)
FitsPayload (unknown t) contents = ⊥
FitsPayload _ contents = length contents ≡ 0

pub record Fits (r : WalRecord) : Type 0 where
  pub checksum : r.header.checksum < 256 ^ 4
  pub lsn : r.header.lsn < 256 ^ 4
  pub txn_id : r.header.txn_id < 256 ^ 4
  pub payload : FitsPayload r.header.payload r.contents

module _ (h : WalHeader) (rest : List ℕ) where
  abbrev pub front : List ℕ
  front = sized max_header_size (header_bytes h ++ rest)

  checksum_at : h.checksum < 256 ^ 4 → field_at front 0 4 ≡ h.checksum
  unfolding field_at header_bytes le_bytes
  checksum_at b = of_le-le_bytes 4 h.checksum b

  lsn_at : h.lsn < 256 ^ 4 → field_at front 4 4 ≡ h.lsn
  unfolding field_at header_bytes le_bytes
  lsn_at b = of_le-le_bytes 4 h.lsn b

  txn_id_at : h.txn_id < 256 ^ 4 → field_at front 8 4 ≡ h.txn_id
  unfolding field_at header_bytes le_bytes
  txn_id_at b = of_le-le_bytes 4 h.txn_id b

  tag_at : type_tag h.payload < 256 → field_at front 12 1 ≡ type_tag h.payload
  unfolding field_at header_bytes le_bytes
  tag_at b = of_le-le_bytes 1 (type_tag h.payload) b

with_payload : WalHeader → Payload → WalHeader
with_payload h p = record h { payload = p }

payload_at :
    (h : WalHeader) (rest : List ℕ) (p : Payload) (contents : List ℕ)
    → FitsPayload p contents
    → read_payload (type_tag p) (front (with_payload h p) rest) ≡ p
unfolding read_payload field_at header_bytes le_bytes with_payload
payload_at h rest (set s) contents b = λ i. set (record {
  loc = of_le-le_bytes 8 s.loc b.0 i;
  length = of_le-le_bytes 2 s.length b.1 i;
  old_value_len = of_le-le_bytes 2 s.old_value_len b.2 i;
  new_value_len = of_le-le_bytes 2 s.new_value_len b.3 i;
})
payload_at h rest (clr c) contents b = λ i. clr (record {
  undo_lsn = of_le-le_bytes 4 c.undo_lsn b.0 i;
  loc = of_le-le_bytes 8 c.loc b.1 i;
  length = of_le-le_bytes 2 c.length b.2 i;
  new_value_len = of_le-le_bytes 2 c.new_value_len b.3 i;
})
payload_at h rest (unknown t) contents b = absurd b
payload_at h rest begin contents b = refl
payload_at h rest commit contents b = refl
payload_at h rest abort_begin contents b = refl
payload_at h rest abort_end contents b = refl
payload_at h rest checkpoint contents b = refl

tag-lt : (p : Payload) (contents : List ℕ) → FitsPayload p contents → type_tag p < 256
unfolding type_tag
tag-lt (unknown t) contents b = absurd b
tag-lt begin contents b = omega arith
tag-lt _ contents b = omega arith

pub read_header-header_bytes :
    (r : WalRecord) (rest : List ℕ) → Fits r → read_header (front r.header rest) ≡ r.header
unfolding read_header with_payload
read_header-header_bytes r rest f = λ i. record {
  checksum = checksum_at h rest f.checksum i;
  lsn = lsn_at h rest f.lsn i;
  txn_id = txn_id_at h rest f.txn_id i;
  payload =
      (ap (λ t. read_payload t (front h rest))
            (tag_at h rest (tag-lt h.payload r.contents f.payload))
          ∙ payload_at h rest h.payload r.contents f.payload)
        i;
}
  where
    h : WalHeader
    h = r.header

payload_sizes :
    (h : WalHeader) (p : Payload) (contents : List ℕ)
    → FitsPayload p contents
    → (length (header_bytes (with_payload h p)) ≡ record_header_size p)
      × (record_size (with_payload h p) ≡ record_header_size p + length contents)
unfolding header_bytes le_bytes with_payload record_header_size record_size
payload_sizes h (unknown t) contents b = absurd b
payload_sizes h (set s) contents b = (refl, omega (arith, b.4))
payload_sizes h (clr c) contents b = (refl, omega (arith, b.4))
payload_sizes h begin contents b = (refl, omega arith)
payload_sizes h _ contents b = (refl, omega arith)

module _ (r : WalRecord) (f : Fits r) where
  pub length-header_bytes : length (header_bytes r.header) ≡ record_header_size r.header.payload
  unfolding with_payload
  length-header_bytes = (payload_sizes r.header r.header.payload r.contents f.payload).0

  pub record_size-length :
      record_size r.header ≡ record_header_size r.header.payload + length r.contents
  unfolding with_payload
  record_size-length = (payload_sizes r.header r.header.payload r.contents f.payload).1
