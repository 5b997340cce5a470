-- ===== src/Wal/Load/RoundTrip.antt =====
-- Reading back what `flush` wrote: each record, and the whole log.
use diskmap_cpp.Common.{
  ℕ, zero, suc, ◌+◌, ◌-◌, ◌≤◌, ◌<◌, ◌≡◌, ap, ◌∙◌, true, false, List, [], ◌∷◌, ◌++◌, arith, ◌==◌,
  ltb, length, All, length-append, append_assoc, append-nil, take-length_append, drop-length_append,
  drop_add,
}
use diskmap_cpp.LogRecord.{
  Payload, WalRecord, set, clr, record_header_size, record_size, header_bytes, checksum,
}
use diskmap_cpp.Wal.{sized, serialize}
use diskmap_cpp.Wal.Load.{pread, load_contents, load_wal_record, load_records}
use diskmap_cpp.Wal.Load.Header.{
  Fits, read_header-header_bytes, length-header_bytes, record_size-length,
}

sized-append : (xs ys : List ℕ) → sized (length xs) (xs ++ ys) ≡ xs
sized-append xs ys =
    let e : length xs - length (xs ++ ys) ≡ 0 = omega (arith, length-append xs ys) in
    rw (e, append-nil, take-length_append)

contents-pread :
    (before : List ℕ) (r : WalRecord) (rest : List ℕ)
    → Fits r
    → pread
        (before ++ (header_bytes r.header ++ (r.contents ++ rest)))
        (length before + record_header_size r.header.payload)
        (record_size r.header - record_header_size r.header.payload)
      ≡ r.contents
unfolding pread
contents-pread before r rest f =
    let size : record_size r.header - record_header_size r.header.payload ≡ length r.contents =
      omega (arith, record_size-length r f) in
    rw
      (
        size,
        drop_add,
        drop-length_append before,
        ← length-header_bytes r f,
        drop-length_append (header_bytes r.header),
      )
      (sized-append r.contents rest)

-- A record in the middle of the file is read back whole.
load_wal_record-header_bytes :
    (before : List ℕ) (r : WalRecord) (rest : List ℕ)
    → Fits r
    → load_wal_record (before ++ (header_bytes r.header ++ (r.contents ++ rest))) (length before)
      ≡ r
unfolding load_wal_record load_contents
load_wal_record-header_bytes before r rest f =
    ap (load_contents file (length before))
      (rw (drop-length_append before tail) (read_header-header_bytes r (r.contents ++ rest) f))
    ∙ ap (λ (bs : List ℕ). record { header = r.header; contents = bs })
        (contents-pread before r rest f)
  where
    tail : List ℕ
    tail = header_bytes r.header ++ (r.contents ++ rest)

    file : List ℕ
    file = before ++ tail

record_header_size-pos : (p : Payload) → 0 < record_header_size p
unfolding record_header_size
record_header_size-pos (set s) = omega arith
record_header_size-pos (clr c) = omega arith
record_header_size-pos _ = omega arith

module _ (before : List ℕ) (r : WalRecord) (rest : List ℕ) (f : Fits r) where
  abbrev record_end : List ℕ
  record_end = before ++ (header_bytes r.header ++ r.contents)

  record_end-append : record_end ++ rest ≡ before ++ (header_bytes r.header ++ (r.contents ++ rest))
  record_end-append = rw (append_assoc, append_assoc)

  length-record_end : length record_end ≡ length before + record_size r.header
  length-record_end = omega (
    arith,
    length-append before (header_bytes r.header ++ r.contents),
    length-append (header_bytes r.header) r.contents,
    length-header_bytes r f,
    record_size-length r f,
  )

  before-lt-file :
      ltb (length before) (length (before ++ (header_bytes r.header ++ (r.contents ++ rest))))
      ≡ true
  before-lt-file =
      let e = ap (length {A = ℕ}) record_end-append in
      let sum = length-append record_end rest in
      let size = length-record_end in
      let parts = record_size-length r f in
      let pos = record_header_size-pos r.header.payload in ground arith

  one_record :
      (fuel : ℕ)
      → r.header.checksum ≡ checksum r
      → (loaded : List WalRecord × ℕ)
      → load_records fuel (record_end ++ rest) (length record_end) ≡ loaded
      → load_records
          (suc fuel)
          (before ++ (header_bytes r.header ++ (r.contents ++ rest)))
          (length before)
        ≡ (r ∷ loaded.0, loaded.1)
  unfolding load_records
  one_record fuel sum loaded more =
      let seal : (r.header.checksum == checksum r) ≡ true = ground arith in
      rw (
        before-lt-file,
        load_wal_record-header_bytes before r rest f,
        seal,
        ← length-record_end,
        ← record_end-append,
        more,
      )

-- A record that `flush` writes and `load_wal_record` accepts.
abbrev pub IsIntact : WalRecord → Type 0
IsIntact r = Fits r × (r.header.checksum ≡ checksum r)

-- The records that `flush` writes, whose fields fit their widths and whose checksums match, are
-- read back in order from where they start in the file, with more fuel than there are records, and
-- the reading stops at the end of the file.
pub load_records-serialize :
    (rs : List WalRecord) (before : List ℕ) (fuel : ℕ)
    → All IsIntact rs
    → length rs < fuel
    → load_records fuel (before ++ serialize rs) (length before)
      ≡ (rs, length (before ++ serialize rs))
unfolding load_records serialize
load_records-serialize rs before zero h enough = absurd (omega arith)
load_records-serialize [] before (suc fuel) h enough =
    let stop : ltb (length before) (length before) ≡ false = ground arith in
    rw (append-nil before, stop)
load_records-serialize (r ∷ rs) before (suc fuel) h enough =
    one_record before r (serialize rs) h.0.0 fuel h.0.1 _
      (load_records-serialize rs (record_end before r (serialize rs) h.0.0) fuel h.1 (omega arith))
    ∙ rw (record_end-append before r (serialize rs) h.0.0)

length-le-serialize : (rs : List WalRecord) → All IsIntact rs → length rs ≤ length (serialize rs)
unfolding serialize
length-le-serialize [] h = omega arith
length-le-serialize (r ∷ rs) h = omega (
  arith,
  length-le-serialize rs h.1,
  length-append (header_bytes r.header) (r.contents ++ serialize rs),
  length-append r.contents (serialize rs),
  length-header_bytes r h.0.0,
  record_header_size-pos r.header.payload,
)

-- The length of the file is fuel enough to read all of it.
pub load_records-file :
    (rs : List WalRecord)
    → All IsIntact rs
    → load_records (suc (length (serialize rs))) (serialize rs) 0 ≡ (rs, length (serialize rs))
load_records-file rs h =
    load_records-serialize rs [] (suc (length (serialize rs))) h
      (omega (arith, length-le-serialize rs h))

pub loaded_from :
    (rs : List WalRecord) (log : List ℕ)
    → All IsIntact rs
    → log ≡ serialize rs
    → load_records (suc (length log)) log 0 ≡ (rs, length log)
loaded_from rs log intact written = rw written (load_records-file rs intact)
