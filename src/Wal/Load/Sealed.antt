-- ===== src/Wal/Load/Sealed.antt =====
-- The records that the log functions make are such that `recover` accepts them.
use diskmap_cpp.Common.{
  ℕ, ◌^◌, ◌≤◌, ◌<◌, refl, List, [], ◌∷◌, arith, take, All, length-append, length-take,
}
use diskmap_cpp.Memory.{Mem, page_size, fetch}
use diskmap_cpp.Memory.Laws.{length-fetch}
use diskmap_cpp.LogRecord.{Payload, u32_mod, checksum, get_unpadded_length, seal}
use diskmap_cpp.Wal.{Wal, increment, set_record, set_bytes, push_record}
use diskmap_cpp.Wal.Apply.{IsWrite, get_unpadded_length-le}
use diskmap_cpp.Wal.Undo.{Write, IsValid, records_of}
use diskmap_cpp.Wal.Load.Header.{FitsPayload}
use diskmap_cpp.Wal.Load.RoundTrip.{IsIntact}

pub seal-IsIntact :
    (lsn txn_id : ℕ) (payload : Payload) (contents : List ℕ)
    → lsn < u32_mod
    → txn_id < u32_mod
    → FitsPayload payload contents
    → IsIntact (seal lsn txn_id payload contents)
unfolding seal checksum
seal-IsIntact lsn txn_id payload contents l t fits =
    (record { checksum = omega arith; lsn = l; txn_id = t; payload = fits }, refl)

pub set_record-IsIntact :
    (lsn txn_id loc write_length : ℕ) (bytes : List ℕ) (m : Mem)
    → lsn < u32_mod
    → txn_id < u32_mod
    → loc < 256 ^ 8
    → IsWrite loc write_length bytes
    → IsIntact (set_record lsn txn_id loc write_length bytes m)
unfolding set_record
set_record-IsIntact lsn txn_id loc write_length bytes m l t a h =
    let old_value = fetch m loc write_length in
    let u = get_unpadded_length write_length old_value in
    let u_le : u ≤ write_length = get_unpadded_length-le write_length old_value in
    let n_le : write_length ≤ page_size = omega (arith, h.in_page) in
    seal-IsIntact lsn txn_id _ _ l t (
      a,
      omega arith,
      omega arith,
      omega (arith, h.covers),
      omega (
        arith,
        h.covers,
        length-append (take u old_value) bytes,
        length-take u old_value (omega (arith, length-fetch m loc write_length)),
      ),
    )

-- Addresses fit their field.
abbrev pub IsAddressed : Write → Type 0
IsAddressed x = x.loc < 256 ^ 8

pub records_of-IsIntact :
    (txn_id : ℕ) (xs : List Write) (w : Wal)
    → w.next_lsn < u32_mod
    → txn_id < u32_mod
    → All IsAddressed xs
    → All IsValid xs
    → All IsIntact (records_of txn_id xs w)
unfolding records_of set_bytes push_record increment
records_of-IsIntact txn_id [] w l t a v = tt
records_of-IsIntact txn_id (x ∷ xs) w l t a v = (
  set_record-IsIntact w.next_lsn txn_id x.loc x.length x.bytes w.mem l t a.0 v.0,
  records_of-IsIntact txn_id xs (set_bytes txn_id x.loc x.length x.bytes w) (omega arith) t a.1 v.1,
)
