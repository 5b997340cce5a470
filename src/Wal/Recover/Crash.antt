-- ===== src/Wal/Recover/Crash.antt =====
-- Recovery from the log file that a crash left.
use diskmap_cpp.Common.{
  ℕ, ◌≡◌, ap, ◌∙◌, true, false, some, List, ◌++◌, length, All, All-append, ◌<◌,
}
use diskmap_cpp.Memory.{Mem}
use diskmap_cpp.LogRecord.{WalRecord, u32_mod}
use diskmap_cpp.Wal.{Wal, serialize}
use diskmap_cpp.Wal.Undo.{Write, IsValid, records_of, replay}
use diskmap_cpp.Wal.Load.RoundTrip.{IsIntact, loaded_from}
use diskmap_cpp.Wal.Load.Sealed.{IsAddressed, records_of-IsIntact}
use diskmap_cpp.Wal.Recover.{is_set, recover_from, recover}
use diskmap_cpp.Wal.Recover.Atomic.{Spares, has_finish, recover_from-atomic}

-- Of a log file of intact records recovery reads back every record.
pub recover-serialize :
    (rs : List WalRecord) (w : Wal)
    → All IsIntact rs
    → w.log ≡ serialize rs
    → recover w ≡ recover_from rs (length w.log) w
unfolding recover
recover-serialize rs w intact written =
    ap (λ (l : List WalRecord × ℕ). recover_from l.0 l.1 w) (loaded_from rs w.log intact written)

-- A crash inside a transaction: the log file holds intact records, of which every SET belongs to a
-- finished transaction, and then the records of valid SETs of an unfinished one; and the disk holds
-- the bytes of the last checkpoint wherever these records write nothing. Then recovery succeeds, and
-- the data file reads as the settled records make it from the checkpoint, without the unfinished
-- transaction.
pub recover-atomic :
    (done : List WalRecord) (txn_id : ℕ) (xs : List Write) (w crashed : Wal) (base : Mem)
    → w.mem ≡ replay done base
    → All (λ r. is_set r.header.payload ≡ true → has_finish r.header.txn_id done ≡ true) done
    → has_finish txn_id done ≡ false
    → All IsValid xs
    → All IsAddressed xs
    → All IsIntact done
    → w.next_lsn < u32_mod
    → txn_id < u32_mod
    → crashed.log ≡ serialize (done ++ records_of txn_id xs w)
    → ((a : ℕ) → All (Spares a) (done ++ records_of txn_id xs w) → crashed.mem a ≡ base a)
    → (w' : Wal) × (recover crashed ≡ some w') × (w'.mem ≡ replay done base)
recover-atomic done txn_id xs w crashed base built settled unfinished valid addressed intact lsn id
      written disk =
    let (w', run, mem) =
      recover_from-atomic done txn_id xs w crashed base (length crashed.log) built settled
        unfinished valid disk in
    (
      w',
      recover-serialize (done ++ records_of txn_id xs w) crashed
            (All-append IsIntact done (records_of txn_id xs w) intact
              (records_of-IsIntact txn_id xs w lsn id addressed valid))
            written
          ∙ run,
      mem ∙ built,
    )
