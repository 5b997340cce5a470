-- ===== src/Wal/Abort.antt =====
-- `WAL::abort`: it finds the SETs of its transaction in the log, and takes all of them back.
use diskmap_cpp.Common.{ℕ, ◌≡◌, ◌⊎◌, false, List, ◌++◌, ◌==◌, All}
use diskmap_cpp.LogRecord.{Payload, WalRecord, abort_begin, set, clr}
use diskmap_cpp.Wal.{Wal, log_event}
use diskmap_cpp.Wal.Undo.{Write, set_all}

-- Records that change no data.
abbrev pub IsEvent : Payload → Type 0
IsEvent (set s) = ⊥
IsEvent (clr c) = ⊥
IsEvent _ = Unit

-- No SET or CLR of this transaction.
abbrev pub IsOther : ℕ → WalRecord → Type 0
IsOther txn_id r = ((r.header.txn_id == txn_id) ≡ false) ⊎ IsEvent r.header.payload

record Suffix (txn_id : ℕ) (post result : List WalRecord) : Type 0 where
  kept : List WalRecord
  others : All (IsOther txn_id) kept
  splits : result ≡ kept ++ post

module _ (txn_id : ℕ) (xs : List Write) (w : Wal) where
  abbrev started : Wal
  started = log_event txn_id abort_begin (set_all txn_id xs w)
