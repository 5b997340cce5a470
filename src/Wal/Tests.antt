-- ===== src/Wal/Tests.antt =====
-- A small log: a committed transaction that writes two bytes of page 1, and two SETs of another one.
use diskmap_cpp.Common.{
  ◌+◌, ◌⊎◌, ◌≡◌, refl, inr, Bool, true, false, some, List, [], ◌∷◌, ◌++◌, arith, All, length,
}
use diskmap_cpp.Memory.{Mem}
use diskmap_cpp.LogRecord.{WalRecord, begin, commit, seal}
use diskmap_cpp.Wal.{Wal, set_record, serialize, sync_log, commit_txn, flush_up_to}
use diskmap_cpp.Wal.Undo.{Write, IsValid, records_of, replay}
use diskmap_cpp.Wal.Load.{load_records}
use diskmap_cpp.Wal.Load.RoundTrip.{IsIntact, load_records-serialize}
use diskmap_cpp.Wal.Load.Fuel.{load_records-fuel}
use diskmap_cpp.Wal.Load.Sealed.{seal-IsIntact, set_record-IsIntact}
use diskmap_cpp.Wal.Recover.{is_set, is_finish, recover}
use diskmap_cpp.Wal.Recover.Atomic.{has_finish}
use diskmap_cpp.Wal.Durable.{LogFile}
use diskmap_cpp.Wal.WriteAhead.{OldestFirst, FlushedUpTo, flush_up_to-FlushedUpTo}
use diskmap_cpp.Wal.Recover.Committed.{Settles, commit_txn-recover}
use diskmap_cpp.Wal.Recover.Crash.{recover-atomic}

abbrev checkpointed : Mem
checkpointed a = 3

abbrev settled : List WalRecord
settled =
    seal 0 0 begin [] ∷ set_record 1 0 4096 3 (7 ∷ 9 ∷ []) checkpointed ∷ seal 2 0 commit [] ∷ []

abbrev two_writes : List Write
two_writes =
    record { loc = 4097; length = 2; bytes = 5 ∷ [] }
    ∷ record { loc = 8191; length = 1; bytes = 6 ∷ [] }
    ∷ []

two_writes-IsValid : All IsValid two_writes
two_writes-IsValid = (
  record { in_page = omega arith; covers = omega arith },
  (record { in_page = omega arith; covers = omega arith }, tt),
)

settled-IsIntact : All IsIntact settled
settled-IsIntact = (
  seal-IsIntact 0 0 begin [] (omega arith) (omega arith) refl,
  (
    set_record-IsIntact 1 0 4096 3 (7 ∷ 9 ∷ []) checkpointed (omega arith) (omega arith)
        (omega arith) (record { in_page = omega arith; covers = omega arith }),
    (seal-IsIntact 2 0 commit [] (omega arith) (omega arith) refl, tt),
  ),
)

abbrev running : Wal
running = record {
  mem = replay settled checkpointed;
  disk = checkpointed;
  log = [];
  log_pos = 0;
  next_lsn = 4;
  next_txn_id = 2;
  records = settled;
  unflushed_record_index = 0;
  active_transactions = 1;
}

abbrev crashed : Wal
crashed = record {
  mem = checkpointed;
  disk = checkpointed;
  log = serialize (settled ++ records_of 1 two_writes running);
  log_pos = 0;
  next_lsn = 0;
  next_txn_id = 0;
  records = [];
  unflushed_record_index = 0;
  active_transactions = 0;
}

settled-finished :
    All (λ r. is_set r.header.payload ≡ true → has_finish r.header.txn_id settled ≡ true) settled
unfolding has_finish is_set is_finish set_record seal
settled-finished = ((λ p. refl), ((λ p. refl), ((λ p. refl), tt)))

unfinished : has_finish 1 settled ≡ false
unfolding has_finish is_finish set_record seal
unfinished = refl

recover-atomic_example :
    (w' : Wal) × (recover crashed ≡ some w') × (w'.mem ≡ replay settled checkpointed)
recover-atomic_example =
    recover-atomic settled 1 two_writes running crashed checkpointed refl settled-finished
      unfinished two_writes-IsValid (omega arith, (omega arith, tt)) settled-IsIntact (omega arith)
      (omega arith) refl (λ a spared. refl)

load_records-serialize_example :
    load_records 4 ((1 ∷ 2 ∷ []) ++ serialize settled) 2
    ≡ (settled, length ((1 ∷ 2 ∷ []) ++ serialize settled))
load_records-serialize_example =
    load_records-serialize settled (1 ∷ 2 ∷ []) 4 settled-IsIntact (omega arith)

-- The committing transaction, nothing of it in the log file yet.
abbrev written : List WalRecord
written = seal 0 0 begin [] ∷ set_record 1 0 4096 3 (7 ∷ 9 ∷ []) checkpointed ∷ []

abbrev committing : Wal
committing = record {
  mem = replay written checkpointed;
  disk = checkpointed;
  log = [];
  log_pos = 0;
  next_lsn = 2;
  next_txn_id = 1;
  records = written;
  unflushed_record_index = 0;
  active_transactions = 1;
}

committing-LogFile : LogFile committing [] written
unfolding serialize
committing-LogFile = record {
  written = refl;
  position = refl;
  unflushed = refl;
  index = omega arith;
  logged_intact = tt;
  pending_intact = (settled-IsIntact.0, (settled-IsIntact.1.0, tt));
  lsn = omega arith;
}

abbrev syncs : List Bool
syncs = false ∷ true ∷ true ∷ []

second_sync : sync_log syncs ≡ true
unfolding sync_log
second_sync = refl

written-Settles : Settles 0 written
unfolding set_record seal
written-Settles = ((λ is. inr refl), ((λ is. inr refl), tt))

abbrev lost : Wal
lost = record crashed { log = (commit_txn 0 syncs committing).1.log }

commit_txn-recover_example :
    ((commit_txn 0 syncs committing).0 ≡ true)
    × ((w' : Wal) × (recover lost ≡ some w') × (w'.mem ≡ committing.mem))
commit_txn-recover_example =
    commit_txn-recover committing lost [] written 0 syncs checkpointed committing-LogFile
      (omega arith) second_sync refl written-Settles refl (λ a spared. refl)

load_records-fuel_example :
    load_records (5 + 4) (1 ∷ 2 ∷ 3 ∷ []) 0 ≡ load_records 4 (1 ∷ 2 ∷ 3 ∷ []) 0
load_records-fuel_example = load_records-fuel 5 4 (1 ∷ 2 ∷ 3 ∷ []) 0 (omega arith)

written-OldestFirst : OldestFirst written
unfolding set_record seal
written-OldestFirst = (omega arith, tt)

flush_up_to-FlushedUpTo_example :
    FlushedUpTo 0 ((flush_up_to 0 (false ∷ true ∷ true ∷ []) committing).1) ([] ++ written)
    × (((flush_up_to 0 (false ∷ true ∷ true ∷ []) committing).0 ≡ true)
        ⊎ (sync_log (false ∷ true ∷ true ∷ []) ≡ false))
flush_up_to-FlushedUpTo_example =
    flush_up_to-FlushedUpTo committing [] written 0 (false ∷ true ∷ true ∷ []) committing-LogFile
      written-OldestFirst
