-- ===== src/Wal/Recover.antt =====
-- `WAL::recover`.
pub mod Atomic
pub mod Crash
pub mod Committed
use diskmap_cpp.Common.{
  ℕ, suc, Bool, true, false, ◌||◌, Option, some, List, [], ◌∷◌, ◌==◌, if◌then◌else◌, length, max,
  ◌>>=◌,
}
use diskmap_cpp.LogRecord.{Payload, WalRecord, commit, abort_end, set, clr}
use diskmap_cpp.Wal.{Wal, apply_record, increment, log_event, undo_all}
use diskmap_cpp.Wal.Load.{load_records}

unfoldable pub contains : ℕ → List ℕ → Bool
contains x [] = false
contains x (y ∷ ys) = x == y || contains x ys

unfoldable pub insert : ℕ → List ℕ → List ℕ
unfolding contains
insert x ys = if contains x ys then ys else x ∷ ys

-- COMMIT and ABORT_END finish a transaction.
unfoldable pub is_finish : Payload → Bool
is_finish commit = true
is_finish abort_end = true
is_finish _ = false

revert : Payload → List ℕ → List ℕ
revert (clr c) lsns = insert c.undo_lsn lsns
revert _ lsns = lsns

pub record FirstPass : Type 0 where
  pub wal : Wal
  pub finished_txns : List ℕ
  pub reverted_lsns : List ℕ

redo : WalRecord → FirstPass → FirstPass
unfolding revert
redo r s = record {
  wal = record s.wal {
    mem = apply_record r s.wal.mem;
    next_lsn = max s.wal.next_lsn (increment r.header.lsn);
    next_txn_id = max s.wal.next_txn_id (increment r.header.txn_id);
  };
  finished_txns =
      if is_finish r.header.payload
      then insert r.header.txn_id s.finished_txns
      else s.finished_txns;
  reverted_lsns = revert r.header.payload s.reverted_lsns;
}

-- The first pass: replay the log, and note what finished.
pub first_pass : List WalRecord → FirstPass → FirstPass
first_pass [] s = s
first_pass (r ∷ rs) s = first_pass rs (redo r s)

unfoldable pub is_set : Payload → Bool
is_set (set s) = true
is_set _ = false

-- The second pass: the SETs of unfinished transactions, the last one first.
pub to_undo : List ℕ → List WalRecord → List WalRecord → List WalRecord
unfolding is_set
to_undo finished [] undo = undo
to_undo finished (r ∷ rs) undo = to_undo finished rs (
    if contains r.header.txn_id finished
    then undo
    else if is_set r.header.payload
    then r ∷ undo
    else undo)

-- The transactions that the second pass finds unfinished.
pub aborted_txns : List ℕ → List WalRecord → List ℕ → List ℕ
aborted_txns finished [] ids = ids
aborted_txns finished (r ∷ rs) ids =
    aborted_txns finished rs
      (if contains r.header.txn_id finished then ids else insert r.header.txn_id ids)

-- The ABORT_END records. The order of an `unordered_set` is not specified; this is one of them.
pub end_all : List ℕ → Wal → Wal
end_all [] w = w
end_all (txn_id ∷ ids) w = end_all ids (log_event txn_id abort_end w)

-- `WAL::recover` behind the loop that reads the file.
pub recover_from : List WalRecord → ℕ → Wal → Option Wal
recover_from rs pos w =
    let first : FirstPass = record {
      wal = record w { records = rs; log_pos = pos };
      finished_txns = [];
      reverted_lsns = [];
    } in
    let replayed = first_pass rs first in
    let finished = replayed.finished_txns in
    undo_all (to_undo finished rs []) replayed.wal >>= λ undone.
    some (end_all (aborted_txns finished rs []) undone)

pub recover : Wal → Option Wal
recover w =
    let loaded = load_records (suc (length w.log)) w.log 0 in recover_from loaded.0 loaded.1 w
