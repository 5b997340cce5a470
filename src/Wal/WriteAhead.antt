-- ===== src/Wal/WriteAhead.antt =====
-- The write-ahead rule: what `WAL::flush_up_to` guarantees before the buffer pool writes a page.
use diskmap_cpp.Common.{
  ℕ, Bool, true, false, ◌⊎◌, ◌≤◌, ◌<◌, ◌≡◌, refl, inl, inr, List, [], ◌∷◌, ◌++◌, arith, leb,
  if◌then◌else◌, drop, Bool-cases, All, All-map, append-nil,
}
use diskmap_cpp.LogRecord.{WalRecord}
use diskmap_cpp.Wal.{Wal, flush, sync_log, oldest_le, flush_up_to}
use diskmap_cpp.Wal.Durable.{LogFile, flush-LogFile}

-- No record is older than the first one.
abbrev pub OldestFirst : List WalRecord → Type 0
OldestFirst [] = Unit
OldestFirst (r ∷ rs) = All (λ q. r.header.lsn ≤ q.header.lsn) rs

-- The log file after the call, and that nothing as old as `lsn` waits any more.
pub record FlushedUpTo (lsn : ℕ) (w : Wal) (rs : List WalRecord) : Type 0 where
  pub logged : List WalRecord
  pub pending : List WalRecord
  pub all : logged ++ pending ≡ rs
  pub file : LogFile w logged pending
  pub newer : All (λ r. lsn < r.header.lsn) pending

flush_up_to-pending :
    (w : Wal) (lsn : ℕ) (syncs : List Bool) (pending : List WalRecord)
    → drop w.unflushed_record_index w.records ≡ pending
    → flush_up_to lsn syncs w
      ≡ (if oldest_le lsn pending then (sync_log syncs, flush w) else (true, w))
unfolding flush_up_to
flush_up_to-pending w lsn syncs pending h = rw h

-- The log file holds some records and others wait, the oldest first. Then `flush_up_to` loses none,
-- keeps their order, and afterwards no record as old as `lsn` waits for a flush. It throws only if
-- `fsync` fails three times.
pub flush_up_to-FlushedUpTo :
    (w : Wal) (logged pending : List WalRecord) (lsn : ℕ) (syncs : List Bool)
    → LogFile w logged pending
    → OldestFirst pending
    → FlushedUpTo lsn ((flush_up_to lsn syncs w).1) (logged ++ pending)
      × (((flush_up_to lsn syncs w).0 ≡ true) ⊎ (sync_log syncs ≡ false))
unfolding oldest_le
flush_up_to-FlushedUpTo w logged [] lsn syncs s sorted =
    rw (flush_up_to-pending w lsn syncs [] s.unflushed)
      (record { logged = logged; pending = []; all = refl; file = s; newer = tt }, inl refl)
flush_up_to-FlushedUpTo w logged (r ∷ rs) lsn syncs s sorted =
    let step = flush_up_to-pending w lsn syncs (r ∷ rs) s.unflushed in
    elim (Bool-cases (leb r.header.lsn lsn)) [
      | inl e ↦
          rw (step, e)
            (
              record {
                logged = logged ++ r ∷ rs;
                pending = [];
                all = append-nil (logged ++ r ∷ rs);
                file = flush-LogFile w logged (r ∷ rs) s;
                newer = tt;
              },
              Bool-cases (sync_log syncs),
            )
      | inr e ↦
          rw (step, e)
            (
              record {
                logged = logged;
                pending = r ∷ rs;
                all = refl;
                file = s;
                newer = (
                  ground arith,
                  All-map (λ q. r.header.lsn ≤ q.header.lsn) (λ q. lsn < q.header.lsn) rs
                      (λ q older. ground arith) sorted,
                );
              },
              inl refl,
            )
    ]
