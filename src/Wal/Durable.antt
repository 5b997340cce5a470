-- ===== src/Wal/Durable.antt =====
-- The log file: what the log functions keep true of it, and what COMMIT makes of it.
use diskmap_cpp.Common.{
  ℕ, zero, suc, ◌+◌, ◌-◌, ◌≤◌, ◌<◌, ◌^◌, ◌≡◌, refl, sym, ap, ◌∙◌, Bool, true, List, [], ◌∷◌, ◌++◌,
  arith, length, take, drop, All, All-append, length-append, append_assoc, append-nil, length-drop,
  eq-nil,
}
use diskmap_cpp.LogRecord.{Payload, WalRecord, commit, u32_mod, header_bytes, seal}
use diskmap_cpp.Wal.{
  Wal, increment, push_record, log_event, set_record, set_bytes, sync_log, sized, appended_bytes,
  serialize, pwrite, flush, commit_txn,
}
use diskmap_cpp.Wal.Apply.{IsWrite, take_whole}
use diskmap_cpp.Wal.Load.{load_records}
use diskmap_cpp.Wal.Load.Header.{FitsPayload, length-header_bytes, record_size-length}
use diskmap_cpp.Wal.Load.RoundTrip.{IsIntact, loaded_from}
use diskmap_cpp.Wal.Load.Sealed.{seal-IsIntact, set_record-IsIntact}

-- The log file holds the records `logged` up to its write position; `pending` are those that wait
-- for a flush. All of them are such that recovery accepts them.
pub record LogFile (w : Wal) (logged pending : List WalRecord) : Type 0 where
  pub written : w.log ≡ serialize logged
  pub position : w.log_pos ≡ length w.log
  pub unflushed : drop w.unflushed_record_index w.records ≡ pending
  pub index : w.unflushed_record_index ≤ length w.records
  pub logged_intact : All IsIntact logged
  pub pending_intact : All IsIntact pending
  pub lsn : w.next_lsn < u32_mod

length-serialize :
    (rs : List WalRecord) → All IsIntact rs → length (serialize rs) ≡ appended_bytes rs
unfolding serialize appended_bytes
length-serialize [] h = refl
length-serialize (r ∷ rs) h = omega (
  arith,
  length-append (header_bytes r.header) (r.contents ++ serialize rs),
  length-append r.contents (serialize rs),
  length-header_bytes r h.0.0,
  record_size-length r h.0.0,
  length-serialize rs h.1,
)

pub serialize-append :
    (rs qs : List WalRecord) → serialize (rs ++ qs) ≡ serialize rs ++ serialize qs
unfolding serialize
serialize-append [] qs = refl
serialize-append (r ∷ rs) qs = rw (serialize-append rs qs) (simp append_assoc)

sized_whole : (n : ℕ) (xs : List ℕ) → length xs ≡ n → sized n xs ≡ xs
sized_whole n xs h =
    let none_left : length xs - length xs ≡ 0 = omega arith in
    rw (← h, none_left, append-nil (take (length xs) xs)) (take_whole xs)

drop_past : (n : ℕ) (xs : List ℕ) → length xs ≤ n → drop n xs ≡ []
drop_past n xs h = eq-nil (drop n xs) (omega (arith, length-drop n xs))

pwrite_end :
    (file bytes : List ℕ) (pos : ℕ) → pos ≡ length file → pwrite file pos bytes ≡ file ++ bytes
unfolding pwrite
pwrite_end file bytes pos h = rw (
  sized_whole pos file (sym h),
  drop_past (pos + length bytes) file (omega arith),
  append-nil bytes,
)

drop_all : {A : Type 0} (rs : List A) → drop (length rs) rs ≡ []
drop_all [] = refl
drop_all (r ∷ rs) = drop_all rs

drop-append_le :
    {A : Type 0} (n : ℕ) (rs qs : List A) → n ≤ length rs → drop n (rs ++ qs) ≡ drop n rs ++ qs
drop-append_le zero rs qs h = refl
drop-append_le (suc n) [] qs h = absurd (omega arith)
drop-append_le (suc n) (r ∷ rs) qs h = drop-append_le n rs qs (omega arith)

-- A flush moves all pending records to the file.
pub flush-LogFile :
    (w : Wal) (logged pending : List WalRecord)
    → LogFile w logged pending
    → LogFile (flush w) (logged ++ pending) []
unfolding flush
flush-LogFile w logged pending s =
    let size = length-serialize pending s.pending_intact in
    let bytes : pwrite w.log w.log_pos (sized (appended_bytes pending) (serialize pending))
        ≡ serialize logged ++ serialize pending =
      rw (
        sized_whole (appended_bytes pending) (serialize pending) size,
        pwrite_end w.log (serialize pending) w.log_pos s.position,
        s.written,
      ) in
    record {
      written = rw s.unflushed (bytes ∙ sym (serialize-append logged pending));
      position =
          rw (s.unflushed, bytes)
            (omega (
              arith,
              s.position,
              ap (length {A = ℕ}) s.written,
              size,
              length-append (serialize logged) (serialize pending),
            ));
      unflushed = drop_all w.records;
      index = omega arith;
      logged_intact = All-append IsIntact logged pending s.logged_intact s.pending_intact;
      pending_intact = tt;
      lsn = s.lsn;
    }

-- A record that is appended waits for a flush.
push_record-LogFile :
    (w : Wal) (logged pending : List WalRecord) (r : WalRecord)
    → LogFile w logged pending
    → IsIntact r
    → LogFile
        (push_record r (record w { next_lsn = increment w.next_lsn }))
        logged
        (pending ++ r ∷ [])
unfolding push_record increment
push_record-LogFile w logged pending r s intact = record {
  written = s.written;
  position = s.position;
  unflushed =
      drop-append_le w.unflushed_record_index w.records (r ∷ []) s.index
      ∙ ap (λ rs. rs ++ r ∷ []) s.unflushed;
  index = omega (arith, s.index, length-append w.records (r ∷ []));
  logged_intact = s.logged_intact;
  pending_intact = All-append IsIntact pending (r ∷ []) s.pending_intact (intact, tt);
  lsn = omega arith;
}

pub log_event-LogFile :
    (w : Wal) (logged pending : List WalRecord) (txn_id : ℕ) (payload : Payload)
    → LogFile w logged pending
    → txn_id < u32_mod
    → FitsPayload payload []
    → LogFile
        (log_event txn_id payload w)
        logged
        (pending ++ seal w.next_lsn txn_id payload [] ∷ [])
unfolding log_event push_record increment
log_event-LogFile w logged pending txn_id payload s t fits =
    push_record-LogFile w logged pending (seal w.next_lsn txn_id payload []) s
      (seal-IsIntact w.next_lsn txn_id payload [] s.lsn t fits)

pub set_bytes-LogFile :
    (w : Wal) (logged pending : List WalRecord) (txn_id loc n : ℕ) (bytes : List ℕ)
    → LogFile w logged pending
    → txn_id < u32_mod
    → loc < 256 ^ 8
    → IsWrite loc n bytes
    → LogFile
        (set_bytes txn_id loc n bytes w)
        logged
        (pending ++ set_record w.next_lsn txn_id loc n bytes w.mem ∷ [])
unfolding set_bytes push_record increment
set_bytes-LogFile w logged pending txn_id loc n bytes s t a h =
    push_record-LogFile w logged pending (set_record w.next_lsn txn_id loc n bytes w.mem) s
      (set_record-IsIntact w.next_lsn txn_id loc n bytes w.mem s.lsn t a h)

-- COMMIT, where an attempt at `fsync` succeeds: every record that was appended before it and its own
-- record are in the log file, in order, and recovery reads all of them back.
pub commit_txn-durable :
    (w : Wal) (logged pending : List WalRecord) (txn_id : ℕ) (syncs : List Bool)
    → LogFile w logged pending
    → txn_id < u32_mod
    → sync_log syncs ≡ true
    → ((commit_txn txn_id syncs w).0 ≡ true)
      × (load_records
            (suc (length ((commit_txn txn_id syncs w).1.log)))
            ((commit_txn txn_id syncs w).1.log)
            0
          ≡ (
            logged ++ (pending ++ seal w.next_lsn txn_id commit [] ∷ []),
            length ((commit_txn txn_id syncs w).1.log),
          ))
      × LogFile
          ((commit_txn txn_id syncs w).1)
          (logged ++ (pending ++ seal w.next_lsn txn_id commit [] ∷ []))
          []
unfolding commit_txn
commit_txn-durable w logged pending txn_id syncs s t synced =
    let event = log_event-LogFile w logged pending txn_id commit s t refl in
    let flushed =
      flush-LogFile (log_event txn_id commit w) logged
        (pending ++ seal w.next_lsn txn_id commit [] ∷ []) event in
    rw synced (
      refl,
      loaded_from (logged ++ (pending ++ seal w.next_lsn txn_id commit [] ∷ [])) _
          flushed.logged_intact flushed.written,
      (record {
        written = flushed.written;
        position = flushed.position;
        unflushed = flushed.unflushed;
        index = flushed.index;
        logged_intact = flushed.logged_intact;
        pending_intact = flushed.pending_intact;
        lsn = flushed.lsn;
      }),
    )
