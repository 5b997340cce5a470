-- ===== src/Wal/Recover/Committed.antt =====
-- Durability: a committed transaction survives a crash.
use diskmap_cpp.Common.{
  ℕ, suc, ◌≤◌, ◌<◌, ◌≡◌, refl, sym, ap, ◌∙◌, ◌⊎◌, inl, inr, Bool, true, false, ◌||◌, some, List, [],
  ◌∷◌, ◌++◌, arith, ==-self, max, length, All, All-map, All-append, All-front, ap₂, append_assoc,
  append-nil,
}
use diskmap_cpp.Memory.{Mem}
use diskmap_cpp.LogRecord.{WalRecord, commit, u32_mod, seal}
use diskmap_cpp.Wal.{Wal, apply_payload, apply_record, sync_log, commit_txn}
use diskmap_cpp.Wal.Undo.{replay, records_of}
use diskmap_cpp.Wal.Durable.{LogFile, commit_txn-durable}
use diskmap_cpp.Wal.Load.{load_records}
use diskmap_cpp.Wal.Recover.{is_finish, is_set, recover_from, recover}
use diskmap_cpp.Wal.Recover.Atomic.{
  Spares, has_finish, has_finish-append, replay-append, recover_from-atomic,
}

-- An id above those of all records.
above : List WalRecord → ℕ
above [] = 0
above (r ∷ rs) = max (suc r.header.txn_id) (above rs)

has_finish-above : (x : ℕ) (rs : List WalRecord) → above rs ≤ x → has_finish x rs ≡ false
unfolding above has_finish
has_finish-above x [] h = refl
has_finish-above x (r ∷ rs) h = ground (arith, has_finish-above x rs (omega arith))

-- Recovery from a log whose SETs all belong to finished transactions.
pub recover_from-settled :
    (done : List WalRecord) (crashed : Wal) (base : Mem) (pos : ℕ)
    → All (λ r. is_set r.header.payload ≡ true → has_finish r.header.txn_id done ≡ true) done
    → ((a : ℕ) → All (Spares a) done → crashed.mem a ≡ base a)
    → (w' : Wal) × (recover_from done pos crashed ≡ some w') × (w'.mem ≡ replay done base)
unfolding records_of
recover_from-settled done crashed base pos settled disk =
    let w : Wal = record crashed { mem = replay done base } in
    let none_left : done ++ [] ≡ done = append-nil done in
    let (w', run, mem) =
      recover_from-atomic done (above done) [] w crashed base pos refl settled
        (has_finish-above (above done) done (omega arith)) tt
        (λ a spared. disk a (rw (← none_left) spared)) in
    (w', ap (λ rs. recover_from rs pos crashed) (sym none_left) ∙ run, mem)

-- The SETs of a list of records belong to finished transactions or to this one.
abbrev pub Settles : ℕ → List WalRecord → Type 0
Settles txn_id rs =
    All
      (λ r.
        is_set r.header.payload ≡ true
        → (has_finish r.header.txn_id rs ≡ true) ⊎ (r.header.txn_id ≡ txn_id))
      rs

or_true : (b : Bool) → (b || true) ≡ true
or_true true = refl
or_true false = refl

module _ (rs : List WalRecord) (lsn txn_id : ℕ) where
  abbrev committed : List WalRecord
  committed = rs ++ seal lsn txn_id commit [] ∷ []

  finished_by : (x : ℕ) → (has_finish x rs ≡ true) ⊎ (x ≡ txn_id) → has_finish x committed ≡ true
  unfolding has_finish seal is_finish
  finished_by x (inl h) = has_finish-append x rs _ ∙ rw h
  finished_by x (inr h) =
      has_finish-append x rs _ ∙ rw (h, ==-self txn_id) (or_true (has_finish txn_id rs))

  committed-settled :
      Settles txn_id rs
      → All
          (λ r. is_set r.header.payload ≡ true → has_finish r.header.txn_id committed ≡ true)
          committed
  unfolding seal is_set
  committed-settled h =
      All-append (λ r. is_set r.header.payload ≡ true → has_finish r.header.txn_id committed ≡ true)
        rs _
        (All-map
          (λ r.
            is_set r.header.payload ≡ true
            → (has_finish r.header.txn_id rs ≡ true) ⊎ (r.header.txn_id ≡ txn_id))
          (λ r. is_set r.header.payload ≡ true → has_finish r.header.txn_id committed ≡ true) rs
          (λ r settles is. finished_by r.header.txn_id (settles is)) h)
        ((λ is. finished_by txn_id (inr refl)), tt)

  replay-committed : (m : Mem) → replay committed m ≡ replay rs m
  unfolding replay seal apply_record apply_payload
  replay-committed m = replay-append rs (seal lsn txn_id commit [] ∷ []) m

-- Durability: the log file holds `logged`, `pending` waits for a flush, and the data file reads as
-- these records make it from the last checkpoint. All their SETs belong to finished transactions
-- or to the one that commits. COMMIT succeeds where an attempt at `fsync` does; and if the program
-- crashes behind it, with the log file as COMMIT left it and any bytes on the disk where those
-- records write, then recovery succeeds and the data file reads as it did at the COMMIT.
pub commit_txn-recover :
    (w crashed : Wal) (logged pending : List WalRecord) (txn_id : ℕ) (syncs : List Bool)
    (base : Mem)
    → LogFile w logged pending
    → txn_id < u32_mod
    → sync_log syncs ≡ true
    → w.mem ≡ replay (logged ++ pending) base
    → Settles txn_id (logged ++ pending)
    → crashed.log ≡ (commit_txn txn_id syncs w).1.log
    → ((a : ℕ) → All (Spares a) (logged ++ pending) → crashed.mem a ≡ base a)
    → ((commit_txn txn_id syncs w).0 ≡ true)
      × ((w' : Wal) × (recover crashed ≡ some w') × (w'.mem ≡ w.mem))
unfolding recover
commit_txn-recover w crashed logged pending txn_id syncs base s t synced built settles file disk =
    let rs = logged ++ pending in
    let (ok, loaded, durable) = commit_txn-durable w logged pending txn_id syncs s t synced in
    let done : logged ++ (pending ++ seal w.next_lsn txn_id commit [] ∷ [])
        ≡ committed rs w.next_lsn txn_id =
      sym (append_assoc logged pending _) in
    let (w', run, mem) =
      recover_from-settled (committed rs w.next_lsn txn_id) crashed base (length crashed.log)
        (committed-settled rs w.next_lsn txn_id settles)
        (λ a spared. disk a (All-front (Spares a) rs _ spared)) in
    let read : load_records (suc (length crashed.log)) crashed.log 0
        ≡ (committed rs w.next_lsn txn_id, length crashed.log) =
      ap (λ (l : List ℕ). load_records (suc (length l)) l 0) file
      ∙ loaded
      ∙ ap₂ (λ (qs : List WalRecord) (n : ℕ). (qs, n)) done (ap (length {A = ℕ}) (sym file)) in
    (
      ok,
      (
        w',
        ap (λ (l : List WalRecord × ℕ). recover_from l.0 l.1 crashed) read ∙ run,
        mem ∙ replay-committed rs w.next_lsn txn_id base ∙ sym built,
      ),
    )
