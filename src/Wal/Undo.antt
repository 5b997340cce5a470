-- ===== src/Wal/Undo.antt =====
-- A transaction's SETs, one after the other, and the loop of CLRs that takes them back.
use mathlib.Core.List.{reverse_aux}
use diskmap_cpp.Common.{ℕ, ◌≡◌, refl, ◌∙◌, List, [], ◌∷◌, ◌++◌, append_assoc, append-nil, All}
use diskmap_cpp.Memory.{Mem}
use diskmap_cpp.LogRecord.{WalRecord}
use diskmap_cpp.Wal.{Wal, increment, apply_record, push_record, set_record, set_bytes, undo_all}
use diskmap_cpp.Wal.Apply.{
  IsWrite, undo_of, create_compensation_record-undo_of, undo_of-restores, redo-Outside,
}

-- The arguments of one call of `WAL::set`.
pub record Write : Type 0 where
  pub loc : ℕ
  pub length : ℕ
  pub bytes : List ℕ

abbrev pub IsValid : Write → Type 0
IsValid x = IsWrite x.loc x.length x.bytes

unfoldable pub set_all : ℕ → List Write → Wal → Wal
set_all txn_id [] w = w
set_all txn_id (x ∷ xs) w = set_all txn_id xs (set_bytes txn_id x.loc x.length x.bytes w)

-- The records that these calls append to the log.
unfoldable pub records_of : ℕ → List Write → Wal → List WalRecord
records_of txn_id [] w = []
records_of txn_id (x ∷ xs) w =
    set_record w.next_lsn txn_id x.loc x.length x.bytes w.mem
    ∷ records_of txn_id xs (set_bytes txn_id x.loc x.length x.bytes w)

pub records-set_all :
    (txn_id : ℕ) (xs : List Write) (w : Wal)
    → (set_all txn_id xs w).records ≡ w.records ++ records_of txn_id xs w
unfolding set_all records_of
records-set_all txn_id [] w = rw append-nil
records-set_all txn_id (x ∷ xs) w =
    rw (records-set_all txn_id xs _) (unfold set_bytes in rw append_assoc)

unfoldable pub replay : List WalRecord → Mem → Mem
replay [] m = m
replay (r ∷ rs) m = replay rs (apply_record r m)

pub mem-set_all :
    (txn_id : ℕ) (xs : List Write) (w : Wal)
    → (set_all txn_id xs w).mem ≡ replay (records_of txn_id xs w) w.mem
unfolding set_all records_of replay
mem-set_all txn_id [] w = refl
mem-set_all txn_id (x ∷ xs) w = mem-set_all txn_id xs _ ∙ (unfold set_bytes in refl)

-- A SET changes the memory, the log records and the next LSN, and nothing else.
pub record SameFiles (v w : Wal) : Type 0 where
  pub active : v.active_transactions ≡ w.active_transactions
  pub log : v.log ≡ w.log
  pub disk : v.disk ≡ w.disk

pub set_all-SameFiles : (txn_id : ℕ) (xs : List Write) (w : Wal) → SameFiles (set_all txn_id xs w) w
unfolding set_all set_bytes push_record
set_all-SameFiles txn_id [] w = record { active = refl; log = refl; disk = refl }
set_all-SameFiles txn_id (x ∷ xs) w =
    let r = set_all-SameFiles txn_id xs (set_bytes txn_id x.loc x.length x.bytes w) in
    record { active = r.active; log = r.log; disk = r.disk }

-- What undoing leaves alone, besides the memory that it restores.
pub record Undone (v : Wal) (m : Mem) (v' : Wal) : Type 0 where
  pub restored : v'.mem ≡ m
  pub active : v'.active_transactions ≡ v.active_transactions
  pub log : v'.log ≡ v.log
  pub disk : v'.disk ≡ v.disk

Undone-trans : {u v w : Wal} {m n : Mem} → Undone u m v → Undone v n w → Undone u n w
Undone-trans a b = record {
  restored = b.restored;
  active = b.active ∙ a.active;
  log = b.log ∙ a.log;
  disk = b.disk ∙ a.disk;
}

module _ (txn_id : ℕ) (x : Write) (w v : Wal) (valid : IsValid x) where
  clr_state : Wal
  clr_state =
      push_record (undo_of valid w.mem v.next_lsn txn_id w.next_lsn)
        (record v { next_lsn = increment v.next_lsn })

  undo_one :
      (rest : List WalRecord)
      → undo_all (set_record w.next_lsn txn_id x.loc x.length x.bytes w.mem ∷ rest) v
        ≡ undo_all rest clr_state
  unfolding undo_all clr_state
  undo_one rest = rw (create_compensation_record-undo_of valid)

  undo_one-Undone :
      v.mem ≡ (set_bytes txn_id x.loc x.length x.bytes w).mem → Undone v w.mem clr_state
  unfolding clr_state push_record set_bytes
  undo_one-Undone e = record {
    restored =
        undo_of-restores valid w.mem v.next_lsn txn_id w.next_lsn v.mem
          λ a o. rw e (redo-Outside valid w.mem w.next_lsn txn_id w.mem a o);
    active = refl;
    log = refl;
    disk = refl;
  }

-- The CLRs of a run of SETs, written last first, restore the memory in front of the first one.
pub undo_all-set_all :
    (txn_id : ℕ) (xs : List Write) (w v : Wal) (rest : List WalRecord)
    → All IsValid xs
    → v.mem ≡ (set_all txn_id xs w).mem
    → (v' : Wal) × (undo_all (reverse_aux (records_of txn_id xs w) rest) v ≡ undo_all rest v')
      × Undone v w.mem v'
unfolding set_all records_of
undo_all-set_all txn_id [] w v rest h e =
    (v, refl, record { restored = e; active = refl; log = refl; disk = refl })
undo_all-set_all txn_id (x ∷ xs) w v rest h e =
    let (v1, run, u) =
      undo_all-set_all txn_id xs (set_bytes txn_id x.loc x.length x.bytes w) v
        (set_record w.next_lsn txn_id x.loc x.length x.bytes w.mem ∷ rest) h.1 e in
    (
      clr_state txn_id x w v1 h.0,
      run ∙ undo_one txn_id x w v1 h.0 rest,
      Undone-trans u (undo_one-Undone txn_id x w v1 h.0 u.restored),
    )
