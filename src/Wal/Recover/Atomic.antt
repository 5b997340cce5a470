-- ===== src/Wal/Recover/Atomic.antt =====
-- Recovery is atomic: whatever pages had reached the disk, the committed transactions are there and
-- the unfinished one is not.
use mathlib.Core.List.{reverse_aux}
use diskmap_cpp.Common.{
  ℕ, suc, ◌≡◌, refl, sym, ap, ◌∙◌, fun_ext, ◌⊎◌, inl, inr, Bool, true, false, ◌&&◌, ◌||◌, some,
  List, [], ◌∷◌, ◌++◌, arith, ◌==◌, Bool-cases, All, All-map,
}
use diskmap_cpp.Memory.{Mem, copy}
use diskmap_cpp.Memory.Laws.{copy-agree}
use diskmap_cpp.LogRecord.{Payload, WalRecord, abort_end, set, clr, seal}
use diskmap_cpp.Wal.{Wal, apply_payload, apply_record, log_event, set_record, undo_all}
use diskmap_cpp.Wal.Undo.{
  Write, IsValid, set_all, records_of, replay, mem-set_all, undo_all-set_all,
}
use diskmap_cpp.Wal.Recover.{
  contains, insert, is_finish, is_set, FirstPass, redo, first_pass, to_undo, aborted_txns, end_all,
  recover_from,
}

-- A record fixes a byte if redoing it leaves the same value there whatever was there before, and
-- spares it if redoing it leaves what was there.
abbrev Fixes : WalRecord → ℕ → Type 0
Fixes r a = (m m' : Mem) → apply_record r m a ≡ apply_record r m' a

abbrev pub Spares : ℕ → WalRecord → Type 0
Spares a r = (m : Mem) → apply_record r m a ≡ m a

copy-split :
    (loc : ℕ) (bs : List ℕ) (a : ℕ)
    → ((m m' : Mem) → copy m loc bs a ≡ copy m' loc bs a) ⊎ ((m : Mem) → copy m loc bs a ≡ m a)
unfolding copy
copy-split loc [] a = inr (λ m. refl)
copy-split loc (b ∷ bs) a = elim (Bool-cases (a == loc)) [
  | inl e ↦ rw e (inl (λ m m'. refl))
  | inr e ↦ rw e (copy-split (suc loc) bs a)
]

payload-split :
    (p : Payload) (contents : List ℕ) (a : ℕ)
    → ((m m' : Mem) → apply_payload p contents m a ≡ apply_payload p contents m' a)
      ⊎ ((m : Mem) → apply_payload p contents m a ≡ m a)
unfolding apply_payload
payload-split (set s) contents a = copy-split _ _ a
payload-split (clr c) contents a = copy-split _ _ a
payload-split _ contents a = inr (λ m. refl)

apply_record-split : (r : WalRecord) (a : ℕ) → Fixes r a ⊎ Spares a r
unfolding apply_record
apply_record-split r a = payload-split r.header.payload r.contents a

payload-agree :
    (p : Payload) (contents : List ℕ) (m m' : Mem) (a : ℕ)
    → m a ≡ m' a
    → apply_payload p contents m a ≡ apply_payload p contents m' a
unfolding apply_payload
payload-agree (set s) contents m m' a h = copy-agree m m' _ _ a h
payload-agree (clr c) contents m m' a h = copy-agree m m' _ _ a h
payload-agree _ contents m m' a h = h

apply_record-agree :
    (r : WalRecord) (m m' : Mem) (a : ℕ) → m a ≡ m' a → apply_record r m a ≡ apply_record r m' a
unfolding apply_record
apply_record-agree r m m' a h = payload-agree r.header.payload r.contents m m' a h

replay-agree :
    (rs : List WalRecord) (m m' : Mem) (a : ℕ)
    → (All (Spares a) rs → m a ≡ m' a)
    → replay rs m a ≡ replay rs m' a
unfolding replay
replay-agree [] m m' a h = h tt
replay-agree (r ∷ rs) m m' a h = replay-agree rs (apply_record r m) (apply_record r m') a λ spared.
    elim (apply_record-split r a) [
      | inl fixes ↦ fixes m m'
      | inr spares ↦ apply_record-agree r m m' a (h (spares, spared))
    ]

-- Replaying forgets which pages had been written back: the disk only has to hold the checkpoint's
-- bytes where the log writes nothing.
pub replay_converges :
    (rs : List WalRecord) (disk base : Mem)
    → ((a : ℕ) → All (Spares a) rs → disk a ≡ base a)
    → replay rs disk ≡ replay rs base
replay_converges rs disk base h = fun_ext (λ a. replay-agree rs disk base a (h a))

-- Some COMMIT or ABORT_END of the transaction is in the log.
unfoldable pub has_finish : ℕ → List WalRecord → Bool
has_finish txn_id [] = false
has_finish txn_id (r ∷ rs) =
    (is_finish r.header.payload && (txn_id == r.header.txn_id)) || has_finish txn_id rs

contains-insert : (x y : ℕ) (ys : List ℕ) → contains x (insert y ys) ≡ (x == y || contains x ys)
unfolding insert
contains-insert x y ys = elim (Bool-cases (contains y ys)) [
  | inl old ↦ rw old (ground arith)
  | inr new ↦ rw new refl
]

finished-first_pass :
    (x : ℕ) (rs : List WalRecord) (s : FirstPass)
    → contains x (first_pass rs s).finished_txns ≡ (has_finish x rs || contains x s.finished_txns)
unfolding first_pass has_finish redo
finished-first_pass x [] s = refl
finished-first_pass x (r ∷ rs) s =
    finished-first_pass x rs (redo r s)
    ∙ ground (arith, contains-insert x r.header.txn_id s.finished_txns)

mem-first_pass :
    (rs : List WalRecord) (s : FirstPass) → (first_pass rs s).wal.mem ≡ replay rs s.wal.mem
unfolding first_pass replay redo
mem-first_pass [] s = refl
mem-first_pass (r ∷ rs) s = mem-first_pass rs (redo r s)

mem-end_all : (ids : List ℕ) (w : Wal) → (end_all ids w).mem ≡ w.mem
unfolding end_all log_event seal apply_record
mem-end_all [] w = refl
mem-end_all (x ∷ ids) w = mem-end_all ids (log_event x abort_end w)

-- A record that the second pass leaves alone.
abbrev IsSettled : List ℕ → WalRecord → Type 0
IsSettled finished r = is_set r.header.payload ≡ true → contains r.header.txn_id finished ≡ true

to_undo-IsSettled :
    (finished : List ℕ) (qs post undo : List WalRecord)
    → All (IsSettled finished) qs
    → to_undo finished (qs ++ post) undo ≡ to_undo finished post undo
unfolding to_undo
to_undo-IsSettled finished [] post undo h = refl
to_undo-IsSettled finished (q ∷ qs) post undo h =
    ground (arith, to_undo-IsSettled finished qs post undo, h.0)

to_undo-records_of :
    (finished : List ℕ) (txn_id : ℕ) (xs : List Write) (w : Wal) (undo : List WalRecord)
    → contains txn_id finished ≡ false
    → to_undo finished (records_of txn_id xs w) undo ≡ reverse_aux (records_of txn_id xs w) undo
unfolding to_undo records_of set_record seal is_set
to_undo-records_of finished txn_id [] w undo h = refl
to_undo-records_of finished txn_id (x ∷ xs) w undo h =
    rw (h, to_undo) (to_undo-records_of finished txn_id xs _ _ h)

has_finish-records_of :
    (x txn_id : ℕ) (xs : List Write) (w : Wal) → has_finish x (records_of txn_id xs w) ≡ false
unfolding has_finish records_of set_record seal is_finish
has_finish-records_of x txn_id [] w = refl
has_finish-records_of x txn_id (y ∷ ys) w = has_finish-records_of x txn_id ys _

pub has_finish-append :
    (x : ℕ) (qs rs : List WalRecord)
    → has_finish x (qs ++ rs) ≡ (has_finish x qs || has_finish x rs)
unfolding has_finish
has_finish-append x [] rs = refl
has_finish-append x (q ∷ qs) rs = ground (arith, has_finish-append x qs rs)

pub replay-append :
    (qs rs : List WalRecord) (m : Mem) → replay (qs ++ rs) m ≡ replay rs (replay qs m)
unfolding replay
replay-append [] rs m = refl
replay-append (q ∷ qs) rs m = replay-append qs rs (apply_record q m)

-- After a crash inside a transaction the log holds settled transactions and then SETs of the
-- unfinished one. Recovery from any disk that holds the checkpoint's bytes where the log writes
-- nothing succeeds, and the data file reads as it did before the unfinished transaction's SETs.
pub recover_from-atomic :
    (done : List WalRecord) (txn_id : ℕ) (xs : List Write) (w crashed : Wal) (base : Mem) (pos : ℕ)
    → w.mem ≡ replay done base
    → All (λ r. is_set r.header.payload ≡ true → has_finish r.header.txn_id done ≡ true) done
    → has_finish txn_id done ≡ false
    → All IsValid xs
    → ((a : ℕ) → All (Spares a) (done ++ records_of txn_id xs w) → crashed.mem a ≡ base a)
    → (w' : Wal) × (recover_from (done ++ records_of txn_id xs w) pos crashed ≡ some w')
      × (w'.mem ≡ w.mem)
unfolding recover_from contains
recover_from-atomic done txn_id xs w crashed base pos built settled unfinished valid disk =
    let (v, run, u) = undo_all-set_all txn_id xs w replayed.wal [] valid mem in
    (
      end_all (aborted_txns replayed.finished_txns rs []) v,
      rw (undo_is, run) (unfold undo_all in refl),
      mem-end_all _ v ∙ u.restored,
    )
  where
    rs : List WalRecord
    rs = done ++ records_of txn_id xs w

    start : FirstPass
    start = record {
      wal = record crashed { records = rs; log_pos = pos };
      finished_txns = [];
      reverted_lsns = [];
    }

    replayed : FirstPass
    replayed = first_pass rs start

    finished_is : (x : ℕ) → contains x replayed.finished_txns ≡ has_finish x done
    finished_is x = ground (
      arith,
      finished-first_pass x rs start,
      has_finish-append x done (records_of txn_id xs w),
      has_finish-records_of x txn_id xs w,
    )

    undo_is : to_undo replayed.finished_txns rs [] ≡ reverse_aux (records_of txn_id xs w) []
    undo_is =
        to_undo-IsSettled replayed.finished_txns done _ [] (
          All-map (λ r. is_set r.header.payload ≡ true → has_finish r.header.txn_id done ≡ true)
            (IsSettled replayed.finished_txns) done (λ r h s. finished_is r.header.txn_id ∙ h s)
            settled)
        ∙ to_undo-records_of replayed.finished_txns txn_id xs w [] (finished_is txn_id ∙ unfinished)

    mem : replayed.wal.mem ≡ (set_all txn_id xs w).mem
    mem =
        mem-first_pass rs start
        ∙ replay_converges rs crashed.mem base disk
        ∙ replay-append done (records_of txn_id xs w) base
        ∙ ap (replay (records_of txn_id xs w)) (sym built)
        ∙ sym (mem-set_all txn_id xs w)
