-- ===== src/Wal/Apply.antt =====
-- What the log records of `WAL::set` and `WAL::create_compensation_record` do to the data file:
-- redoing a SET writes the value and the fill zeros, and its CLR puts the old bytes back.
use diskmap_cpp.Common.{
  ℕ, zero, suc, ◌+◌, ◌-◌, ◌%◌, ◌≤◌, ◌<◌, ◌≡◌, refl, sym, ap, inl, inr, some, List, [], ◌∷◌, ◌++◌,
  arith, ◌==◌, Bool-cases, length, take, drop, replicate, get_or, length-append, length-replicate,
  length-take, take-length_append, drop-length_append, append_assoc, append-nil,
}
use diskmap_cpp.Memory.{Mem, page_size, fetch, copy}
use diskmap_cpp.Memory.Laws.{Outside, length-fetch, copy-Outside, copy-fetch}
use diskmap_cpp.LogRecord.{WalRecord, clr, u16_mod, get_unpadded_length, seal}
use diskmap_cpp.Wal.{apply_record, set_record, create_compensation_record}

-- A write that stays inside its page, of at most as many bytes as it covers.
pub record IsWrite (loc write_length : ℕ) (bytes : List ℕ) : Type 0 where
  pub in_page : loc % page_size + write_length ≤ page_size
  pub covers : length bytes ≤ write_length

pub get_unpadded_length-le : (n : ℕ) (v : List ℕ) → get_unpadded_length n v ≤ n
unfolding get_unpadded_length
get_unpadded_length-le zero v = omega arith
get_unpadded_length-le (suc n) v = ground (arith, get_unpadded_length-le n v)

take_last : (n : ℕ) (v : List ℕ) → n < length v → take (suc n) v ≡ take n v ++ (get_or v n 0 ∷ [])
take_last n [] h = absurd (omega arith)
take_last zero (x ∷ v) h = refl
take_last (suc n) (x ∷ v) h = ap (λ w. x ∷ w) (take_last n v (omega arith))

replicate_last : (n : ℕ) → replicate n 0 ++ zero ∷ [] ≡ replicate (suc n) 0
replicate_last zero = refl
replicate_last (suc n) = ap (λ w. 0 ∷ w) (replicate_last n)

replicate_split : (n u : ℕ) → u ≤ n → replicate (suc n - u) 0 ≡ replicate (n - u) 0 ++ zero ∷ []
replicate_split n u h =
    let e : suc n - u ≡ suc (n - u) = omega arith in rw e (sym (replicate_last (n - u)))

-- The unpadded part and its fill bytes are the value.
unpadded_fill :
    (n : ℕ) (v : List ℕ)
    → n ≤ length v
    → take (get_unpadded_length n v) v ++ replicate (n - get_unpadded_length n v) 0 ≡ take n v
unfolding get_unpadded_length
unpadded_fill zero v h = refl
unpadded_fill (suc n) v h = elim (Bool-cases (get_or v n 0 == 0)) [
  | inl e ↦
      let fill : get_or v n 0 ≡ 0 = ground arith in
      rw (
        e,
        replicate_split n (get_unpadded_length n v) (get_unpadded_length-le n v),
        ← append_assoc,
        unpadded_fill n v (omega arith),
        take_last n v h,
        fill,
      )
  | inr e ↦ rw e (let none_left : suc n - suc n ≡ 0 = omega arith in rw none_left (append-nil _))
]

drop_kept : (u : ℕ) (xs ys : List ℕ) → length xs ≡ u → drop u (xs ++ ys) ≡ ys
drop_kept u xs ys h = rw (← h) (drop-length_append xs ys)

take_kept : (u : ℕ) (xs ys : List ℕ) → length xs ≡ u → take u (xs ++ ys) ≡ xs
take_kept u xs ys h = rw (← h) (take-length_append xs ys)

pub take_whole : (xs : List ℕ) → take (length xs) xs ≡ xs
take_whole [] = refl
take_whole (x ∷ xs) = ap (λ ys. x ∷ ys) (take_whole xs)

take-take : (n : ℕ) (xs : List ℕ) → take n (take n xs) ≡ take n xs
take-take zero xs = refl
take-take (suc n) [] = refl
take-take (suc n) (x ∷ xs) = ap (λ ys. x ∷ ys) (take-take n xs)

take-fetch : (m : Mem) (loc n : ℕ) → take n (fetch m loc n) ≡ fetch m loc n
unfolding fetch
take-fetch m loc zero = refl
take-fetch m loc (suc n) = ap (λ ys. m loc ∷ ys) (take-fetch m (suc loc) n)

module _ {loc n : ℕ} {bytes : List ℕ} (w : IsWrite loc n bytes) where
  fits : n % u16_mod ≡ n
  fits = omega (arith, w.in_page)

  bytes_fit : length bytes % u16_mod ≡ length bytes
  bytes_fit = omega (arith, w.in_page, w.covers)

  module _ (m : Mem) where
    unpadded_fits :
        get_unpadded_length n (fetch m loc n) % u16_mod ≡ get_unpadded_length n (fetch m loc n)
    unpadded_fits = omega (arith, w.in_page, get_unpadded_length-le n (fetch m loc n))

    length-kept :
        length (take (get_unpadded_length n (fetch m loc n)) (fetch m loc n))
        ≡ get_unpadded_length n (fetch m loc n)
    length-kept =
        length-take _ _
          (omega (arith, get_unpadded_length-le n (fetch m loc n), length-fetch m loc n))

    -- Redoing the record, in whatever memory, writes the bytes and the zeros behind them.
    pub redo-copy :
        (lsn txn_id : ℕ) (m' : Mem)
        → apply_record (set_record lsn txn_id loc n bytes m) m'
          ≡ copy m' loc (bytes ++ replicate (n - length bytes) 0)
    unfolding apply_record set_record seal
    redo-copy lsn txn_id m' =
        rw (fits, bytes_fit, unpadded_fits, drop_kept _ _ bytes length-kept, take_whole bytes)

    -- The CLR of the record.
    pub undo_of : ℕ → ℕ → ℕ → WalRecord
    undo_of lsn txn_id undo_lsn =
        seal lsn txn_id
          (clr (record {
            undo_lsn = undo_lsn;
            loc = loc;
            length = n;
            new_value_len = get_unpadded_length n (fetch m loc n);
          }))
          (take (get_unpadded_length n (fetch m loc n)) (fetch m loc n))

    pub create_compensation_record-undo_of :
        (lsn txn_id undo_lsn : ℕ)
        → create_compensation_record lsn (set_record undo_lsn txn_id loc n bytes m)
          ≡ some (undo_of lsn txn_id undo_lsn)
    unfolding create_compensation_record set_record seal undo_of
    create_compensation_record-undo_of lsn txn_id undo_lsn =
        rw (fits, unpadded_fits, take_kept _ _ bytes length-kept)

    -- Applied to a memory that differs only in the range, the CLR restores what was overwritten.
    pub undo_of-restores :
        (lsn txn_id undo_lsn : ℕ) (m' : Mem)
        → ((a : ℕ) → Outside loc n a → m' a ≡ m a)
        → apply_record (undo_of lsn txn_id undo_lsn) m' ≡ m
    unfolding apply_record seal undo_of
    undo_of-restores lsn txn_id undo_lsn m' h =
        rw
          (
            take-take,
            unpadded_fill n (fetch m loc n) (omega (arith, length-fetch m loc n)),
            take-fetch,
          )
          (copy-fetch m m' loc n h)

    -- A redone SET changes nothing outside its range.
    pub redo-Outside :
        (lsn txn_id : ℕ) (m' : Mem) (a : ℕ)
        → Outside loc n a
        → apply_record (set_record lsn txn_id loc n bytes m) m' a ≡ m' a
    redo-Outside lsn txn_id m' a o =
        let len : length (bytes ++ replicate (n - length bytes) 0) ≡ n = omega (
          arith,
          w.covers,
          length-append bytes (replicate (n - length bytes) 0),
          length-replicate (n - length bytes) zero,
        ) in
        rw redo-copy (copy-Outside m' loc _ a (rw len o))
