-- ===== src/Wal/Load/Fuel.antt =====
-- The loop of `WAL::recover` that reads the log file ends on every file, also on a damaged one.
use diskmap_cpp.Common.{
  ℕ, zero, suc, ◌+◌, ◌-◌, ◌<◌, ◌≡◌, refl, sym, ap, if◌then◌else◌, ◌∙◌, inl, inr, false, List, [],
  ◌∷◌, arith, ◌==◌, ltb, length, Bool-cases,
}
use diskmap_cpp.LogRecord.{
  Payload, WalHeader, WalRecord, set, clr, record_size, record_header_size, checksum,
}
use diskmap_cpp.Wal.Load.{load_wal_record, load_records}

with_payload-pos : (h : WalHeader) (p : Payload) → 0 < record_size (record h { payload = p })
unfolding record_size record_header_size
with_payload-pos h (set s) = omega arith
with_payload-pos h (clr c) = omega arith
with_payload-pos h _ = omega arith

-- One round, given what the rest of the loop reads.
abbrev round : List ℕ → ℕ → List WalRecord × ℕ → List WalRecord × ℕ
round file log_pos more =
    let r = load_wal_record file log_pos in
    if ltb log_pos (length file)
    then (if r.header.checksum == checksum r then (r ∷ more.0, more.1) else ([], log_pos))
    else ([], log_pos)

load_records-round :
    (fuel : ℕ) (file : List ℕ) (pos : ℕ)
    → load_records (suc fuel) file pos
      ≡ round file pos
          (load_records fuel file (pos + record_size (load_wal_record file pos).header))
unfolding load_records
load_records-round fuel file pos = refl

stops :
    (fuel : ℕ) (file : List ℕ) (pos : ℕ)
    → ltb pos (length file) ≡ false
    → load_records (suc fuel) file pos ≡ ([], pos)
unfolding load_records
stops fuel file pos e = rw e

fuel_suc :
    (fuel : ℕ) (file : List ℕ) (pos : ℕ)
    → length file - pos < fuel
    → load_records fuel file pos ≡ load_records (suc fuel) file pos
fuel_suc zero file pos h = absurd (omega arith)
fuel_suc (suc fuel) file pos h =
    let r = load_wal_record file pos in
    let rest = pos + record_size r.header in
    elim (Bool-cases (ltb pos (length file))) [
      | inl e ↦
          load_records-round fuel file pos
          ∙ ap (round file pos)
              (fuel_suc fuel file rest (ground (arith, with_payload-pos r.header r.header.payload)))
          ∙ sym (load_records-round (suc fuel) file pos)
      | inr e ↦ stops fuel file pos e ∙ sym (stops (suc fuel) file pos e)
    ]

-- The loop that reads the log file ends on any file, also on a damaged one: more fuel than there are
-- bytes behind the position makes no difference.
pub load_records-fuel :
    (more fuel : ℕ) (file : List ℕ) (pos : ℕ)
    → length file - pos < fuel
    → load_records (more + fuel) file pos ≡ load_records fuel file pos
load_records-fuel zero fuel file pos h = let e : 0 + fuel ≡ fuel = omega arith in rw e
load_records-fuel (suc more) fuel file pos h =
    let e : suc more + fuel ≡ suc (more + fuel) = omega arith in
    rw e
      (sym (fuel_suc (more + fuel) file pos (omega arith)) ∙ load_records-fuel more fuel file pos h)
