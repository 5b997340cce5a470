-- ===== src/Leaf/Entries.antt =====
-- `get_entries_in_leaf` inverts the layout that `create_subtree` writes.
use diskmap_cpp.Common.{
  ℕ, zero, suc, ◌≤◌, ◌<◌, ◌≡◌, refl, false, some, List, [], ◌∷◌, ◌++◌, arith, ◌==◌, ◌>>=◌, length,
  replicate, All, length-append, append_assoc,
}
use diskmap_cpp.Leaf.{
  KvEntry, read_entry, entries_loop, get_entries_in_leaf, entry_bytes, entries_buffer,
}
use diskmap_cpp.Leaf.Format.{
  IsEntry, Starts, read_entry-entry_bytes, entry_bytes-Starts, length-entry_bytes,
}

entries_step :
    (fuel : ℕ) (ptr : List ℕ) (e : KvEntry) (rest : List ℕ)
    → Starts ptr
    → read_entry ptr ≡ some (e, rest)
    → entries_loop (suc fuel) ptr ≡ (entries_loop fuel rest >>= λ es. some (e ∷ es))
unfolding entries_loop
entries_step fuel [] e rest s h = absurd s
entries_step fuel (c ∷ cs) e rest s h =
    let nonzero : (c == 0) ≡ false = ground arith in rw (nonzero, h)

entries_end : (fuel k : ℕ) → entries_loop (suc fuel) (replicate k 0) ≡ some []
unfolding entries_loop
entries_end fuel zero = refl
entries_end fuel (suc k) = refl

pub entries_loop-entries_buffer :
    (es : List KvEntry) (k fuel : ℕ)
    → All IsEntry es
    → length es < fuel
    → entries_loop fuel (entries_buffer es ++ replicate k 0) ≡ some es
unfolding entries_buffer
entries_loop-entries_buffer es k zero h enough = absurd (omega arith)
entries_loop-entries_buffer [] k (suc fuel) h enough = entries_end fuel k
entries_loop-entries_buffer (e ∷ es) k (suc fuel) h enough = rw (
  append_assoc,
  entries_step fuel _ e rest (entry_bytes-Starts e rest h.0) (read_entry-entry_bytes e rest h.0),
  entries_loop-entries_buffer es k fuel h.1 (omega arith),
)
  where
    rest : List ℕ
    rest = entries_buffer es ++ replicate k 0

pub length-le-entries_buffer : (es : List KvEntry) → length es ≤ length (entries_buffer es)
unfolding entries_buffer
length-le-entries_buffer [] = omega arith
length-le-entries_buffer (e ∷ es) = omega (
  arith,
  length-append (entry_bytes e) (entries_buffer es),
  length-entry_bytes e,
  length-le-entries_buffer es,
)

-- What was laid out is read back: the valid entries of a data section that holds them and then
-- zeros, in order and whole, whatever the number of zeros.
pub get_entries_in_leaf-entries_buffer :
    (es : List KvEntry) (k : ℕ)
    → All IsEntry es
    → get_entries_in_leaf (entries_buffer es ++ replicate k 0) ≡ some es
unfolding get_entries_in_leaf
get_entries_in_leaf-entries_buffer es k h = entries_loop-entries_buffer es k _ h (
    omega
      (arith, length-le-entries_buffer es, length-append (entries_buffer es) (replicate k zero)))
