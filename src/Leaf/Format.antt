-- ===== src/Leaf/Format.antt =====
-- The layout of entries: its size, and how the reading functions step over one entry.
use diskmap_cpp.Common.{
  ℕ, suc, ◌+◌, ◌^◌, ◌<◌, ◌≡◌, refl, true, false, some, List, [], ◌∷◌, ◌++◌, arith, ◌==◌, leb,
  length, drop, All, length-append, append_assoc, take-length_append, drop-length_append,
}
use diskmap_cpp.Bytes.{le_bytes, of_le-le_bytes, length-le_bytes, take-le_bytes, drop-le_bytes}
use diskmap_cpp.Leaf.{
  KvEntry, strlen, read_u64, entry_span, read_entry, entry_bytes, entries_buffer,
  total_entries_size,
}

-- A key that the leaf can hold: not empty, and no NUL in it. A value length fits its field.
pub record IsEntry (e : KvEntry) : Type 0 where
  pub not_empty : 0 < length e.key
  pub no_nul : All (λ c. 0 < c) e.key
  pub sized : length e.value < 256 ^ 8

pub length-entry_bytes :
    (e : KvEntry) → length (entry_bytes e) ≡ length e.key + 1 + (8 + length e.value)
unfolding entry_bytes
length-entry_bytes e = omega (
  arith,
  length-append e.key (0 ∷ (le_bytes 8 (length e.value) ++ e.value)),
  length-append (le_bytes 8 (length e.value)) e.value,
  length-le_bytes 8 (length e.value),
)

-- `total_entries_size` is the number of bytes that the entries take.
pub length-entries_buffer : (es : List KvEntry) → length (entries_buffer es) ≡ total_entries_size es
unfolding entries_buffer total_entries_size
length-entries_buffer [] = refl
length-entries_buffer (e ∷ es) = omega (
  arith,
  length-append (entry_bytes e) (entries_buffer es),
  length-entry_bytes e,
  length-entries_buffer es,
)

pub strlen-key : (k rest : List ℕ) → All (λ c. 0 < c) k → strlen (k ++ (0 ∷ rest)) ≡ some (length k)
unfolding strlen
strlen-key [] rest h = refl
strlen-key (c ∷ cs) rest h =
    let nonzero : (c == 0) ≡ false = ground (arith, h.0) in rw (nonzero, strlen-key cs rest h.1)

pub drop_key : (k rest : List ℕ) → drop (length k + 1) (k ++ (0 ∷ rest)) ≡ rest
drop_key [] rest = refl
drop_key (c ∷ cs) rest =
    let e : suc (length cs) + 1 ≡ suc (length cs + 1) = omega arith in rw e (drop_key cs rest)

pub read_u64-le_bytes :
    (v : ℕ) (rest : List ℕ) → v < 256 ^ 8 → read_u64 (le_bytes 8 v ++ rest) ≡ some v
unfolding read_u64
read_u64-le_bytes v rest h =
    let long : leb 8 (length (le_bytes 8 v ++ rest)) ≡ true =
      ground (arith, length-append (le_bytes 8 v) rest, length-le_bytes 8 v) in
    rw (long, take-le_bytes 8 v rest, of_le-le_bytes 8 v h)

module _ (e : KvEntry) (rest : List ℕ) (h : IsEntry e) where
  pub entry_at :
      entry_bytes e ++ rest ≡ e.key ++ (0 ∷ (le_bytes 8 (length e.value) ++ (e.value ++ rest)))
  unfolding entry_bytes
  entry_at = rw (append_assoc, append_assoc)

  pub entry_span-entry_bytes : entry_span (entry_bytes e ++ rest) ≡ some (length (entry_bytes e))
  unfolding entry_span
  entry_span-entry_bytes = rw (
    length-entry_bytes e,
    entry_at,
    strlen-key e.key _ h.no_nul,
    drop_key e.key,
    read_u64-le_bytes (length e.value) _ h.sized,
  )

  pub read_entry-entry_bytes : read_entry (entry_bytes e ++ rest) ≡ some (e, rest)
  unfolding read_entry
  read_entry-entry_bytes =
      let fits : leb (length e.value) (length (e.value ++ rest)) ≡ true =
        ground (arith, length-append e.value rest) in
      rw (
        entry_at,
        strlen-key e.key _ h.no_nul,
        drop_key e.key,
        read_u64-le_bytes (length e.value) _ h.sized,
        drop-le_bytes 8,
        fits,
        take-length_append e.key,
        take-length_append e.value,
        drop-length_append e.value,
      )

-- A list that does not read as the end of the entries.
abbrev pub Starts : List ℕ → Type 0
Starts [] = ⊥
Starts (c ∷ cs) = 0 < c

pub Starts-append : (k rest : List ℕ) → 0 < length k → All (λ c. 0 < c) k → Starts (k ++ rest)
Starts-append [] rest h p = absurd (omega arith)
Starts-append (c ∷ cs) rest h p = p.0

pub entry_bytes-Starts : (e : KvEntry) (rest : List ℕ) → IsEntry e → Starts (entry_bytes e ++ rest)
entry_bytes-Starts e rest h = rw (entry_at e rest h) (Starts-append e.key _ h.not_empty h.no_nul)

pub drop-entry_bytes :
    (e : KvEntry) (rest : List ℕ) → drop (length (entry_bytes e)) (entry_bytes e ++ rest) ≡ rest
drop-entry_bytes e rest = drop-length_append (entry_bytes e) rest
