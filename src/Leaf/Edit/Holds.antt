-- ===== src/Leaf/Edit/Holds.antt =====
-- What it means for a leaf page to hold a list of entries, and the page around one of them.
use diskmap_cpp.Common.{
  ℕ, ◌+◌, ◌-◌, ◌≤◌, ◌≡◌, refl, some, List, [], ◌∷◌, ◌++◌, arith, length, drop, replicate, All,
  append_assoc, length-append, drop-length_append,
}
use diskmap_cpp.Bytes.{le_bytes}
use diskmap_cpp.Leaf.{
  KvEntry, LeafPage, capacity, read_u64, entry_bytes, entries_buffer, total_entries_size,
}
use diskmap_cpp.Leaf.Format.{IsEntry, length-entries_buffer, read_u64-le_bytes}

-- The entries from the start of the data section, zeros behind them, and a header that agrees.
pub record Holds (leaf : LeafPage) (es : List KvEntry) : Type 0 where
  pub entries : All IsEntry es
  pub contents : leaf.contents ≡ entries_buffer es ++ replicate (capacity - total_entries_size es) 0
  pub usage : leaf.usage ≡ total_entries_size es
  pub fits : total_entries_size es ≤ capacity
  pub count : leaf.entry_count ≡ length es

pub entries_buffer-append :
    (es fs : List KvEntry) → entries_buffer (es ++ fs) ≡ entries_buffer es ++ entries_buffer fs
unfolding entries_buffer
entries_buffer-append [] fs = refl
entries_buffer-append (e ∷ es) fs = rw (entries_buffer-append es fs, append_assoc)

pub total_entries_size-append :
    (es fs : List KvEntry)
    → total_entries_size (es ++ fs) ≡ total_entries_size es + total_entries_size fs
unfolding total_entries_size
total_entries_size-append [] fs = omega arith
total_entries_size-append (e ∷ es) fs = omega (arith, total_entries_size-append es fs)

-- The part of the page in front of the value length of an entry, behind `pre`.
abbrev pub front_of : List KvEntry → KvEntry → List ℕ
front_of pre e = entries_buffer pre ++ (e.key ++ (0 ∷ []))

pub length-front_of :
    (pre : List KvEntry) (e : KvEntry)
    → length (front_of pre e) ≡ total_entries_size pre + length e.key + 1
length-front_of pre e = omega (
  arith,
  length-append (entries_buffer pre) (e.key ++ (0 ∷ [])),
  length-append e.key (0 ∷ []),
  length-entries_buffer pre,
)

-- The page around one entry.
pub entries_buffer-split :
    (pre post : List KvEntry) (e : KvEntry) (zeros : List ℕ)
    → entries_buffer (pre ++ e ∷ post) ++ zeros
      ≡ front_of pre e
        ++ (le_bytes 8 (length e.value) ++ (e.value ++ (entries_buffer post ++ zeros)))
unfolding entry_bytes entries_buffer
entries_buffer-split pre post e zeros =
    rw (entries_buffer-append pre (e ∷ post)) (simp append_assoc)

pub total_entries_size-split :
    (pre post : List KvEntry) (e : KvEntry)
    → total_entries_size (pre ++ e ∷ post)
      ≡ total_entries_size pre + length e.key + 1 + (8 + (length e.value + total_entries_size post))
unfolding total_entries_size
total_entries_size-split pre post e = rw (total_entries_size-append pre (e ∷ post)) (omega arith)

pub All-split :
    (pre post : List KvEntry) (e : KvEntry)
    → All IsEntry (pre ++ e ∷ post)
    → All IsEntry pre × IsEntry e × All IsEntry post
All-split [] post e h = (tt, h.0, h.1)
All-split (p ∷ pre) post e h = let (a, b, c) = All-split pre post e h.1 in ((h.0, a), b, c)

-- The value length of an entry, read behind its key.
pub read_u64-entry :
    (pre post : List KvEntry) (e : KvEntry) (zeros : List ℕ)
    → IsEntry e
    → read_u64 (
        drop
          (total_entries_size pre + length e.key + 1)
          (entries_buffer (pre ++ e ∷ post) ++ zeros))
      ≡ some (length e.value)
read_u64-entry pre post e zeros h =
    rw
      (
        entries_buffer-split pre post e zeros,
        ← length-front_of pre e,
        drop-length_append (front_of pre e),
      )
      (read_u64-le_bytes (length e.value) _ h.sized)
