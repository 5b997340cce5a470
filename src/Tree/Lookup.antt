-- ===== src/Tree/Lookup.antt =====
-- What the reads return, for the entries of the leaf that the key leads to.
use diskmap_cpp.Common.{
  ℕ, ◌+◌, ◌-◌, ◌<◌, ◌≡◌, sym, ap, ◌∙◌, inl, inr, Option, none, some, List, [], ◌∷◌, ◌++◌, ==-self,
  min, ◌%◌, arith, Bool-cases, if◌then◌else◌, take, drop, length, replicate, All, length-append,
  append_assoc, take-length_append, drop-length_append,
}
use diskmap_cpp.Memory.{Mem}
use diskmap_cpp.Bytes.{le_bytes, length-le_bytes}
use diskmap_cpp.Leaf.{
  KvEntry, LeafPage, capacity, read_u64, Position, found, missing, find_entry_in_leaf, entry_bytes,
  entries_buffer, total_entries_size,
}
use diskmap_cpp.Leaf.Format.{length-entry_bytes}
use diskmap_cpp.Leaf.Find.{str_eq, str_eq_sound, position_of, find_entry_in_leaf-position_of}
use diskmap_cpp.Leaf.Edit.Holds.{
  Holds, front_of, length-front_of, entries_buffer-split, total_entries_size-append, read_u64-entry,
  All-split,
}
use diskmap_cpp.Checksum.{u64_mod}
use diskmap_cpp.Bucket.{get_msb, clear_msb}
use diskmap_cpp.Tree.{
  Parent, child, leaf_at, value_at, find_value, find_parent, part_of, read, read_part,
  read_value_length,
}

-- The value of the first entry with the key.
unfoldable pub value_of : List KvEntry → List ℕ → Option (List ℕ)
value_of [] key = none
value_of (e ∷ es) key =
    let later = value_of es key in if str_eq e.key key then some e.value else later

-- The first entry with the key, between the others.
pub data Search (key : List ℕ) : List KvEntry → Position → Option (List ℕ) → Type 0 where
  no_entry : (es : List KvEntry) → Search key es missing none
  entry :
      (pre post : List KvEntry) (e : KvEntry)
      → e.key ≡ key
      → Search key (pre ++ e ∷ post) (found (total_entries_size pre)) (some e.value)

Search-from :
    (done es : List KvEntry) (key : List ℕ)
    → Search key (done ++ es) (position_of es key (total_entries_size done)) (value_of es key)
unfolding position_of value_of total_entries_size
Search-from done [] key = no_entry (done ++ [])
Search-from done (e ∷ es) key = elim (Bool-cases (str_eq e.key key)) [
  | inl hit ↦ rw (hit) (entry done es e (str_eq_sound e.key key hit))
  | inr other ↦
      let further : total_entries_size (done ++ e ∷ [])
          ≡ total_entries_size done + length (entry_bytes e) =
        omega (arith, total_entries_size-append done (e ∷ []), length-entry_bytes e) in
      rw (other, ← further, ← append_assoc done (e ∷ []) es) (Search-from (done ++ e ∷ []) es key)
]

-- The value stands behind the key, its NUL and the value length.
value_behind :
    (pre post : List KvEntry) (e : KvEntry) (zeros : List ℕ)
    → take (length e.value) (
        drop
          (total_entries_size pre + length e.key + 1 + 8)
          (entries_buffer (pre ++ e ∷ post) ++ zeros))
      ≡ e.value
value_behind pre post e zeros =
    let front = front_of pre e ++ le_bytes 8 (length e.value) in
    let n : total_entries_size pre + length e.key + 1 + 8 ≡ length front = omega (
      arith,
      length-front_of pre e,
      length-append (front_of pre e) (le_bytes 8 (length e.value)),
      length-le_bytes 8 (length e.value),
    ) in
    rw
      (
        entries_buffer-split pre post e zeros,
        n,
        ← append_assoc (front_of pre e) (le_bytes 8 (length e.value))
            (e.value ++ (entries_buffer post ++ zeros)),
        drop-length_append front,
      )
      (take-length_append e.value (entries_buffer post ++ zeros))

-- What `find_value` and the value behind it give.
abbrev Looked : List ℕ → LeafPage → Option (List ℕ) → Type 0
Looked key leaf none = find_value key leaf ≡ some none
Looked key leaf (some v) =
    (offset : ℕ) × (find_value key leaf ≡ some (some (offset, length v)))
    × (take (length v) (drop offset leaf.contents) ≡ v)
    × (length v < u64_mod)

Looked-entry :
    (key : List ℕ) (leaf : LeafPage) (es : List KvEntry) (p : Position) (v : Option (List ℕ))
    → Holds leaf es
    → find_entry_in_leaf leaf.contents key ≡ p
    → Search key es p v
    → Looked key leaf v
unfolding find_value value_at
Looked-entry key leaf es p v h run (no_entry _) = rw (find_value, run)
Looked-entry key leaf es p v h run (entry pre post e same) =
    let zeros = replicate (capacity - total_entries_size (pre ++ e ∷ post)) 0 in
    let valid = All-split pre post e h.entries in
    let offset = total_entries_size pre + length key + 1 in
    let size : read_u64 (drop offset leaf.contents) ≡ some (length e.value) =
      ap (λ c. read_u64 (drop offset c)) h.contents
      ∙ ap
          (λ k. read_u64 (
            drop (total_entries_size pre + length k + 1)
              (entries_buffer (pre ++ e ∷ post) ++ zeros)))
          (sym same)
      ∙ read_u64-entry pre post e zeros valid.1 in
    (
      offset + 8,
      rw (find_value, run, size),
      ap (λ c. take (length e.value) (drop (offset + 8) c)) h.contents
          ∙ ap
              (λ k. take (length e.value) (
                drop (total_entries_size pre + length k + 1 + 8)
                  (entries_buffer (pre ++ e ∷ post) ++ zeros)))
              (sym same)
          ∙ value_behind pre post e zeros,
      omega (arith, valid.1.sized),
    )

pub find_value-Looked :
    (key : List ℕ) (leaf : LeafPage) (es : List KvEntry)
    → Holds leaf es
    → All (λ c. 0 < c) key
    → Looked key leaf (value_of es key)
unfolding total_entries_size
find_value-Looked key leaf es h p =
    Looked-entry key leaf es (position_of es key 0) (value_of es key) h
      (ap (λ c. find_entry_in_leaf c key) h.contents
        ∙ find_entry_in_leaf-position_of es (capacity - total_entries_size es) key h.entries p)
      (Search-from [] es key)

-- The key leads to a leaf of one page that holds these entries.
pub record LeadsTo (m : Mem) (p : Parent) (es : List KvEntry) : Type 0 where
  pub leaf : get_msb (child m p.page p.entry) ≡ 0
  pub entries : Holds (leaf_at m (clear_msb (child m p.page p.entry))) es
  pub one_page : (leaf_at m (clear_msb (child m p.page p.entry))).next ≡ 0

part_of-whole :
    (page offset : ℕ) (leaf : LeafPage) (m : Mem) (v : List ℕ)
    → take (length v) (drop offset leaf.contents) ≡ v
    → length v < u64_mod
    → leaf.next ≡ 0
    → part_of page 0 (u64_mod - 1) leaf (offset, length v) m ≡ some v
unfolding part_of
part_of-whole page offset leaf m v there small one_page =
    let n : min (u64_mod - 1) ((length v + u64_mod - 0) % u64_mod) ≡ length v =
      omega (arith, small) in
    let o : offset + 0 ≡ offset = omega arith in rw (n, o, there, one_page, ==-self (length v))

abbrev pub map_length : Option (List ℕ) → Option ℕ
map_length none = none
map_length (some v) = some (length v)

read-Looked :
    (fuel : ℕ) (m : Mem) (key : List ℕ) (p : Parent) (v : Option (List ℕ))
    → find_parent fuel key m ≡ some p
    → get_msb (child m p.page p.entry) ≡ 0
    → (leaf_at m (clear_msb (child m p.page p.entry))).next ≡ 0
    → Looked key (leaf_at m (clear_msb (child m p.page p.entry))) v
    → (read fuel key m ≡ some v) × (read_value_length fuel key m ≡ some (map_length v))
unfolding read read_part read_value_length
read-Looked fuel m key p none run leaf one_page l = (rw (run, leaf, l), rw (run, leaf, l))
read-Looked fuel m key p (some v) run leaf one_page (offset, l, there, small) =
    let page = clear_msb (child m p.page p.entry) in
    let whole = part_of-whole page offset (leaf_at m page) m v there small one_page in
    (rw (run, leaf, l, whole), rw (run, leaf, l))

-- Where `find_parent` returns a parent whose entry for a key without NULs leads to a leaf of one page that
-- holds entries `es`, `read` returns the value of the first entry with the key, and no value where there is
-- none, and `read_value_length` its length.
pub read-value_of :
    (fuel : ℕ) (m : Mem) (key : List ℕ) (p : Parent) (es : List KvEntry)
    → find_parent fuel key m ≡ some p
    → All (λ c. 0 < c) key
    → LeadsTo m p es
    → (read fuel key m ≡ some (value_of es key))
      × (read_value_length fuel key m ≡ some (map_length (value_of es key)))
read-value_of fuel m key p es run no_nul l =
    read-Looked fuel m key p (value_of es key) run l.leaf l.one_page
      (find_value-Looked key (leaf_at m (clear_msb (child m p.page p.entry))) es l.entries no_nul)
