-- ===== src/Leaf.antt =====
-- The entries of a leaf page (page_types.h, diskmap.cpp). `contents` is the data section, the bytes
-- from `offsetof(LeafNodeStartPage, data)` to the end of the page. A read past the end of the page
-- is `overrun`, or `none`.
pub mod Format
pub mod Find
pub mod Entries
pub mod Edit
pub mod Check
mod Tests
use diskmap_cpp.Common.{
  ℕ, zero, suc, ◌+◌, ◌-◌, ◌%◌, ◌<◌, Bool, true, false, ◌&&◌, Option, none, some, List, [], ◌∷◌,
  ◌++◌, ◌==◌, ltb, leb, if◌then◌else◌, ◌>>=◌, length, take, drop, replicate, get_or,
}
use diskmap_cpp.Bytes.{le_bytes, of_le}
use diskmap_cpp.Checksum.{u64_mod}

pub record KvEntry : Type 0 where
  pub key : List ℕ
  pub value : List ℕ

pub record LeafPage : Type 0 where
  pub next : ℕ
  pub usage : ℕ
  pub entry_count : ℕ
  pub contents : List ℕ

-- `LeafNodeStartPage::capacity()`: a page less the 18 bytes of its header.
abbrev pub capacity : ℕ
capacity = 4078

-- `strlen`, inside the page.
unfoldable pub strlen : List ℕ → Option ℕ
strlen [] = none
strlen (c ∷ cs) = let rest = strlen cs in if c == 0 then some 0 else rest >>= λ n. some (suc n)

-- `strncmp(ptr, key.c_str(), key.size()) == 0`: a NUL ends the comparison.
unfoldable pub strncmp_eq : List ℕ → List ℕ → Bool
strncmp_eq ptr [] = true
strncmp_eq [] (k ∷ key) = false
strncmp_eq (p ∷ ptr) (k ∷ key) =
    let rest = strncmp_eq ptr key in if p == k then (if k == 0 then true else rest) else false

unfoldable pub key_at : List ℕ → List ℕ → Bool
key_at ptr key = strncmp_eq ptr key && (get_or ptr (length key) 1 == 0)

-- `*reinterpret_cast<const uint64_t *>(ptr)`
unfoldable pub read_u64 : List ℕ → Option ℕ
read_u64 ptr = if leb 8 (length ptr) then some (of_le (take 8 ptr)) else none

-- The length of the entry at `ptr`: key, NUL, value length and value.
unfoldable pub entry_span : List ℕ → Option ℕ
entry_span ptr = strlen ptr >>= λ n. read_u64 (drop (n + 1) ptr) >>= λ len. some (n + 1 + (8 + len))

pub data Position : Type 0 where
  found : ℕ → Position
  missing overrun : Position

-- The loop of `find_entry_in_leaf`, at `ptr`, which is `offset` bytes behind the start. `missing` is
-- the result -1. Each round skips at least nine bytes.
unfoldable pub find_loop : ℕ → List ℕ → ℕ → List ℕ → Position
find_loop zero ptr offset key = overrun
find_loop (suc fuel) [] offset key = missing
find_loop (suc fuel) (c ∷ cs) offset key =
    let next = elim (entry_span (c ∷ cs)) as (λ o. Position) [
      | none ↦ overrun
      | some n ↦ find_loop fuel (drop n (c ∷ cs)) (offset + n) key
    ] in
    if c == 0 then missing else if key_at (c ∷ cs) key then found offset else next

unfoldable pub find_entry_in_leaf : List ℕ → List ℕ → Position
find_entry_in_leaf contents key = find_loop (suc (length contents)) contents 0 key

-- One entry of `get_entries_in_leaf`, with the bytes behind it.
unfoldable pub read_entry : List ℕ → Option (KvEntry × List ℕ)
read_entry ptr = strlen ptr >>= λ n. read_u64 (drop (n + 1) ptr) >>= λ len.
    let value = drop 8 (drop (n + 1) ptr) in
    if leb len (length value)
    then some (record { key = take n ptr; value = take len value }, drop len value)
    else none

unfoldable pub entries_loop : ℕ → List ℕ → Option (List KvEntry)
entries_loop zero ptr = none
entries_loop (suc fuel) [] = some []
entries_loop (suc fuel) (c ∷ cs) =
    let entries = read_entry (c ∷ cs) >>= λ (e : KvEntry × List ℕ).
    entries_loop fuel e.1 >>= λ es. some (e.0 ∷ es) in
    if c == 0 then some [] else entries

unfoldable pub get_entries_in_leaf : List ℕ → Option (List KvEntry)
get_entries_in_leaf contents = entries_loop (suc (length contents)) contents

-- One entry as `create_subtree` and `write_at_node` lay it out, and a run of them.
unfoldable pub entry_bytes : KvEntry → List ℕ
entry_bytes e = e.key ++ (0 ∷ (le_bytes 8 (length e.value) ++ e.value))

unfoldable pub entries_buffer : List KvEntry → List ℕ
entries_buffer [] = []
entries_buffer (e ∷ es) = entry_bytes e ++ entries_buffer es

unfoldable pub total_entries_size : List KvEntry → ℕ
total_entries_size [] = 0
total_entries_size (e ∷ es) = length e.key + 1 + 8 + length e.value + total_entries_size es

-- `PageHandle::write` into the data section.
unfoldable pub splice : List ℕ → ℕ → List ℕ → List ℕ
splice contents offset bytes =
    take offset contents ++ (bytes ++ drop (offset + length bytes) contents)

-- `usage + grown - shrunk` on `uint64_t`.
unfoldable pub usage_after : ℕ → ℕ → ℕ → ℕ
usage_after usage grown shrunk = (usage + grown + u64_mod - shrunk) % u64_mod
