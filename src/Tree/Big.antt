-- ===== src/Tree/Big.antt =====
-- `read_part` of a value that goes on in further regions.
use diskmap_cpp.Common.{
  ℕ, suc, ◌+◌, ◌-◌, ◌%◌, ◌≤◌, ◌<◌, ◌≡◌, ◌≢◌, ap, ◌∙◌, false, some, List, ◌∷◌, ◌++◌, ◌==◌, min,
  arith, take, drop, length, All,
}
use diskmap_cpp.Memory.{Mem}
use diskmap_cpp.Checksum.{u64_mod}
use diskmap_cpp.Bytes.{le_bytes}
use diskmap_cpp.Bucket.{get_msb, clear_msb}
use diskmap_cpp.Leaf.{LeafPage, capacity, read_u64, found, find_entry_in_leaf}
use diskmap_cpp.Leaf.Format.{Starts-append, drop_key, read_u64-le_bytes}
use diskmap_cpp.Leaf.Find.{str_eq_self, key_at-key, find_hit}
use diskmap_cpp.BigValue.{BigValue}
use diskmap_cpp.BigValue.Regions.{room}
use diskmap_cpp.BigValue.Read.{Chained, regions_bytes}
use diskmap_cpp.BigValue.Whole.{read_value-regions_bytes}
use diskmap_cpp.Tree.{Parent, child, leaf_at, value_at, find_value, find_parent, part_of, read_part}

-- The value behind its key on this page.
abbrev pub big_value : List ℕ → ℕ → BigValue
big_value key page = record { start_page = page; value_offset_in_start_page = length key + 1 + 8 }

-- The leaf on this page begins with the entry of the key, whose value goes on in `n` more regions.
pub record IsBigLeaf (m : Mem) (page : ℕ) (key : List ℕ) (value_length n : ℕ) : Type 0 where
  pub more : List ℕ
  pub contents : (leaf_at m page).contents ≡ key ++ (0 ∷ (le_bytes 8 value_length ++ more))
  pub goes_on : (leaf_at m page).next ≢ 0
  pub chain : Chained m n page
  pub few : n < 19
  pub inside : length key + 1 + 8 < capacity
  pub sized : value_length < u64_mod
  pub enough : length key + 1 + 8 + value_length ≤ room n

find_first :
    (key rest : List ℕ)
    → 0 < length key
    → All (λ c. 0 < c) key
    → find_entry_in_leaf (key ++ (0 ∷ rest)) key ≡ found 0
unfolding find_entry_in_leaf
find_first key rest some_bytes h =
    find_hit _ (key ++ (0 ∷ rest)) 0 key (Starts-append key _ some_bytes h)
      (key_at-key key key rest h h ∙ str_eq_self key)

find_value-first :
    (key : List ℕ) (leaf : LeafPage) (value_length : ℕ) (more : List ℕ)
    → 0 < length key
    → All (λ c. 0 < c) key
    → value_length < u64_mod
    → leaf.contents ≡ key ++ (0 ∷ (le_bytes 8 value_length ++ more))
    → find_value key leaf ≡ some (some (length key + 1 + 8, value_length))
unfolding find_value value_at
find_value-first key leaf value_length more some_bytes h sized e =
    let rest = le_bytes 8 value_length ++ more in
    let hit : find_entry_in_leaf leaf.contents key ≡ found 0 =
      ap (λ c. find_entry_in_leaf c key) e ∙ find_first key rest some_bytes h in
    let start : 0 + length key + 1 ≡ length key + 1 = omega arith in
    let size : read_u64 (drop (length key + 1) leaf.contents) ≡ some value_length =
      ap (λ c. read_u64 (drop (length key + 1) c)) e
      ∙ ap read_u64 (drop_key key rest)
      ∙ read_u64-le_bytes value_length more (omega (arith, sized)) in
    rw (find_value, hit, start, size)

part_of-big :
    (m : Mem) (page : ℕ) (key : List ℕ) (value_length n offset size : ℕ)
    → IsBigLeaf m page key value_length n
    → offset < value_length
    → part_of page offset size (leaf_at m page) (length key + 1 + 8, value_length) m
      ≡ some (
          take
            (min size (value_length - offset))
            (drop offset (regions_bytes (big_value key page) m (suc n) 0 page)))
unfolding part_of
part_of-big m page key value_length n offset size b within =
    let part : min size ((value_length + u64_mod - offset) % u64_mod)
        ≡ min size (value_length - offset) =
      omega (arith, within, b.sized) in
    let more : ((leaf_at m page).next == 0) ≡ false = ground (arith, b.goes_on) in
    rw (part, more)
      (read_value-regions_bytes (big_value key page) m n offset (min size (value_length - offset))
        (omega (arith, b.inside)) b.few b.chain (omega (arith, b.enough, within))
        (omega (arith, b.enough, within)))

-- Where `find_parent` returns a parent whose entry for a key, which is not empty and without NULs, leads
-- to a leaf that begins with this key and a value length, and whose value goes on in `n` more regions, at
-- most 18, that have room for it, and where the offset is below that length, `read_part` returns the part of the
-- value of this offset and size, cut at the end of the value, from the bytes of the regions.
pub read_part-big :
    (fuel : ℕ) (m : Mem) (key : List ℕ) (p : Parent) (value_length n offset size : ℕ)
    → find_parent fuel key m ≡ some p
    → get_msb (child m p.page p.entry) ≡ 0
    → 0 < length key
    → All (λ c. 0 < c) key
    → IsBigLeaf m (clear_msb (child m p.page p.entry)) key value_length n
    → offset < value_length
    → read_part fuel key offset size m
      ≡ some (
          some (
            take (min size (value_length - offset)) (
              drop offset (
                regions_bytes
                  (big_value key (clear_msb (child m p.page p.entry)))
                  m
                  (suc n)
                  0
                  (clear_msb (child m p.page p.entry))))))
unfolding read_part
read_part-big fuel m key p value_length n offset size run leaf some_bytes no_nul b within =
    let page = clear_msb (child m p.page p.entry) in
    rw (
      run,
      leaf,
      find_value-first key (leaf_at m page) value_length b.more some_bytes no_nul b.sized
          b.contents,
      part_of-big m page key value_length n offset size b within,
    )
