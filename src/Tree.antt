-- ===== src/Tree.antt =====
-- The tree of internal nodes over the leaves (diskmap.cpp), on the data file. An internal node is a page
-- of 512 numbers; a number is 0, the page of a leaf, or the page of an internal node with the top bit set.
-- `none` is an exception, undefined behaviour, or a descent that has not ended within its fuel, which is
-- the height that the tree may have.
pub mod Descend
pub mod Absent
pub mod Lookup
pub mod Verify
pub mod Empty
pub mod Big
mod Tests
use diskmap_cpp.Common.{
  ℕ, zero, suc, ◌+◌, ◌-◌, ◌*◌, ◌%◌, ◌^◌, min, Bool, true, false, not, ◌&&◌, ◌||◌, Option, none,
  some, List, [], ◌∷◌, ◌++◌, ◌==◌, ltb, leb, if◌then◌else◌, ◌>>=◌, take, drop, length, replicate,
}
use diskmap_cpp.Memory.{Mem, fetch, copy}
use diskmap_cpp.Checksum.{u64_mod}
use diskmap_cpp.LogRecord.{u16_mod}
use diskmap_cpp.Page.{address, read_field, write_field, meta_page, kv_entry_count, max_order}
use diskmap_cpp.SpaceManager.{free}
use diskmap_cpp.Bucket.{get_bucket, get_msb, clear_msb, set_msb, branching_factor}
use diskmap_cpp.Leaf.{
  LeafPage, capacity, read_u64, Position, found, missing, overrun, find_entry_in_leaf,
}
use diskmap_cpp.Leaf.Check.{validate_leaf_integrity}
use diskmap_cpp.Leaf.Edit.{remove_entry}
use diskmap_cpp.BigValue.{BigValue, read_value}

abbrev pub root_page : ℕ
root_page = 1

-- `ro_data()->entries[i]`, and the write of that entry.
unfoldable pub child : Mem → ℕ → ℕ → ℕ
child m page i = read_field 8 m page (8 * i)

unfoldable pub set_child : ℕ → ℕ → ℕ → Mem → Mem
set_child page i value m = write_field 8 page (8 * i) value m

-- `LeafNodeStartPage`, read from the file.
unfoldable pub leaf_at : Mem → ℕ → LeafPage
leaf_at m page = record {
  next = read_field 8 m page 0;
  usage = read_field 8 m page 8;
  entry_count = read_field 2 m page 16;
  contents = fetch m (address page 18) capacity;
}

-- What `find_parent` returns: the node, the index of the entry in it, and its depth.
pub record Parent : Type 0 where
  pub page : ℕ
  pub entry : ℕ
  pub depth : ℕ

unfoldable pub find_from : ℕ → List ℕ → Mem → ℕ → ℕ → Option Parent
find_from zero key m page depth = none
find_from (suc fuel) key m page depth =
    let parent_entry = get_bucket key (depth + 1) in
    let parent_entry_value = child m page parent_entry in
    let deeper = find_from fuel key m (clear_msb parent_entry_value) (depth + 1) in
    if parent_entry_value == 0 || get_msb parent_entry_value == 0
    then some (record { page = page; entry = parent_entry; depth = depth })
    else deeper

-- `DiskMap::find_parent`
unfoldable pub find_parent : ℕ → List ℕ → Mem → Option Parent
unfolding find_from
find_parent fuel key m = find_from fuel key m root_page 0

-- The entry of a key that is in this leaf: the offset and length of its value.
unfoldable pub value_at : List ℕ → LeafPage → ℕ → Option (ℕ × ℕ)
value_at key leaf entry_offset =
    let offset = entry_offset + length key + 1 in
    read_u64 (drop offset leaf.contents) >>= λ value_length. some (offset + 8, value_length)

-- The part of the reads that looks for the key in the leaf, with no entry where it is not there.
unfoldable pub find_value : List ℕ → LeafPage → Option (Option (ℕ × ℕ))
unfolding value_at
find_value key leaf =
    elim (find_entry_in_leaf leaf.contents key) as (λ p. Option (Option (ℕ × ℕ))) [
      | overrun ↦ none
      | missing ↦ some none
      | found entry_offset ↦ value_at key leaf entry_offset >>= λ e. some (some e)
    ]

-- `DiskMap::read_value_length`; no length is `found = false`. The entry of an empty bucket is 0, so page
-- 0 is then searched for the key.
unfoldable pub read_value_length : ℕ → List ℕ → Mem → Option (Option ℕ)
unfolding find_parent find_value
read_value_length fuel key m = find_parent fuel key m >>= λ p.
    let parent_entry_value = child m p.page p.entry in
    if not (get_msb parent_entry_value == 0)
    then some none
    else (find_value key (leaf_at m (clear_msb parent_entry_value)) >>= λ e.
        some (elim e as (λ e. Option ℕ) [
          | none ↦ none
          | some (offset, value_length) ↦ some value_length
        ]))

-- The bytes that `read_part` returns of a value. Behind its end `length - read_offset` wraps around.
unfoldable pub part_of : ℕ → ℕ → ℕ → LeafPage → ℕ × ℕ → Mem → Option (List ℕ)
part_of page read_offset read_length leaf (offset, value_length) m =
    let n = min read_length ((value_length + u64_mod - read_offset) % u64_mod) in
    let big : BigValue = record { start_page = page; value_offset_in_start_page = offset } in
    let bytes = take n (drop (offset + read_offset) leaf.contents) in
    if not (leaf.next == 0)
    then read_value big read_offset n m
    else if length bytes == n
    then some bytes
    else none

-- `DiskMap::read_part`
unfoldable pub read_part : ℕ → List ℕ → ℕ → ℕ → Mem → Option (Option (List ℕ))
unfolding find_parent find_value part_of
read_part fuel key read_offset read_length m = find_parent fuel key m >>= λ p.
    let parent_entry_value = child m p.page p.entry in
    let page = clear_msb parent_entry_value in
    if not (get_msb parent_entry_value == 0)
    then some none
    else (find_value key (leaf_at m page) >>= λ e. elim e as (λ e. Option (Option (List ℕ))) [
      | none ↦ some none
      | some v ↦ part_of page read_offset read_length (leaf_at m page) v m >>= λ bs. some (some bs)
    ])

-- `DiskMap::read`
unfoldable pub read : ℕ → List ℕ → Mem → Option (Option (List ℕ))
unfolding read_part
read fuel key m = read_part fuel key 0 (u64_mod - 1) m

-- `DiskMap::free_leaf`, from the region of this order on. Beyond `max_order` the free lists end.
unfoldable pub free_regions : ℕ → ℕ → ℕ → Mem → Option Mem
free_regions zero page order m = none
free_regions (suc orders) page order m =
    let next = read_field 8 m page 0 in
    free page order m >>= λ m1.
    let rest = free_regions orders next (order + 1) m1 in if next == 0 then some m1 else rest

unfoldable pub free_leaf : ℕ → Mem → Option Mem
unfolding free_regions
free_leaf page m = free_regions (max_order + 1) page 0 m

-- Where the loop of `remove` stops: the entry of the leaf, and, below the root, the entry above.
pub record Descent : Type 0 where
  pub parent : ℕ
  pub parent_entry : ℕ
  pub grandparent : Option (ℕ × ℕ)

-- The loop of `remove`; no descent is the early `return false`.
unfoldable pub descend : ℕ → List ℕ → Mem → ℕ → Option (ℕ × ℕ) → ℕ → Option (Option Descent)
descend zero key m parent grandparent depth = none
descend (suc fuel) key m parent grandparent depth =
    let parent_entry = get_bucket key depth in
    let parent_entry_value = child m parent parent_entry in
    let deeper =
      descend fuel key m (clear_msb parent_entry_value) (some (parent, parent_entry)) (depth + 1) in
    if parent_entry_value == 0
    then some none
    else if not (get_msb parent_entry_value == 0)
    then deeper
    else some
        (some (record { parent = parent; parent_entry = parent_entry; grandparent = grandparent }))

-- The loop over the children of the parent: how many it has, up to 2, and the last one seen. `n` entries
-- are left, from `i` on.
unfoldable pub siblings : ℕ → ℕ → ℕ → Mem → ℕ × ℕ → ℕ × ℕ
siblings zero i page m (count, value) = (count, value)
siblings (suc n) i page m (count, value) =
    let this = child m page i in
    let skip = siblings n (i + 1) page m (count, value) in
    let add = siblings n (i + 1) page m (count + 1, this) in
    if this == 0 then skip else if ltb 1 (count + 1) then (count + 1, this) else add

-- A parent with one child left is replaced by that child.
unfoldable pub collapse : ℕ → Option (ℕ × ℕ) → Mem → Option Mem
unfolding siblings set_child
collapse parent none m = some m
collapse parent (some (grandparent, grandparent_entry)) m =
    let (count, value) = siblings branching_factor 0 parent m (0, 0) in
    if count == 1 then free parent 0 (set_child grandparent grandparent_entry value m) else some m

-- The last entry of a leaf: the leaf goes away.
unfoldable pub remove_leaf : Descent → ℕ → Mem → Option Mem
unfolding free_leaf set_child collapse
remove_leaf d page m = free_leaf page m >>= λ m1.
    collapse d.parent d.grandparent (set_child d.parent d.parent_entry 0 m1)

-- One of several entries: the fields of the leaf are written back. The bytes in front of the entry are
-- as they were.
unfoldable pub store_leaf : ℕ → LeafPage → Mem → Mem
store_leaf page leaf m =
    let m1 = copy m (address page 18) leaf.contents in
    let m2 = write_field 8 page 8 leaf.usage m1 in write_field 2 page 16 leaf.entry_count m2

unfoldable pub remove_found : ℕ → List ℕ → Descent → ℕ → Mem → Option Mem
unfolding remove_leaf store_leaf
remove_found entry_offset key d page m =
    let leaf = leaf_at m page in
    if leaf.entry_count == 1
    then remove_leaf d page m
    else (remove_entry entry_offset key leaf >>= λ leaf'. some (store_leaf page leaf' m))

-- `meta.kv_entry_count - 1` on `uint64_t`.
unfoldable pub count_down : Mem → Mem
count_down m =
    write_field 8 meta_page kv_entry_count
      ((read_field 8 m meta_page kv_entry_count + u64_mod - 1) % u64_mod) m

unfoldable pub remove_at : List ℕ → Option Descent → Mem → Option (Bool × Mem)
unfolding remove_found count_down
remove_at key none m = some (false, m)
remove_at key (some d) m =
    let page = child m d.parent d.parent_entry in
    elim (find_entry_in_leaf (leaf_at m page).contents key) as (λ p. Option (Bool × Mem)) [
      | overrun ↦ none
      | missing ↦ some (false, m)
      | found entry_offset ↦
          remove_found entry_offset key d page m >>= λ m1. some (true, count_down m1)
    ]

-- `DiskMap::remove`
unfoldable pub remove : ℕ → List ℕ → Mem → Option (Bool × Mem)
unfolding descend remove_at
remove fuel key m = descend fuel key m root_page none 1 >>= λ d. remove_at key d m

-- The loop of `verify_integrity_recursive` over `n` children, from `i` on.
unfoldable pub each_child : ℕ → ℕ → ℕ → Mem → (ℕ → Option Bool) → Option Bool
each_child zero i page m check = some true
each_child (suc n) i page m check =
    let value = child m page i in
    let rest = each_child n (i + 1) page m check in
    if value == 0 then rest else (check value >>= λ ok. if ok then rest else some false)

-- `verify_integrity_recursive`; `some false` is the exception.
unfoldable pub verify_from : ℕ → Mem → ℕ → Option Bool
verify_from zero m page = none
verify_from (suc fuel) m page =
    let children = each_child branching_factor 0 (clear_msb page) m (verify_from fuel m) in
    if not (get_msb page == 0) then children else some (validate_leaf_integrity (leaf_at m page))

-- `DiskMap::verify_integrity`
unfoldable pub verify_integrity : ℕ → Mem → Option Bool
verify_integrity fuel m = verify_from fuel m (set_msb root_page 1)
